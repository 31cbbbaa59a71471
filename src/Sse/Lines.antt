-- ===== src/Sse/Lines.antt =====
-- The lines of the frames that the server side writes, and what the client makes of one of them.
use magic_engine.Common.{
  ℕ, ◌≡◌, refl, ap, ◌∙◌, ◌≢◌, true, Option, none, some, [], ◌∷◌, ◌++◌, append_assoc, arith, leb,
  Bytes, codes, has_prefix, trim_prefix,
}
use magic_engine.Sse.Text.{
  trim_right, trim_space, read_lines, OneLine, trim_space-trim_right, trim_space-field,
  read_lines-append,
}
use magic_engine.Sse.Client.{no_event, Client, feed}

-- A line of a field: the name, a space and a value
abbrev pub data_line : Bytes → Bytes
data_line b = codes "data: " ++ b

abbrev pub event_line : Bytes → Bytes
event_line b = codes "event: " ++ b

trim_space-data_line :
    (b : Bytes) → trim_space (data_line b ++ 10 ∷ []) ≡ codes "data:" ++ trim_right (32 ∷ b)
trim_space-data_line b = trim_space-field 100 (codes "ata") 58 (32 ∷ b) refl refl

trim_space-event_line :
    (b : Bytes) → trim_space (event_line b ++ 10 ∷ []) ≡ codes "event:" ++ trim_right (32 ∷ b)
trim_space-event_line b = trim_space-field 101 (codes "vent") 58 (32 ∷ b) refl refl

value_lem : (b : Bytes) → trim_space (trim_right (32 ∷ b)) ≡ trim_space b
unfolding trim_space
value_lem b = trim_space-trim_right (32 ∷ b)

not_newline : (c : ℕ) → leb 11 c ≡ true → c ≢ 10
not_newline c h e = ground arith

data_line-OneLine : (b : Bytes) → OneLine b → OneLine (data_line b)
data_line-OneLine b h = (
  not_newline 100 refl,
  (
    not_newline 97 refl,
    (not_newline 116 refl, (not_newline 97 refl, (not_newline 58 refl, (not_newline 32 refl, h)))),
  ),
)

event_line-OneLine : (b : Bytes) → OneLine b → OneLine (event_line b)
event_line-OneLine b h = (
  not_newline 101 refl,
  (
    not_newline 118 refl,
    (
      not_newline 101 refl,
      (
        not_newline 110 refl,
        (not_newline 116 refl, (not_newline 58 refl, (not_newline 32 refl, h))),
      ),
    ),
  ),
)

-- The lines of one frame
pub data_lines :
    (content later : Bytes)
    → OneLine content
    → read_lines ((codes "data: " ++ (content ++ codes "\n\n")) ++ later)
      ≡ (data_line content ++ 10 ∷ []) ∷ (10 ∷ []) ∷ read_lines later
data_lines content later h =
    ap (λ r. read_lines (codes "data: " ++ r)) (append_assoc content (codes "\n\n") later)
    ∙ read_lines-append (data_line content) (10 ∷ later) (data_line-OneLine content h)
    ∙ ap (λ r. (data_line content ++ 10 ∷ []) ∷ r) (read_lines-append [] later tt)

pub event_lines :
    (event later : Bytes)
    → OneLine event
    → read_lines ((codes "event: " ++ (event ++ codes "\n")) ++ later)
      ≡ (event_line event ++ 10 ∷ []) ∷ read_lines later
event_lines event later h =
    ap (λ r. read_lines (codes "event: " ++ r)) (append_assoc event (codes "\n") later)
    ∙ read_lines-append (event_line event) later (event_line-OneLine event h)

pub ping_lines :
    (later : Bytes)
    → read_lines (codes ": ping\n\n" ++ later)
      ≡ (codes ": ping" ++ 10 ∷ []) ∷ (10 ∷ []) ∷ read_lines later
ping_lines later =
    read_lines-append (codes ": ping") (10 ∷ later) (
      not_newline 58 refl,
      (
        not_newline 32 refl,
        (
          not_newline 112 refl,
          (not_newline 105 refl, (not_newline 110 refl, (not_newline 103 refl, tt))),
        ),
      ),
    )
    ∙ ap (λ r. (codes ": ping" ++ 10 ∷ []) ∷ r) (read_lines-append [] later tt)

module _ (parse_duration : Bytes → Option ℕ) where
  pub feed-data_line :
      (b : Bytes) (name : Bytes) (c : Client)
      → feed parse_duration
          (trim_space (data_line b ++ 10 ∷ []))
          (record { id = []; name = name; content = none })
          c
        ≡ (record { id = []; name = name; content = some (trim_space b ++ 10 ∷ []) }, c)
  unfolding feed trim_prefix has_prefix
  feed-data_line b name c =
      rw (trim_space-data_line b) (
        ap (λ v. (record { id = []; name = name; content = some (v ++ 10 ∷ []) }, c)) (value_lem b))

  pub feed-event_line :
      (b : Bytes) (c : Client)
      → feed parse_duration (trim_space (event_line b ++ 10 ∷ [])) no_event c
        ≡ (record { id = []; name = trim_space b; content = none }, c)
  unfolding feed trim_prefix has_prefix
  feed-event_line b c =
      rw (trim_space-event_line b)
        (ap (λ v. (record { id = []; name = v; content = none }, c)) (value_lem b))
