-- ===== src/Example/Stream/Blocks.antt =====
-- example/sse, processStream: what it makes of the lines of an event.
use magic_engine.Common.{
  ℕ, ◌≡◌, refl, ap, ◌∙◌, ◌≢◌, inl, inr, true, false, Option, none, some, List, [], ◌∷◌, ◌++◌, map,
  append_assoc, arith, if◌then◌else◌, Bool-cases, drop, All, Bytes, codes, has_prefix, trim_prefix,
}
use magic_engine.Example.Stream.{
  Event, StreamClient, Look, read_line, end_event, add_data, set_retry_wait, no_event, take_line,
  process_looks, process_stream,
}
use magic_engine.Sse.Text.{trim_space}

-- The values of the fields of a name among some lines, in their order
abbrev pub values_of : Bytes → List Bytes → List Bytes
values_of name [] = []
values_of name (line ∷ lines) =
    let rest = values_of name lines in
    if has_prefix line name then trim_prefix line name ∷ rest else rest

-- The last of some values, or another one where there is none
abbrev pub last_or : Bytes → List Bytes → Bytes
last_or v [] = v
last_or v (w ∷ ws) = last_or w ws

-- Texts with a newline behind each
abbrev pub lined : List Bytes → Bytes
lined [] = []
lined (v ∷ vs) = v ++ 10 ∷ lined vs

-- Data with further lines behind it
abbrev pub with_data : Option Bytes → List Bytes → Option Bytes
with_data o [] = o
with_data none (v ∷ vs) = some (lined (v ∷ vs))
with_data (some b) (v ∷ vs) = some (b ++ lined (v ∷ vs))

-- The event of some lines: its id is the last one, empty where there is none; its data are all the
-- values of `data:`, each with a newline, or nil where there is none
abbrev pub event_of : List Bytes → Event
event_of lines = record {
  id = last_or [] (values_of (codes "id:") lines);
  content = with_data none (values_of (codes "data:") lines);
}

with_data-add_data :
    (o : Option Bytes) (v : Bytes) (vs : List Bytes)
    → with_data (some (add_data o v)) vs ≡ with_data o (v ∷ vs)
with_data-add_data none v [] = refl
with_data-add_data none v (w ∷ ws) = ap (λ b. some b) (append_assoc v (10 ∷ []) (lined (w ∷ ws)))
with_data-add_data (some b) v [] = ap (λ b. some b) (append_assoc b v (10 ∷ []))
with_data-add_data (some b) v (w ∷ ws) =
    ap (λ b. some b)
      (append_assoc (b ++ v) (10 ∷ []) (lined (w ∷ ws)) ∙ append_assoc b v (10 ∷ lined (w ∷ ws)))

-- A line has one field name at most.
pub has_prefix-other :
    (line p q : Bytes) (x y : ℕ)
    → x ≢ y
    → has_prefix line (x ∷ p) ≡ true
    → has_prefix line (y ∷ q) ≡ false
unfolding has_prefix
has_prefix-other [] p q x y d h = absurd cc
has_prefix-other (b ∷ line) p q x y d h = ground arith

module _ (parse_duration : Bytes → Option ℕ) where
  -- The wait between retries after some values of `retry:`: the last that can be parsed
  abbrev pub wait_after : ℕ → List Bytes → ℕ
  wait_after wait [] = wait
  wait_after wait (v ∷ vs) = wait_after (elim (parse_duration v) [ none ↦ wait | some w ↦ w ]) vs

  -- The client after the lines of an event and the blank one behind them
  abbrev pub after_event : List Bytes → StreamClient → StreamClient
  after_event lines c =
      end_event (event_of lines).content (event_of lines)
        (record c { retry_wait = wait_after c.retry_wait (values_of (codes "retry:") lines) })

  -- What some lines make of an event
  abbrev gathered : List Bytes → Event → StreamClient → Event × StreamClient
  gathered lines ev c = (
    record {
      id = last_or ev.id (values_of (codes "id:") lines);
      content = with_data ev.content (values_of (codes "data:") lines);
    },
    record c { retry_wait = wait_after c.retry_wait (values_of (codes "retry:") lines) },
  )

  set_retry_wait-gathered :
      (o : Option ℕ) (vs : List Bytes) (c : StreamClient)
      → (record (set_retry_wait o c) { retry_wait = wait_after (set_retry_wait o c).retry_wait vs })
        ≡ (record c { retry_wait = wait_after (elim o [ none ↦ c.retry_wait | some w ↦ w ]) vs })
  set_retry_wait-gathered none vs c = refl
  set_retry_wait-gathered (some w) vs c = refl

  take_line-gathered :
      (b : ℕ) (line : Bytes) (lines : List Bytes) (ev : Event) (c : StreamClient)
      → let r = take_line parse_duration (b ∷ line) ev c in
        gathered lines r.0 r.1 ≡ gathered ((b ∷ line) ∷ lines) ev c
  unfolding take_line
  take_line-gathered b line lines ev c =
      let l : Bytes = b ∷ line in
      elim (Bool-cases (has_prefix l (codes "id:"))) [
        | inl i ↦
            let d = has_prefix-other l (codes "d:") (codes "ata:") b'i' b'd' (λ e. omega arith) i in
            let r =
              has_prefix-other l (codes "d:") (codes "etry:") b'i' b'r' (λ e. omega arith) i in
            rw (i, d, r) refl
        | inr i ↦ elim (Bool-cases (has_prefix l (codes "data:"))) [
          | inl d ↦
              let r =
                has_prefix-other l (codes "ata:") (codes "etry:") b'd' b'r' (λ e. omega arith) d in
              rw (i, d, r)
                (ap
                  (λ o. (
                    record { id = last_or ev.id (values_of (codes "id:") lines); content = o },
                    record c {
                      retry_wait = wait_after c.retry_wait (values_of (codes "retry:") lines);
                    },
                  ))
                  (with_data-add_data ev.content (drop 4 line) (values_of (codes "data:") lines)))
          | inr d ↦ elim (Bool-cases (has_prefix l (codes "retry:"))) [
            | inl r ↦
                rw (i, d, r)
                  (ap
                    (λ after. (
                      record {
                        id = last_or ev.id (values_of (codes "id:") lines);
                        content = with_data ev.content (values_of (codes "data:") lines);
                      },
                      after,
                    ))
                    (set_retry_wait-gathered (parse_duration (drop 5 line))
                      (values_of (codes "retry:") lines) c))
            | inr r ↦ rw (i, d, r) refl
          ]
        ]
      ]

  take_line-gathered_any :
      (line : Bytes) (lines : List Bytes) (ev : Event) (c : StreamClient)
      → line ≢ []
      → let r = take_line parse_duration line ev c in
        gathered lines r.0 r.1 ≡ gathered (line ∷ lines) ev c
  take_line-gathered_any [] lines ev c h = absurd (h refl)
  take_line-gathered_any (b ∷ line) lines ev c h = take_line-gathered b line lines ev c

  process_looks-gathered :
      (lines : List Bytes) (rest : List Look) (ev : Event) (c : StreamClient)
      → All (λ line. trim_space line ≢ []) lines
      → process_looks parse_duration (map read_line lines ++ rest) ev c ≡ (
          let r = gathered (map trim_space lines) ev c in process_looks parse_duration rest r.0 r.1)
  unfolding process_looks
  process_looks-gathered [] rest ev c h = refl
  process_looks-gathered (line ∷ lines) rest ev c (h, hs) =
      let r = take_line parse_duration (trim_space line) ev c in
      process_looks-gathered lines rest r.0 r.1 hs
      ∙ ap (λ g. process_looks parse_duration rest g.0 g.1)
          (take_line-gathered_any (trim_space line) (map trim_space lines) ev c h)

  -- Lines that are not blank and then a blank one, read where no event is begun: the client emits one
  -- event, with the data of all lines `data:` and the id of the last line `id:` (empty where there is
  -- none), keeps that id for its next request, and keeps the last wait of a line `retry:` that
  -- time.ParseDuration can read; without a line `data:` it emits nothing and keeps its id. The values
  -- are what follows the colon, spaces included; other lines do nothing. What is read next finds no
  -- event begun.
  pub process_stream-after_event :
      (lines : List Bytes) (blank : Bytes) (rest : List Look) (c : StreamClient)
      → All (λ line. trim_space line ≢ []) lines
      → trim_space blank ≡ []
      → process_stream parse_duration (map read_line lines ++ read_line blank ∷ rest) c
        ≡ process_stream parse_duration rest (after_event (map trim_space lines) c)
  unfolding process_stream process_looks take_line
  process_stream-after_event lines blank rest c h e =
      process_looks-gathered lines (read_line blank ∷ rest) no_event c h ∙ rw e refl
