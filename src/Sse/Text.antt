-- ===== src/Sse/Text.antt =====
-- bytes.TrimSpace and strings.TrimSpace on ASCII, and the lines that ReadBytes('\n') gives.
use magic_engine.Common.{
  ℕ, ◌≡◌, sym, refl, ap, ◌∙◌, ◌≢◌, inl, inr, Bool, true, false, ◌&&◌, ◌||◌, List, [], ◌∷◌, ◌++◌,
  append_assoc, arith, leb, ◌==◌, if◌then◌else◌, Bool-cases, Bytes,
}

-- unicode.IsSpace on ASCII
abbrev pub is_space : ℕ → Bool
is_space c = (leb 9 c && leb c 13) || (c == 32)

unfoldable pub trim_left : Bytes → Bytes
trim_left [] = []
trim_left (c ∷ s) = let rest = trim_left s in if is_space c then rest else c ∷ s

-- A byte before what is left of the text behind it
abbrev pub keep : ℕ → Bytes → Bytes
keep c [] = if is_space c then [] else c ∷ []
keep c (d ∷ s) = c ∷ d ∷ s

unfoldable pub trim_right : Bytes → Bytes
trim_right [] = []
trim_right (c ∷ s) = keep c (trim_right s)

-- TrimSpace
unfoldable pub trim_space : Bytes → Bytes
unfolding trim_left trim_right
trim_space s = trim_right (trim_left s)

read_from : Bytes → Bytes → List Bytes
read_from cur [] = []
read_from cur (c ∷ s) = elim (c == 10) [
  | true ↦ (cur ++ 10 ∷ []) ∷ read_from [] s
  | false ↦ read_from (cur ++ c ∷ []) s
]

-- The lines of a stream with their newlines. What stands behind the last newline is dropped, as
-- recvVal does with the bytes that come with an error.
unfoldable pub read_lines : Bytes → List Bytes
unfolding read_from
read_lines s = read_from [] s

-- No byte is a newline.
abbrev pub OneLine : Bytes → Type 0
OneLine [] = Unit
OneLine (c ∷ s) = (c ≢ 10) × OneLine s

read_from-append :
    (cur l s : Bytes)
    → OneLine l
    → read_from cur (l ++ 10 ∷ s) ≡ (cur ++ (l ++ 10 ∷ [])) ∷ read_from [] s
unfolding read_from
read_from-append cur [] s h = refl
read_from-append cur (c ∷ l) s (n, h) =
    let e : (c == 10) ≡ false = ground arith in
    rw (e, read_from)
      (read_from-append (cur ++ c ∷ []) l s h
        ∙ ap (λ r. r ∷ read_from [] s) (append_assoc cur (c ∷ []) (l ++ 10 ∷ [])))

pub read_lines-append :
    (l s : Bytes) → OneLine l → read_lines (l ++ 10 ∷ s) ≡ (l ++ 10 ∷ []) ∷ read_lines s
unfolding read_lines
read_lines-append l s h = read_from-append [] l s h

keep_space : (c : ℕ) (s : Bytes) → is_space c ≡ true → trim_left (keep c s) ≡ trim_left s
unfolding trim_left
keep_space c [] h = ground arith
keep_space c (d ∷ s) h = ground arith

keep_other : (c : ℕ) (s : Bytes) → is_space c ≡ false → keep c s ≡ c ∷ s
keep_other c [] h = ground arith
keep_other c (d ∷ s) h = refl

pub trim_left-trim_right : (s : Bytes) → trim_left (trim_right s) ≡ trim_right (trim_left s)
unfolding trim_left trim_right
trim_left-trim_right [] = refl
trim_left-trim_right (c ∷ s) = elim (Bool-cases (is_space c)) [
  | inl sp ↦ keep_space c (trim_right s) sp ∙ trim_left-trim_right s ∙ rw sp
  | inr other ↦
      ap trim_left (keep_other c (trim_right s) other)
      ∙ rw other (sym (keep_other c (trim_right s) other))
]

keep-trim_right : (c : ℕ) (s : Bytes) → trim_right (keep c s) ≡ keep c (trim_right s)
unfolding trim_right
keep-trim_right c [] = ground arith
keep-trim_right c (d ∷ s) = refl

trim_right-trim_right : (s : Bytes) → trim_right (trim_right s) ≡ trim_right s
unfolding trim_right
trim_right-trim_right [] = refl
trim_right-trim_right (c ∷ s) =
    keep-trim_right c (trim_right s) ∙ ap (keep c) (trim_right-trim_right s)

-- A space in front and spaces cut from the end make no difference to TrimSpace.
pub trim_space-trim_right : (s : Bytes) → trim_space (trim_right s) ≡ trim_space s
unfolding trim_space
trim_space-trim_right s =
    ap trim_right (trim_left-trim_right s) ∙ trim_right-trim_right (trim_left s)

-- The newline of a line makes no difference to it.
trim_right-newline : (s : Bytes) → trim_right (s ++ 10 ∷ []) ≡ trim_right s
unfolding trim_right
trim_right-newline [] = refl
trim_right-newline (c ∷ s) = ap (keep c) (trim_right-newline s)

-- A byte that is no space keeps all that stands before it.
trim_right-append :
    (p : Bytes) (c : ℕ) (s : Bytes)
    → is_space c ≡ false
    → trim_right (p ++ c ∷ s) ≡ p ++ c ∷ trim_right s
unfolding trim_right
trim_right-append [] c s other = keep_other c (trim_right s) other
trim_right-append (x ∷ []) c s other = ap (keep x) (trim_right-append [] c s other)
trim_right-append (x ∷ y ∷ p) c s other = ap (keep x) (trim_right-append (y ∷ p) c s other)

-- A line that starts with a field name: `x` and `c` are its first and last byte.
pub trim_space-field :
    (x : ℕ) (p : Bytes) (c : ℕ) (s : Bytes)
    → is_space x ≡ false
    → is_space c ≡ false
    → trim_space (x ∷ p ++ (c ∷ s ++ 10 ∷ [])) ≡ x ∷ p ++ c ∷ trim_right s
unfolding trim_space trim_left
trim_space-field x p c s first last = rw first (
    trim_right-append (x ∷ p) c (s ++ 10 ∷ []) last
    ∙ ap (λ r. x ∷ p ++ c ∷ r) (trim_right-newline s))
