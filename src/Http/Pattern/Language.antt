-- ===== src/Http/Pattern/Language.antt =====
-- The texts that the tokens of a pattern describe, as a relation, and the match of PatternFilter. The
-- match of regexp takes the first way that works, the longest runs first, and Match then compares
-- what was matched with the whole path.
use magic_engine.Common.{
  ℕ, ◌≤◌, ◌≡◌, refl, ap, subst, ◌≢◌, ◌↔◌, inl, inr, Bool, true, Option, none, some, List, [], ◌∷◌,
  arith, ◌==◌, Bool-cases, length, Bytes,
}
use magic_engine.Http.Pattern.Runs.{
  Suffix, same, later, Run, Suffix_trans, length-Suffix, Run-Suffix, Run-split, Taken,
  longest-Taken, longest-some,
}
use magic_engine.Http.Pattern.{
  Token, lit, any, param, wild, tokens, segment_byte, wild_byte, optional_slash, find, whole, match,
}

-- The tokens, and the optional slash behind them, describe the part of the first text before the
-- second.
pub data Describes : List Token → Bytes → Bytes → Type 0 where
  end : {s : Bytes} → Describes [] s s
  slash : {s : Bytes} → Describes [] (b'/' ∷ s) s
  literal :
      {c : ℕ} {ts : List Token} {s r : Bytes} → Describes ts s r → Describes (lit c ∷ ts) (c ∷ s) r
  dot :
      {c : ℕ} {ts : List Token} {s r : Bytes}
      → c ≢ 10
      → Describes ts s r
      → Describes (any ∷ ts) (c ∷ s) r
  segment :
      {c : ℕ} {n : Bytes} {ts : List Token} {s t r : Bytes}
      → segment_byte c ≡ true
      → Run segment_byte s t
      → Describes ts t r
      → Describes (param n ∷ ts) (c ∷ s) r
  rest :
      {ts : List Token} {s t r : Bytes}
      → Run wild_byte s t
      → Describes ts t r
      → Describes (wild ∷ ts) s r

-- What a pattern describes is found.
find-Describes :
    {ts : List Token} {s r : Bytes} → Describes ts s r → (x : Bytes) × (find ts s ≡ some x)
unfolding find
find-Describes end = (_, refl)
find-Describes slash = (_, refl)
find-Describes (literal h) = let (x, e) = find-Describes h in (x, ground arith)
find-Describes (dot q h) = let (x, e) = find-Describes h in (x, ground arith)
find-Describes (segment {ts} {s} {t} q run h) =
    let (x, e) = find-Describes h in
    let (r, f) = longest-some (find ts) segment_byte s t x run e in (r, ground arith)
find-Describes (rest {ts} {s} {t} run h) =
    let (x, e) = find-Describes h in longest-some (find ts) wild_byte s t x run e

Suffix_step : {s t : Bytes} {c : ℕ} → Suffix s (c ∷ t) → Suffix s t
Suffix_step same = later same
Suffix_step (later h) = later (Suffix_step h)

Suffix_tail : {s t : Bytes} {c d : ℕ} → Suffix (c ∷ s) (d ∷ t) → Suffix s t
Suffix_tail same = same
Suffix_tail (later h) = Suffix_step h

length-optional_slash : (s : Bytes) → length (optional_slash s) ≤ length s
length-optional_slash [] = omega arith
length-optional_slash (c ∷ s) = ground arith

length-slash : {r t : Bytes} → Suffix (b'/' ∷ r) t → length (optional_slash t) ≤ length r
length-slash same = omega arith
length-slash {t} (later h) = omega (arith, length-optional_slash t, length-Suffix h)

module _ {p : ℕ → Bool} {ts : List Token} {s t u r x : Bytes} where
  -- A run from an earlier place to an end that works stops no later than the one that was taken.
  stops-Suffix :
      (k : Taken (find ts) p u x) → Suffix s u → Run p s t → Describes ts t r → Suffix t k.stops
  stops-Suffix k behind run h = elim (Run-split behind run) [
    | inl before ↦ Suffix_trans before (Run-Suffix k.run)
    | inr on ↦ let (y, e) = find-Describes h in k.farthest t y on e
  ]

-- Greedy matching loses nothing: from a place where some way leads to `r`, or from any later place,
-- the way that `find` takes leaves no more than `r` has.
find-length-le :
    {ts : List Token} {s r : Bytes}
    → Describes ts s r
    → (t x : Bytes) → Suffix s t
    → find ts t ≡ some x
    → length x ≤ length r
unfolding find
find-length-le end t x b e =
    let found : optional_slash t ≡ x = cc in
    omega (arith, length-optional_slash t, length-Suffix b, ap (λ y. length y) found)
find-length-le slash t x b e =
    let found : optional_slash t ≡ x = cc in rw (← found) (length-slash b)
find-length-le (literal h) [] x b e = cc
find-length-le (literal h) (y ∷ t) x b e = find-length-le h t x (Suffix_tail b) (ground arith)
find-length-le (dot q h) [] x b e = cc
find-length-le (dot q h) (y ∷ t) x b e = find-length-le h t x (Suffix_tail b) (ground arith)
find-length-le (segment q run h) [] x b e = cc
find-length-le (segment {ts} q run h) (y ∷ t) x b e =
    let k = longest-Taken (find ts) segment_byte t x (ground arith) in
    find-length-le h k.stops x (stops-Suffix k (Suffix_tail b) run h) k.goes_on
find-length-le (rest {ts} run h) t x b e =
    let k = longest-Taken (find ts) wild_byte t x e in
    find-length-le h k.stops x (stops-Suffix k b run h) k.goes_on

optional_slash-Describes : (s : Bytes) → Describes [] s (optional_slash s)
optional_slash-Describes [] = end
optional_slash-Describes (c ∷ s) = elim (Bool-cases (c == b'/')) [
  | inl at ↦
      let here : b'/' ≡ c = ground arith in rw at (subst (λ d. Describes [] (d ∷ s) s) here slash)
  | inr off ↦ rw off end
]

-- What is found, the pattern describes.
Describes-find : (ts : List Token) (s x : Bytes) → find ts s ≡ some x → Describes ts s x
unfolding find
Describes-find [] s x e =
    let found : optional_slash s ≡ x = cc in
    subst (Describes [] s) found (optional_slash-Describes s)
Describes-find (lit c ∷ ts) [] x e = cc
Describes-find (lit c ∷ ts) (d ∷ s) x e =
    let here : c ≡ d = ground arith in
    subst (λ b. Describes (lit c ∷ ts) (b ∷ s) x) here
      (literal (Describes-find ts s x (ground arith)))
Describes-find (any ∷ ts) [] x e = cc
Describes-find (any ∷ ts) (d ∷ s) x e =
    dot (λ n. ground arith) (Describes-find ts s x (ground arith))
Describes-find (param n ∷ ts) [] x e = cc
Describes-find (param n ∷ ts) (d ∷ s) x e =
    let k = longest-Taken (find ts) segment_byte s x (ground arith) in
    segment (ground arith) k.run (Describes-find ts k.stops x k.goes_on)
Describes-find (wild ∷ ts) s x e =
    let k = longest-Taken (find ts) wild_byte s x e in
    rest k.run (Describes-find ts k.stops x k.goes_on)

some_of_whole : (r : Option Bytes) → whole r ≡ true → r ≡ some []
some_of_whole none e = cc
some_of_whole (some []) e = refl
some_of_whole (some (c ∷ s)) e = cc

nil_of_length : (s : Bytes) → length s ≤ 0 → s ≡ []
nil_of_length [] h = refl
nil_of_length (c ∷ s) h = absurd (omega arith)

-- PatternFilter.Match takes a path exactly when the tokens of the pattern describe the whole of it, in
-- whatever way: literals byte by byte, a dot as any byte but the newline, a `:name` as one or more
-- bytes other than `/`, `#` and `?`, a `**` as any number of bytes other than `#` and `?`, and one
-- slash or none at the end.
pub match_iff :
    (ts : List Token) (path : Bytes) → (match (tokens ts) path ≡ true) ↔ Describes ts path []
unfolding match
match_iff ts path = (
  λ e. Describes-find ts path [] (some_of_whole (find ts path) e),
  λ d.
      let (x, e) = find-Describes d in
      let empty = nil_of_length x (find-length-le d path x same e) in rw (e, empty) refl,
)
