-- ===== src/Http/Pattern/Runs.antt =====
-- The runs of bytes that the match of a pattern takes, the longest that works first.
use magic_engine.Common.{
  ℕ, ◌≤◌, ◌≡◌, ◌⊎◌, inl, inr, Bool, true, false, Option, none, some, [], ◌∷◌, arith, Bool-cases,
  Option-cases, length, Bytes,
}
use magic_engine.Http.Pattern.{longest}

-- The second text begins later in the first.
pub data Suffix : Bytes → Bytes → Type 0 where
  same : {s : Bytes} → Suffix s s
  later : {c : ℕ} {s t : Bytes} → Suffix s t → Suffix (c ∷ s) t

-- Bytes of a class lead from the first text to the second.
pub data Run (p : ℕ → Bool) : Bytes → Bytes → Type 0 where
  stop : {s : Bytes} → Run p s s
  step : {c : ℕ} {s t : Bytes} → p c ≡ true → Run p s t → Run p (c ∷ s) t

pub Suffix_trans : {s t u : Bytes} → Suffix s t → Suffix t u → Suffix s u
Suffix_trans same k = k
Suffix_trans (later h) k = later (Suffix_trans h k)

pub length-Suffix : {s t : Bytes} → Suffix s t → length t ≤ length s
length-Suffix same = omega arith
length-Suffix (later h) = omega (arith, length-Suffix h)

pub Run-Suffix : {p : ℕ → Bool} {s t : Bytes} → Run p s t → Suffix s t
Run-Suffix stop = same
Run-Suffix (step e h) = later (Run-Suffix h)

-- A run, seen from a place behind its start: it ends before that place, or goes on from there.
pub Run-split : {p : ℕ → Bool} {s t u : Bytes} → Suffix s t → Run p s u → Suffix u t ⊎ Run p t u
Run-split same h = inr h
Run-split (later k) stop = inl (later k)
Run-split (later k) (step e h) = Run-split k h

module _ (follow : Bytes → Option Bytes) (p : ℕ → Bool) where
  pub longest-none : (s t : Bytes) → longest follow p s ≡ none → Run p s t → follow t ≡ none
  unfolding longest
  longest-none [] t e stop = e
  longest-none (c ∷ s) t e stop = ground arith
  longest-none (c ∷ s) t e (step q h) = longest-none s t (ground arith) h

  -- The end of the run that `longest` takes, which no other end that works lies behind.
  pub record Taken (s r : Bytes) : Type 0 where
    pub stops : Bytes
    pub run : Run p s stops
    pub goes_on : follow stops ≡ some r
    pub farthest : (t x : Bytes) → Run p s t → follow t ≡ some x → Suffix t stops

  Taken-here :
      (s r : Bytes)
      → follow s ≡ some r
      → ((t x : Bytes) → Run p s t → follow t ≡ some x → Suffix t s)
      → Taken s r
  Taken-here s r f far = record { stops = s; run = stop; goes_on = f; farthest = far }

  Taken-later : (c : ℕ) (s r : Bytes) → p c ≡ true → Taken s r → Taken (c ∷ s) r
  Taken-later c s r q k = record {
    stops = k.stops;
    run = step q k.run;
    goes_on = k.goes_on;
    farthest = far;
  }
    where
      far : (t x : Bytes) → Run p (c ∷ s) t → follow t ≡ some x → Suffix t k.stops
      far t x stop f = later (Run-Suffix k.run)
      far t x (step e h) f = k.farthest t x h f

  only_here : {c : ℕ} {s t : Bytes} → p c ≡ false → Run p (c ∷ s) t → Suffix t (c ∷ s)
  only_here q stop = same
  only_here q (step e h) = absurd cc

  nothing_left : {t : Bytes} → Run p [] t → Suffix t []
  nothing_left stop = same

  farthest_here :
      (c : ℕ) (s : Bytes)
      → longest follow p s ≡ none
      → (t x : Bytes) → Run p (c ∷ s) t
      → follow t ≡ some x
      → Suffix t (c ∷ s)
  farthest_here c s missing t x stop f = same
  farthest_here c s missing t x (step q h) f = let gone = longest-none s t missing h in absurd cc

  pub longest-Taken : (s r : Bytes) → longest follow p s ≡ some r → Taken s r
  unfolding longest
  longest-Taken [] r e = Taken-here [] r e (λ t x h f. nothing_left h)
  longest-Taken (c ∷ s) r e = elim (Bool-cases (p c)) [
    | inr off ↦ Taken-here (c ∷ s) r (ground arith) (λ t x h f. only_here off h)
    | inl on ↦ elim (Option-cases (longest follow p s)) [
      | inr (x, found) ↦ Taken-later c s r on (longest-Taken s r (ground arith))
      | inl missing ↦ Taken-here (c ∷ s) r (ground arith) (farthest_here c s missing)
    ]
  ]

  pub longest-some :
      (s t x : Bytes) → Run p s t → follow t ≡ some x → (r : Bytes) × (longest follow p s ≡ some r)
  longest-some s t x h e = elim (Option-cases (longest follow p s)) [
    | inl missing ↦ let gone = longest-none s t missing h in absurd cc
    | inr (r, found) ↦ (r, found)
  ]
