-- ===== src/Common/Family.antt =====
-- Functions on the numbers, changed at one of them.
use mathlib.Core.Path.{◌≡◌, refl}
use mathlib.Core.Logic.{◌≢◌, ◌⊎◌, inl, inr}
use Prim.Native.Nat.{ℕ}
use magic_engine.Common.Tests.{◌==◌, if◌then◌else◌, ==_iff, Bool-cases}

-- The family with another value at one number
unfoldable pub set_at {ℓ} : {A : Type ℓ} → (ℕ → A) → ℕ → A → ℕ → A
set_at f i x j = if i == j then x else f j

pub set_at-same {ℓ} : {A : Type ℓ} (f : ℕ → A) (i : ℕ) (x : A) → set_at f i x i ≡ x
unfolding set_at
set_at-same f i x = rw ((==_iff i i).1 refl) refl

pub set_at-other {ℓ} : {A : Type ℓ} (f : ℕ → A) (i j : ℕ) (x : A) → i ≢ j → set_at f i x j ≡ f j
unfolding set_at
set_at-other f i j x n = elim (Bool-cases (i == j)) [
  | inl e ↦ absurd (n ((==_iff i j).0 e))
  | inr e ↦ rw e refl
]

pub set_at-cases {ℓ} :
    {A : Type ℓ} (f : ℕ → A) (i : ℕ) (x : A) (j : ℕ)
    → ((i ≡ j) × (set_at f i x j ≡ x)) ⊎ ((i ≢ j) × (set_at f i x j ≡ f j))
unfolding set_at
set_at-cases f i x j = elim (Bool-cases (i == j)) [
  | inl e ↦ inl ((==_iff i j).0 e, rw e refl)
  | inr e ↦ inr ((λ same. let t = (==_iff i j).1 same in absurd cc), rw e refl)
]
