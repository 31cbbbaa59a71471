-- ===== src/Common/Maps.antt =====
-- Go maps with string keys as association lists: one entry for each key that was ever assigned.
use mathlib.Core.Path.{◌≡◌, refl}
use mathlib.Core.Option.{Option, none, some}
use mathlib.Core.List.{List, [], ◌∷◌}
use native.Mathlib.Omega.{arith}
use magic_engine.Common.Tests.{if◌then◌else◌}
use magic_engine.Common.Text.{Bytes, bytes_eq, bytes_eq_iff, bytes_eq_sym}

module _ {V : Type 0} where
  -- m[key]
  unfoldable pub lookup : Bytes → List (Bytes × V) → Option V
  lookup key [] = none
  lookup key ((k, v) ∷ m) = if bytes_eq k key then some v else lookup key m

  -- m[key] = v
  unfoldable pub assign : Bytes → V → List (Bytes × V) → List (Bytes × V)
  assign key v [] = (key, v) ∷ []
  assign key v ((k, w) ∷ m) = if bytes_eq k key then (k, v) ∷ m else (k, w) ∷ assign key v m

  -- delete(m, key)
  unfoldable pub delete : Bytes → List (Bytes × V) → List (Bytes × V)
  delete key [] = []
  delete key ((k, v) ∷ m) =
      let rest = delete key m in if bytes_eq k key then rest else (k, v) ∷ rest

  pub lookup-assign :
      (k j : Bytes) (v : V) (m : List (Bytes × V))
      → lookup j (assign k v m) ≡ (if bytes_eq k j then some v else lookup j m)
  unfolding lookup assign
  lookup-assign k j v [] = refl
  lookup-assign k j v ((i, w) ∷ m) = ground (
    arith,
    bytes_eq_iff k j,
    bytes_eq_iff i k,
    bytes_eq_iff i j,
    bytes_eq_sym i k,
    lookup-assign k j v m,
  )

  pub lookup-delete :
      (k j : Bytes) (m : List (Bytes × V))
      → lookup j (delete k m) ≡ (if bytes_eq k j then none else lookup j m)
  unfolding lookup delete
  lookup-delete k j [] = ground arith
  lookup-delete k j ((i, w) ∷ m) = ground (
    arith,
    bytes_eq_iff k j,
    bytes_eq_iff i k,
    bytes_eq_iff i j,
    bytes_eq_sym i k,
    lookup-delete k j m,
  )
