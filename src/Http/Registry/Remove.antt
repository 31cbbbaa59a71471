-- ===== src/Http/Registry/Remove.antt =====
-- RemoveRoute and RemoveHandler: what the loop of removeRouteImpl leaves, and ExistHandler after it.
use magic_engine.Common.{
  ℕ, zero, suc, ◌+◌, ◌≤◌, ◌≡◌, refl, sym, ap, ap₂, ◌∙◌, inl, inr, true, false, not, ◌&&◌, List, [],
  ◌∷◌, ◌++◌, append_assoc, arith, ltb, if◌then◌else◌, Bool-cases, length, take, drop, length-append,
  Bytes, bytes_eq, bytes_eq→eq, bytes_eq_refl,
}
use native.Mathlib.Numerals.{add-one}
use magic_engine.Http.Registry.{
  RouteItem, equal_pattern, find_route, is_some, remove_loop, remove_item,
}

module _ {C : Type 0} where
  -- The slice without its first item of a version and pattern.
  abbrev pub remove_first : List (RouteItem C) → Bytes → Bytes → List (RouteItem C)
  remove_first [] version pattern = []
  remove_first (val ∷ vals) version pattern =
      if equal_pattern val version pattern then vals else val ∷ remove_first vals version pattern

  -- No two items of a slice have one version and pattern.
  abbrev pub Unique : List (RouteItem C) → Type 0
  Unique [] = Unit
  Unique (val ∷ vals) =
      (is_some (find_route vals val.version_prefix val.route.pattern) ≡ false) × Unique vals

  take-length : (xs ys : List (RouteItem C)) → take (length xs) (xs ++ ys) ≡ xs
  take-length [] ys = refl
  take-length (x ∷ xs) ys = ap (λ r. x ∷ r) (take-length xs ys)

  drop-suc-length :
      (xs : List (RouteItem C)) (y : RouteItem C) (ys : List (RouteItem C))
      → drop (suc (length xs)) (xs ++ y ∷ ys) ≡ ys
  drop-suc-length [] y ys = refl
  drop-suc-length (x ∷ xs) y ys = drop-suc-length xs y ys

  drop-eq-nil : (n : ℕ) (xs : List (RouteItem C)) → length xs ≤ n → drop n xs ≡ []
  drop-eq-nil zero [] h = refl
  drop-eq-nil zero (x ∷ xs) h = absurd (omega arith)
  drop-eq-nil (suc n) [] h = refl
  drop-eq-nil (suc n) (x ∷ xs) h = drop-eq-nil n xs (omega arith)

  -- The guards of the two appends only spare empty slices.
  guarded_take :
      (xs ys : List (RouteItem C))
      → (if ltb 0 (length xs) then take (length xs) ys else []) ≡ take (length xs) ys
  guarded_take [] ys = refl
  guarded_take (x ∷ xs) ys = ground arith

  guarded_drop :
      (n : ℕ) (xs : List (RouteItem C)) → (if ltb n (length xs) then drop n xs else []) ≡ drop n xs
  guarded_drop n xs = ground (arith, drop-eq-nil n xs)

  -- `newRoutes` after a match behind `pre`
  cut_lem :
      (pre : List (RouteItem C)) (val : RouteItem C) (vals : List (RouteItem C))
      → (if ltb 0 (length pre) then take (length pre) (pre ++ val ∷ vals) else [])
          ++ (if ltb (length pre + 1) (length (pre ++ val ∷ vals))
              then drop (length pre + 1) (pre ++ val ∷ vals)
              else [])
        ≡ pre ++ vals
  cut_lem pre val vals =
      ap₂ ◌++◌ (guarded_take pre (pre ++ val ∷ vals) ∙ take-length pre (val ∷ vals)) (
        guarded_drop (length pre + 1) (pre ++ val ∷ vals)
        ∙ rw add-one (drop-suc-length pre val vals))

  remove_loop_lem :
      (slice pre vals : List (RouteItem C)) (idx : ℕ) (version pattern : Bytes)
      → slice ≡ pre ++ vals
      → idx ≡ length pre
      → remove_loop slice idx vals version pattern ≡ (
          if is_some (find_route vals version pattern)
          then pre ++ remove_first vals version pattern
          else [])
  unfolding remove_loop find_route
  remove_loop_lem slice pre [] idx version pattern e i = refl
  remove_loop_lem slice pre (val ∷ vals) idx version pattern e i =
      elim (Bool-cases (equal_pattern val version pattern)) [
        | inl same ↦ rw (same, e, i) (cut_lem pre val vals)
        | inr other ↦ rw other (
            remove_loop_lem slice (pre ++ val ∷ []) vals (idx + 1) version pattern
              (e ∙ sym (append_assoc pre (val ∷ []) vals))
              (omega (arith, length-append pre (val ∷ [])))
            ∙ rw append_assoc)
      ]

  -- With a match the first matching item is cut out and the rest keeps its order; without one the
  -- loop leaves nothing of the slice.
  pub remove_item_lem :
      (slice : List (RouteItem C)) (version pattern : Bytes)
      → remove_item slice version pattern ≡ (
          if is_some (find_route slice version pattern)
          then remove_first slice version pattern
          else [])
  unfolding remove_item
  remove_item_lem slice version pattern = remove_loop_lem slice [] slice 0 version pattern refl refl

  -- Two items with one key are found by the same searches.
  find_route-eq :
      (vals : List (RouteItem C)) (version pattern v p : Bytes)
      → (bytes_eq version v && bytes_eq pattern p) ≡ true
      → find_route vals version pattern ≡ find_route vals v p
  find_route-eq vals version pattern v p h =
      ground (arith, bytes_eq→eq version v, bytes_eq→eq pattern p)

  -- In a slice of unique items, the search after the cut fails for the removed key and is as
  -- before for every other.
  pub find_route-remove_first :
      (slice : List (RouteItem C)) (version pattern v p : Bytes)
      → Unique slice
      → is_some (find_route (remove_first slice version pattern) v p)
        ≡ (is_some (find_route slice v p) && not (bytes_eq version v && bytes_eq pattern p))
  unfolding find_route equal_pattern
  find_route-remove_first [] version pattern v p u = refl
  find_route-remove_first (val ∷ vals) version pattern v p (fresh, u) = ground (
    arith,
    find_route-remove_first vals version pattern v p,
    bytes_eq→eq val.version_prefix version,
    bytes_eq→eq val.route.pattern pattern,
    bytes_eq→eq val.version_prefix v,
    bytes_eq→eq val.route.pattern p,
    bytes_eq→eq version v,
    bytes_eq→eq pattern p,
    bytes_eq_refl v,
    bytes_eq_refl p,
  )
