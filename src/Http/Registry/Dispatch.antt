-- ===== src/Http/Registry/Dispatch.antt =====
-- The choice of the route in RouteRegistry.Handle.
use magic_engine.Common.{
  ℕ, ◌≡◌, refl, ap, ap₂, ◌↔◌, inl, inr, true, false, none, some, List, [], ◌∷◌, ◌++◌, arith,
  Bool-cases, All, Bytes, upper, to_upper,
}
use magic_engine.NetHttp.{Request}
use magic_engine.Http.Pattern.{Regexp, new_pattern_filter, match}
use magic_engine.Http.Registry.{RouteItem, Registry, lookup, first_match, slice_of, select}
use magic_engine.Http.Registry.Valid.{GoodItem, Reach, Reach-IsValid}

module _ {C : Type 0} where
  -- `item` stands in the slice, matches the path, and no item before it does.
  pub record IsFirst (slice : List (RouteItem C)) (path : Bytes) (item : RouteItem C) : Type 0 where
    pub before : List (RouteItem C)
    pub behind : List (RouteItem C)
    pub placed : slice ≡ before ++ item ∷ behind
    pub skipped : All (λ it. match it.pattern_filter path ≡ false) before
    pub matched : match item.pattern_filter path ≡ true

  IsFirst-cons :
      (val : RouteItem C) (vals : List (RouteItem C)) (path : Bytes) (item : RouteItem C)
      → match val.pattern_filter path ≡ false
      → IsFirst vals path item
      → IsFirst (val ∷ vals) path item
  IsFirst-cons val vals path item e f = record {
    before = val ∷ f.before;
    behind = f.behind;
    placed = ap (λ r. val ∷ r) f.placed;
    skipped = (e, f.skipped);
    matched = f.matched;
  }

  first_match-IsFirst :
      (slice : List (RouteItem C)) (path : Bytes) (item : RouteItem C)
      → first_match slice path ≡ some item
      → IsFirst slice path item
  unfolding first_match
  first_match-IsFirst [] path item h = cc
  first_match-IsFirst (val ∷ vals) path item h = elim (Bool-cases (match val.pattern_filter path)) [
    | inl yes_ ↦
        let same : val ≡ item = ground arith in
        record {
          before = [];
          behind = vals;
          placed = ap (λ v. v ∷ vals) same;
          skipped = tt;
          matched = ground arith;
        }
    | inr no_ ↦
        IsFirst-cons val vals path item no_ (first_match-IsFirst vals path item (ground arith))
  ]

  pub first_match-none_iff :
      (slice : List (RouteItem C)) (path : Bytes)
      → (first_match slice path ≡ none) ↔ All (λ it. match it.pattern_filter path ≡ false) slice
  unfolding first_match
  first_match-none_iff [] path = (λ e. tt, λ h. refl)
  first_match-none_iff (val ∷ vals) path = ground (arith, first_match-none_iff vals path)

  All-middle :
      (P : RouteItem C → Type 0) (xs : List (RouteItem C)) (y : RouteItem C)
      (ys : List (RouteItem C))
      → All P (xs ++ y ∷ ys)
      → P y
  All-middle P [] y ys (p, h) = p
  All-middle P (x ∷ xs) y ys (p, h) = All-middle P xs y ys h

module _ {C : Type 0} (regexp : Regexp) where
  -- In a registry that the operations reach, Handle chooses the first registered item of the
  -- request's upper-case method whose filter, the one of its version and pattern, matches the path.
  pub select-IsFirst :
      (reg : Registry C) (req : Request) (item : RouteItem C)
      → Reach regexp reg
      → select reg req ≡ some item
      → IsFirst (slice_of (lookup (to_upper req.method) reg.routes)) req.path item
        × (item.route.method ≡ to_upper req.method)
        × (new_pattern_filter regexp (item.version_prefix ++ item.route.pattern)
            ≡ some item.pattern_filter)
  unfolding select
  select-IsFirst reg req item r h =
      let f =
        first_match-IsFirst (slice_of (lookup (to_upper req.method) reg.routes)) req.path item h in
      let (u, g) = (Reach-IsValid regexp r).at (to_upper req.method) in
      let (m, c) =
        All-middle (GoodItem regexp (to_upper req.method)) f.before item f.behind
          (rw f.placed at g) in
      (f, m, c)

upper_idem : (c : ℕ) → upper (upper c) ≡ upper c
upper_idem c = ground arith

to_upper_idem : (s : Bytes) → to_upper (to_upper s) ≡ to_upper s
unfolding to_upper
to_upper_idem [] = refl
to_upper_idem (c ∷ s) = ap₂ ◌∷◌ (upper_idem c) (to_upper_idem s)

-- A route that was registered under a method with a lower-case letter is never chosen.
pub select-upper :
    {C : Type 0} (regexp : Regexp) (reg : Registry C) (req : Request) (item : RouteItem C)
    → Reach regexp reg
    → select reg req ≡ some item
    → to_upper item.route.method ≡ item.route.method
select-upper regexp reg req item r h =
    let (f, m, c) = select-IsFirst regexp reg req item r h in rw m (to_upper_idem req.method)
