-- ===== src/Http/Registry/Valid.antt =====
-- The invariant of the registry, and the operations on it as steps: what the users of a
-- RouteRegistry can do between two requests, in any order, panics included.
use magic_engine.Common.{
  ◌≡◌, refl, inl, inr, false, some, List, [], ◌∷◌, ◌++◌, arith, Bool-cases, Option-cases, All,
  All-append, Bytes, bytes_eq, bytes_eq→eq, bytes_eq_sym,
}
use magic_engine.Http.Middleware.{Middleware}
use magic_engine.Http.Pattern.{Regexp, PatternFilter, new_pattern_filter}
use magic_engine.Http.Registry.{
  Route, RouteItem, Registry, lookup, assign, equal_pattern, find_route, is_some, exist_handler,
  set_api_version, remove_item, remove_from, remove_handler, slice_of, item_of, store_item,
  add_route, new_registry,
}
use magic_engine.Http.Registry.Lookup.{lookup-assign, is_some-find_route-append}
use magic_engine.Http.Registry.Exists.{found_in-slice_of, add_route_split}
use magic_engine.Http.Registry.Remove.{
  remove_first, Unique, remove_item_lem, find_route-remove_first,
}

module _ {C : Type 0} where
  Unique-append :
      (xs : List (RouteItem C)) (y : RouteItem C)
      → Unique xs
      → is_some (find_route xs y.version_prefix y.route.pattern) ≡ false
      → Unique (xs ++ y ∷ [])
  unfolding find_route equal_pattern
  Unique-append [] y u h = (refl, tt)
  Unique-append (x ∷ xs) y (fresh, u) h = (
    ground (
      arith,
      is_some-find_route-append xs y x.version_prefix x.route.pattern,
      bytes_eq_sym x.version_prefix y.version_prefix,
      bytes_eq_sym x.route.pattern y.route.pattern,
    ),
    Unique-append xs y u (ground arith),
  )

  remove_first-Unique :
      (xs : List (RouteItem C)) (version pattern : Bytes)
      → Unique xs
      → Unique (remove_first xs version pattern)
  remove_first-Unique [] version pattern u = tt
  remove_first-Unique (x ∷ xs) version pattern (fresh, u) = ground (
    arith,
    remove_first-Unique xs version pattern u,
    find_route-remove_first xs version pattern x.version_prefix x.route.pattern u,
  )

  remove_first-All :
      (P : RouteItem C → Type 0) (xs : List (RouteItem C)) (version pattern : Bytes)
      → All P xs
      → All P (remove_first xs version pattern)
  remove_first-All P [] version pattern h = tt
  remove_first-All P (x ∷ xs) version pattern (p, h) =
      ground (arith, remove_first-All P xs version pattern h)

module _ {C : Type 0} (regexp : Regexp) where
  -- The item stands under its method, with the filter of its versioned pattern.
  abbrev pub GoodItem : Bytes → RouteItem C → Type 0
  GoodItem method item =
      (item.route.method ≡ method)
      × (new_pattern_filter regexp (item.version_prefix ++ item.route.pattern)
          ≡ some item.pattern_filter)

  abbrev pub GoodSlice : Bytes → List (RouteItem C) → Type 0
  GoodSlice method slice = Unique slice × All (GoodItem method) slice

  pub record IsValid (reg : Registry C) : Type 0 where
    pub at : (method : Bytes) → GoodSlice method (slice_of (lookup method reg.routes))

  -- A step of the registry's users.
  pub data Step : Registry C → Registry C → Type 0 where
    versioned : (reg : Registry C) (version : Bytes) → Step reg (set_api_version version reg)
    added :
        (reg : Registry C) (rt : Route C) (filters : List (Middleware C))
        → Step reg (add_route regexp rt filters reg).1
    removed :
        (reg : Registry C) (pattern method : Bytes) → Step reg (remove_handler pattern method reg).1

  pub data Reach : Registry C → Type 0 where
    start : Reach new_registry
    after : {reg reg' : Registry C} → Reach reg → Step reg reg' → Reach reg'

  GoodSlice-assign :
      (reg : Registry C) (key method : Bytes) (slice : List (RouteItem C))
      → IsValid reg
      → GoodSlice key slice
      → GoodSlice method (slice_of (lookup method (assign key slice reg.routes)))
  GoodSlice-assign reg key method slice v g = elim (Bool-cases (bytes_eq key method)) [
    | inl same ↦ rw (lookup-assign, same) (rw (← bytes_eq→eq key method same) g)
    | inr other ↦ rw (lookup-assign, other) (v.at method)
  ]

  GoodSlice-append :
      (reg : Registry C) (rt : Route C) (filters : List (Middleware C)) (filter : PatternFilter)
      → IsValid reg
      → exist_handler rt.pattern rt.method reg ≡ false
      → new_pattern_filter regexp (reg.current_api_version ++ rt.pattern) ≡ some filter
      → GoodSlice rt.method (
          slice_of (lookup rt.method reg.routes)
          ++ item_of reg.current_api_version rt filters filter ∷ [])
  unfolding item_of exist_handler
  GoodSlice-append reg rt filters filter v fresh good =
      let (u, g) = v.at rt.method in
      let slice = slice_of (lookup rt.method reg.routes) in
      (
        Unique-append slice (item_of reg.current_api_version rt filters filter) u (
            ground (
              arith,
              found_in-slice_of (lookup rt.method reg.routes) reg.current_api_version rt.pattern,
            )),
        All-append (GoodItem rt.method) slice _ g ((refl, good), tt),
      )

  store_item-IsValid :
      (rt : Route C) (filters : List (Middleware C)) (reg : Registry C)
      → IsValid reg
      → exist_handler rt.pattern rt.method reg ≡ false
      → IsValid (store_item regexp (slice_of (lookup rt.method reg.routes)) rt filters reg).1
  unfolding store_item
  store_item-IsValid rt filters reg v fresh =
      elim (Option-cases (new_pattern_filter regexp (reg.current_api_version ++ rt.pattern))) [
        | inl bad ↦ rw bad v
        | inr (filter, good) ↦ rw good (record {
          at = λ method.
              GoodSlice-assign reg rt.method method _ v
                (GoodSlice-append reg rt filters filter v fresh good);
        })
      ]

  pub add_route-IsValid :
      (rt : Route C) (filters : List (Middleware C)) (reg : Registry C)
      → IsValid reg
      → IsValid (add_route regexp rt filters reg).1
  add_route-IsValid rt filters reg v = elim (Bool-cases (exist_handler rt.pattern rt.method reg)) [
    | inl dup ↦ rw (add_route_split, dup) v
    | inr fresh ↦ rw (add_route_split, fresh) (store_item-IsValid rt filters reg v fresh)
  ]

  remove_item-GoodSlice :
      (slice : List (RouteItem C)) (method version pattern : Bytes)
      → GoodSlice method slice
      → GoodSlice method (remove_item slice version pattern)
  remove_item-GoodSlice slice method version pattern (u, g) =
      elim (Bool-cases (is_some (find_route slice version pattern))) [
        | inl found ↦
            rw (remove_item_lem, found)
              (
                remove_first-Unique slice version pattern u,
                remove_first-All (GoodItem method) slice version pattern g,
              )
        | inr missing ↦ rw (remove_item_lem, missing) (tt, tt)
      ]

  pub remove_handler-IsValid :
      (pattern method : Bytes) (reg : Registry C)
      → IsValid reg
      → IsValid (remove_handler pattern method reg).1
  unfolding remove_handler remove_from
  remove_handler-IsValid pattern method reg v = elim (Option-cases (lookup method reg.routes)) [
    | inl missing ↦ rw missing v
    | inr (slice, found) ↦ rw found (record {
      at = λ m. GoodSlice-assign reg method m _ v (
          remove_item-GoodSlice slice method reg.current_api_version pattern
            (rw found at (v.at method)));
    })
  ]

  Step-IsValid : {reg reg' : Registry C} → Step reg reg' → IsValid reg → IsValid reg'
  unfolding set_api_version
  Step-IsValid (versioned reg version) v = record { at = v.at }
  Step-IsValid (added reg rt filters) v = add_route-IsValid rt filters reg v
  Step-IsValid (removed reg pattern method) v = remove_handler-IsValid pattern method reg v

  -- In every registry that the operations reach, in any order and also through those that panic,
  -- each item stands under its own method with the filter of its versioned pattern, and no two
  -- items of a method have one version and pattern.
  pub Reach-IsValid : {reg : Registry C} → Reach reg → IsValid reg
  unfolding new_registry lookup
  Reach-IsValid start = record { at = λ method. (tt, tt) }
  Reach-IsValid (after r step) = Step-IsValid step (Reach-IsValid r)
