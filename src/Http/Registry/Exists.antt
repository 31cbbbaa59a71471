-- ===== src/Http/Registry/Exists.antt =====
-- AddRoute against ExistHandler, on every branch of AddRoute.
use magic_engine.Common.{
  ◌≡◌, refl, ◌≢◌, ◌↔◌, ◌⊎◌, inl, inr, true, ◌&&◌, ◌||◌, Option, none, some, List, [], ◌∷◌, ◌++◌,
  arith, if◌then◌else◌, Option-cases, Bytes, bytes_eq, bytes_eq→eq,
}
use magic_engine.Http.Response.{returned, panicked}
use magic_engine.Http.Middleware.{Middleware}
use magic_engine.Http.Pattern.{Regexp, new_pattern_filter}
use magic_engine.Http.Registry.{
  Route, RouteItem, Registry, lookup, assign, panic_info, duplicate_message, equal_pattern,
  find_route, is_some, found_in, exist_handler, set_api_version, add_route, store_item, item_of,
  slice_of,
}
use magic_engine.Http.Registry.Lookup.{
  lookup-assign, is_some-find_route-append, check_duplicate_route-find_route,
}

module _ {C : Type 0} where
  pub found_in-slice_of :
      (o : Option (List (RouteItem C))) (version pattern : Bytes)
      → found_in o version pattern ≡ is_some (find_route (slice_of o) version pattern)
  unfolding find_route
  found_in-slice_of none version pattern = refl
  found_in-slice_of (some slice) version pattern = refl

  -- What ExistHandler answers, in any version, after an item was put behind the slice of its
  -- method.
  exist_handler-append :
      (item : RouteItem C) (key : Bytes) (reg : Registry C) (version pattern method : Bytes)
      → exist_handler pattern method (record {
        current_api_version = version;
        routes = assign key (slice_of (lookup key reg.routes) ++ item ∷ []) reg.routes;
      })
        ≡ (exist_handler pattern method (set_api_version version reg)
            || (bytes_eq key method && equal_pattern item version pattern))
  unfolding exist_handler set_api_version
  exist_handler-append item key reg version pattern method = ground (
    arith,
    lookup-assign key method (slice_of (lookup key reg.routes) ++ item ∷ []) reg.routes,
    is_some-find_route-append (slice_of (lookup key reg.routes)) item version pattern,
    found_in-slice_of (lookup method reg.routes) version pattern,
    bytes_eq→eq key method,
  )

module _ {C : Type 0} (regexp : Regexp) where
  exist_handler-store_item :
      (rt : Route C) (fs : List (Middleware C)) (reg : Registry C) (version pattern method : Bytes)
      → (store_item regexp (slice_of (lookup rt.method reg.routes)) rt fs reg).0 ≡ returned
      → exist_handler pattern method (
          set_api_version version
            (store_item regexp (slice_of (lookup rt.method reg.routes)) rt fs reg).1)
        ≡ (exist_handler pattern method (set_api_version version reg)
            || (bytes_eq rt.method method
                && (bytes_eq reg.current_api_version version && bytes_eq rt.pattern pattern)))
  unfolding store_item item_of equal_pattern set_api_version
  exist_handler-store_item rt fs reg version pattern method h =
      elim (Option-cases (new_pattern_filter regexp (reg.current_api_version ++ rt.pattern))) [
        | inl bad ↦ ground arith
        | inr (filter, good) ↦ rw good (
            exist_handler-append (item_of reg.current_api_version rt fs filter) rt.method reg
              version pattern method)
      ]

  -- AddRoute is a test of ExistHandler, and then the append.
  pub add_route_split :
      (rt : Route C) (fs : List (Middleware C)) (reg : Registry C)
      → add_route regexp rt fs reg ≡ (
          if exist_handler rt.pattern rt.method reg
          then (panicked (panic_info (duplicate_message reg.current_api_version rt)), reg)
          else store_item regexp (slice_of (lookup rt.method reg.routes)) rt fs reg)
  unfolding add_route exist_handler
  add_route_split rt fs reg = elim (Option-cases (lookup rt.method reg.routes)) [
    | inl missing ↦ rw missing
    | inr (slice, found) ↦
        rw (found, check_duplicate_route-find_route slice reg.current_api_version rt)
  ]

  store_item_panics :
      (slice : List (RouteItem C)) (rt : Route C) (fs : List (Middleware C)) (reg : Registry C)
      → ((store_item regexp slice rt fs reg).0 ≢ returned)
        ↔ (new_pattern_filter regexp (reg.current_api_version ++ rt.pattern) ≡ none)
  unfolding store_item
  store_item_panics slice rt fs reg = ground arith

  store_item_unchanged :
      (slice : List (RouteItem C)) (rt : Route C) (fs : List (Middleware C)) (reg : Registry C)
      → (store_item regexp slice rt fs reg).0 ≢ returned
      → (store_item regexp slice rt fs reg).1 ≡ reg
  unfolding store_item
  store_item_unchanged slice rt fs reg h = ground arith

  -- A route that AddRoute took exists from then on in the version that was current, and
  -- ExistHandler answers as before for every other version, pattern and method.
  pub add_route-exist_handler :
      (rt : Route C) (fs : List (Middleware C)) (reg : Registry C) (version pattern method : Bytes)
      → (add_route regexp rt fs reg).0 ≡ returned
      → exist_handler pattern method (set_api_version version (add_route regexp rt fs reg).1) ≡ (
          exist_handler pattern method (set_api_version version reg)
          || (bytes_eq rt.method method
              && (bytes_eq reg.current_api_version version && bytes_eq rt.pattern pattern)))
  add_route-exist_handler rt fs reg version pattern method h =
      ground (
        arith,
        add_route_split rt fs reg,
        exist_handler-store_item rt fs reg version pattern method,
      )

  -- AddRoute panics exactly when the route exists in the current version or its pattern does not
  -- compile.
  pub add_route-panics_iff :
      (rt : Route C) (fs : List (Middleware C)) (reg : Registry C)
      → ((add_route regexp rt fs reg).0 ≢ returned) ↔ (
          (exist_handler rt.pattern rt.method reg ≡ true)
          ⊎ (new_pattern_filter regexp (reg.current_api_version ++ rt.pattern) ≡ none))
  add_route-panics_iff rt fs reg = ground (
    arith,
    add_route_split rt fs reg,
    store_item_panics (slice_of (lookup rt.method reg.routes)) rt fs reg,
  )

  -- A panic of AddRoute leaves the registry as it was.
  pub add_route_unchanged :
      (rt : Route C) (fs : List (Middleware C)) (reg : Registry C)
      → (add_route regexp rt fs reg).0 ≢ returned
      → (add_route regexp rt fs reg).1 ≡ reg
  add_route_unchanged rt fs reg h = ground (
    arith,
    add_route_split rt fs reg,
    store_item_unchanged (slice_of (lookup rt.method reg.routes)) rt fs reg,
  )
