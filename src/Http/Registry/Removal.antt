-- ===== src/Http/Registry/Removal.antt =====
-- What RemoveRoute and RemoveHandler do to the routes that exist.
use magic_engine.Common.{
  ◌≡◌, refl, inl, inr, true, false, not, ◌&&◌, List, [], ◌∷◌, ◌++◌, arith, if◌then◌else◌,
  Bool-cases, Option-cases, Bytes, bytes_eq, bytes_eq→eq, bytes_eq_refl,
}
use magic_engine.Http.Response.{returned}
use magic_engine.Http.Middleware.{Middleware}
use magic_engine.Http.Pattern.{Regexp, new_pattern_filter}
use magic_engine.Http.Registry.{
  Route, RouteItem, Registry, lookup, assign, equal_pattern, find_route, is_some, exist_handler,
  set_api_version, remove_item, remove_from, remove_handler, slice_of, item_of, store_item,
  add_route,
}
use magic_engine.Http.Registry.Lookup.{lookup-assign, is_some-find_route-append}
use magic_engine.Http.Registry.Exists.{found_in-slice_of, add_route_split}
use magic_engine.Http.Registry.Remove.{remove_first, remove_item_lem, find_route-remove_first}
use magic_engine.Http.Registry.Valid.{IsValid}

find_route-nil :
    (C : Type 0) (version p : Bytes) → is_some (find_route {C = C} [] version p) ≡ false
unfolding find_route
find_route-nil C version p = refl

module _ {C : Type 0} where
  -- What removeRouteImpl leaves in each method, when the method has a slice.
  pub remove_handler_slices :
      (pattern method m : Bytes) (reg : Registry C)
      → (remove_handler pattern method reg).0 ≡ returned
      → slice_of (lookup m (remove_handler pattern method reg).1.routes) ≡ (
          if bytes_eq method m
          then remove_item (slice_of (lookup method reg.routes)) reg.current_api_version pattern
          else slice_of (lookup m reg.routes))
  unfolding remove_handler remove_from
  remove_handler_slices pattern method m reg h = elim (Option-cases (lookup method reg.routes)) [
    | inl missing ↦ ground arith
    | inr (slice, found) ↦ ground (
      arith,
      lookup-assign method m (remove_item slice reg.current_api_version pattern) reg.routes,
    )
  ]

  pub remove_handler-version :
      (pattern method : Bytes) (reg : Registry C)
      → (remove_handler pattern method reg).1.current_api_version ≡ reg.current_api_version
  unfolding remove_handler remove_from
  remove_handler-version pattern method reg = ground arith

  exist_handler-slice_of :
      (pattern method version : Bytes) (reg : Registry C)
      → exist_handler pattern method (set_api_version version reg)
        ≡ is_some (find_route (slice_of (lookup method reg.routes)) version pattern)
  unfolding exist_handler set_api_version
  exist_handler-slice_of pattern method version reg =
      found_in-slice_of (lookup method reg.routes) version pattern

  pub exist_handler_now :
      (pattern method : Bytes) (reg : Registry C)
      → exist_handler pattern method reg
        ≡ is_some (find_route (slice_of (lookup method reg.routes)) reg.current_api_version pattern)
  unfolding exist_handler
  exist_handler_now pattern method reg =
      found_in-slice_of (lookup method reg.routes) reg.current_api_version pattern

  exist_handler_returned :
      (pattern method : Bytes) (reg : Registry C)
      → exist_handler pattern method reg ≡ true
      → (remove_handler pattern method reg).0 ≡ returned
  unfolding exist_handler remove_handler remove_from
  exist_handler_returned pattern method reg h = ground arith

  -- Removing a route that exists ends normally; from then on that route does not exist in the
  -- current version, and every other route of every version exists or not as before.
  pub remove_handler-exist_handler :
      (regexp : Regexp) (pattern method : Bytes) (reg : Registry C) (version p m : Bytes)
      → IsValid regexp reg
      → exist_handler pattern method reg ≡ true
      → ((remove_handler pattern method reg).0 ≡ returned)
        × (exist_handler p m (set_api_version version (remove_handler pattern method reg).1) ≡ (
            exist_handler p m (set_api_version version reg)
            && not (
                bytes_eq method m
                && (bytes_eq reg.current_api_version version && bytes_eq pattern p))))
  remove_handler-exist_handler regexp pattern method reg version p m v h =
      let slice = slice_of (lookup method reg.routes) in
      let r = exist_handler_returned pattern method reg h in
      (
        r,
        ground (
          arith,
          exist_handler-slice_of p m version reg,
          exist_handler-slice_of p m version (remove_handler pattern method reg).1,
          exist_handler_now pattern method reg,
          remove_handler_slices pattern method m reg r,
          remove_item_lem slice reg.current_api_version pattern,
          find_route-remove_first slice reg.current_api_version pattern version p (v.at method).0,
          bytes_eq→eq method m,
        ),
      )

  -- Removing a pattern that does not exist, of a method that has been registered, ends normally
  -- and leaves no route of that method, in any version.
  pub remove_handler_missing :
      (pattern method : Bytes) (reg : Registry C) (version p : Bytes)
      → exist_handler pattern method reg ≡ false
      → (remove_handler pattern method reg).0 ≡ returned
      → exist_handler p method (set_api_version version (remove_handler pattern method reg).1)
        ≡ false
  remove_handler_missing pattern method reg version p h r = ground (
    arith,
    exist_handler-slice_of p method version (remove_handler pattern method reg).1,
    exist_handler_now pattern method reg,
    remove_handler_slices pattern method method reg r,
    remove_item_lem (slice_of (lookup method reg.routes)) reg.current_api_version pattern,
    bytes_eq_refl method,
    find_route-nil C version p,
  )

  remove_first-append :
      (xs : List (RouteItem C)) (y : RouteItem C) (version pattern : Bytes)
      → is_some (find_route xs version pattern) ≡ false
      → equal_pattern y version pattern ≡ true
      → remove_first (xs ++ y ∷ []) version pattern ≡ xs
  unfolding find_route
  remove_first-append [] y version pattern h e = ground arith
  remove_first-append (x ∷ xs) y version pattern h e =
      ground (arith, remove_first-append xs y version pattern)

  -- The registry with an item put behind the slice of a method.
  abbrev appended : Bytes → RouteItem C → Registry C → Registry C
  appended key item reg = record reg {
    routes = assign key (slice_of (lookup key reg.routes) ++ item ∷ []) reg.routes;
  }

  slice_of-appended :
      (key m : Bytes) (item : RouteItem C) (reg : Registry C)
      → slice_of (lookup m (appended key item reg).routes) ≡ (
          if bytes_eq key m
          then slice_of (lookup key reg.routes) ++ item ∷ []
          else slice_of (lookup m reg.routes))
  slice_of-appended key m item reg =
      ground (arith, lookup-assign key m (slice_of (lookup key reg.routes) ++ item ∷ []) reg.routes)

  remove_handler-appended :
      (key pattern m : Bytes) (item : RouteItem C) (reg : Registry C)
      → exist_handler pattern key reg ≡ false
      → equal_pattern item reg.current_api_version pattern ≡ true
      → ((remove_handler pattern key (appended key item reg)).0 ≡ returned)
        × (slice_of (lookup m (remove_handler pattern key (appended key item reg)).1.routes)
            ≡ slice_of (lookup m reg.routes))
  remove_handler-appended key pattern m item reg fresh same =
      let slice = slice_of (lookup key reg.routes) in
      let there : exist_handler pattern key (appended key item reg) ≡ true = ground (
        arith,
        exist_handler_now pattern key (appended key item reg),
        slice_of-appended key key item reg,
        bytes_eq_refl key,
        is_some-find_route-append slice item reg.current_api_version pattern,
      ) in
      let r = exist_handler_returned pattern key (appended key item reg) there in
      (
        r,
        ground (
          arith,
          exist_handler_now pattern key reg,
          exist_handler_now pattern key (appended key item reg),
          remove_handler_slices pattern key m (appended key item reg) r,
          slice_of-appended key m item reg,
          slice_of-appended key key item reg,
          bytes_eq_refl key,
          bytes_eq→eq key m,
          remove_item_lem (slice ++ item ∷ []) reg.current_api_version pattern,
          remove_first-append slice item reg.current_api_version pattern,
        ),
      )

module _ {C : Type 0} (regexp : Regexp) where
  store_item_slices :
      (slice : List (RouteItem C)) (rt : Route C) (fs : List (Middleware C)) (reg : Registry C)
      → (store_item regexp slice rt fs reg).0 ≡ returned
      → (item : RouteItem C) × ((store_item regexp slice rt fs reg).1
          ≡ record reg { routes = assign rt.method (slice ++ item ∷ []) reg.routes })
        × (equal_pattern item reg.current_api_version rt.pattern ≡ true)
  unfolding store_item item_of equal_pattern
  store_item_slices slice rt fs reg h =
      elim (Option-cases (new_pattern_filter regexp (reg.current_api_version ++ rt.pattern))) [
        | inl bad ↦ absurd (ground arith)
        | inr (filter, good) ↦ (
          item_of reg.current_api_version rt fs filter,
          rw good,
          ground (arith, bytes_eq_refl reg.current_api_version, bytes_eq_refl rt.pattern),
        )
      ]

  -- RemoveRoute undoes AddRoute: after both, each method has the items that it had, in their order.
  pub remove_handler-add_route :
      (rt : Route C) (fs : List (Middleware C)) (reg : Registry C) (m : Bytes)
      → (add_route regexp rt fs reg).0 ≡ returned
      → ((remove_handler rt.pattern rt.method (add_route regexp rt fs reg).1).0 ≡ returned)
        × (slice_of (
              lookup m
                (remove_handler rt.pattern rt.method (add_route regexp rt fs reg).1).1.routes)
            ≡ slice_of (lookup m reg.routes))
  remove_handler-add_route rt fs reg m h =
      elim (Bool-cases (exist_handler rt.pattern rt.method reg)) [
        | inl dup ↦ absurd (ground (arith, add_route_split regexp rt fs reg))
        | inr fresh ↦
            let split : add_route regexp rt fs reg
                ≡ store_item regexp (slice_of (lookup rt.method reg.routes)) rt fs reg =
              rw (add_route_split, fresh) in
            let (item, e, same) =
              store_item_slices (slice_of (lookup rt.method reg.routes)) rt fs reg
                (rw split at h) in
            rw (split, e) (remove_handler-appended rt.method rt.pattern m item reg fresh same)
      ]
