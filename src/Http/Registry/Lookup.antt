-- ===== src/Http/Registry/Lookup.antt =====
-- The search of a slice, as equations between what it returns.
pub use magic_engine.Common.{lookup-assign}
use magic_engine.Common.{◌≡◌, refl, ◌||◌, List, [], ◌∷◌, ◌++◌, arith, Bytes}
use magic_engine.Http.Registry.{
  Route, RouteItem, equal_pattern, equal_route, find_route, is_some, check_duplicate_route,
}

module _ {C : Type 0} where
  pub is_some-find_route-append :
      (xs : List (RouteItem C)) (y : RouteItem C) (version pattern : Bytes)
      → is_some (find_route (xs ++ y ∷ []) version pattern)
        ≡ (is_some (find_route xs version pattern) || equal_pattern y version pattern)
  unfolding find_route
  is_some-find_route-append [] y version pattern = ground arith
  is_some-find_route-append (x ∷ xs) y version pattern =
      ground (arith, is_some-find_route-append xs y version pattern)

  -- checkDuplicateRoute panics exactly when findRoute finds an item.
  pub check_duplicate_route-find_route :
      (xs : List (RouteItem C)) (version : Bytes) (rt : Route C)
      → check_duplicate_route xs version rt ≡ is_some (find_route xs version rt.pattern)
  unfolding check_duplicate_route find_route equal_pattern equal_route
  check_duplicate_route-find_route [] version rt = refl
  check_duplicate_route-find_route (x ∷ xs) version rt =
      ground (arith, check_duplicate_route-find_route xs version rt)
