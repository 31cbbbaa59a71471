-- ===== src/Http/Registry.antt =====
-- http/route.go: routes, the items of the registry, and the registry's operations. A panic is a
-- value: an operation returns how it ended and the registry that it left. The lock is held through
-- each operation, so that operations follow one another.
pub mod Lookup
pub mod Exists
pub mod Remove
pub mod Valid
pub mod Removal
pub mod Dispatch
pub mod Table
unfoldable pub use magic_engine.Common.{lookup, assign}
use magic_engine.Common.{
  ℕ, ◌+◌, Bool, true, false, ◌&&◌, Option, none, some, List, [], ◌∷◌, ◌++◌, ltb, if◌then◌else◌,
  length, take, drop, Bytes, codes, bytes_eq, to_upper,
}
use magic_engine.NetHttp.{Request, Reply}
use magic_engine.Http.Response.{Outcome, returned, panicked}
use magic_engine.Http.Middleware.{Middleware}
use magic_engine.Http.Pattern.{Regexp, PatternFilter, new_pattern_filter, match}

-- Route, by what its three methods return. A RouteHandleFunc has the context and the request, and
-- calls the response writer.
pub record Route (C : Type 0) : Type 0 where
  pub pattern : Bytes
  pub method : Bytes
  pub handler : C → Request → Reply

-- routeItem
pub record RouteItem (C : Type 0) : Type 0 where
  pub version_prefix : Bytes
  pub route : Route C
  pub middleware_list : List (Middleware C)
  pub pattern_filter : PatternFilter

-- routeRegistry; the map of slices as an association list
pub record Registry (C : Type 0) : Type 0 where
  pub current_api_version : Bytes
  pub routes : List (Bytes × List (RouteItem C))

-- panicInfo
unfoldable pub panic_info : Bytes → Bytes
panic_info info = codes "[magic_engine] " ++ info ++ 10 ∷ []

missing_message : Bytes → Bytes → Bytes
missing_message pattern method =
    codes "no found route!, pattern:" ++ pattern ++ codes ", method:" ++ method

abbrev with_filter {ℓ} : {A : Type ℓ} → Option PatternFilter → A → (PatternFilter → A) → A
with_filter none x f = x
with_filter (some p) x f = f p

module _ {C : Type 0} where
  -- CreateRoute
  unfoldable pub create_route : Bytes → Bytes → (C → Request → Reply) → Route C
  create_route pattern method handler = record {
    pattern = pattern;
    method = method;
    handler = handler;
  }

  -- equalPattern
  unfoldable pub equal_pattern : RouteItem C → Bytes → Bytes → Bool
  equal_pattern item version pattern =
      bytes_eq item.version_prefix version && bytes_eq item.route.pattern pattern

  -- equalRoute
  unfoldable pub equal_route : RouteItem C → Bytes → Route C → Bool
  unfolding equal_pattern
  equal_route item version rt =
      bytes_eq item.version_prefix version && bytes_eq item.route.pattern rt.pattern

  -- NewRouteRegistry
  unfoldable pub new_registry : Registry C
  new_registry = record { current_api_version = []; routes = [] }

  -- SetApiVersion
  unfoldable pub set_api_version : Bytes → Registry C → Registry C
  set_api_version version reg = record reg { current_api_version = version }

  -- checkDuplicateRoute: does it panic?
  unfoldable pub check_duplicate_route : List (RouteItem C) → Bytes → Route C → Bool
  unfolding equal_route
  check_duplicate_route [] version rt = false
  check_duplicate_route (val ∷ vals) version rt =
      if equal_route val version rt then true else check_duplicate_route vals version rt

  pub duplicate_message : Bytes → Route C → Bytes
  duplicate_message version rt =
      codes "duplicate route!, apiVersion:"
      ++ version
      ++ codes ", pattern:"
      ++ rt.pattern
      ++ codes ", method:"
      ++ rt.method

  -- findRoute
  unfoldable pub find_route : List (RouteItem C) → Bytes → Bytes → Option (RouteItem C)
  find_route [] version pattern = none
  find_route (val ∷ vals) version pattern =
      if equal_pattern val version pattern then some val else find_route vals version pattern

  abbrev is_some : Option (RouteItem C) → Bool
  is_some none = false
  is_some (some _) = true

  abbrev found_in : Option (List (RouteItem C)) → Bytes → Bytes → Bool
  found_in none version pattern = false
  found_in (some slice) version pattern = is_some (find_route slice version pattern)

  -- ExistHandler
  unfoldable pub exist_handler : Bytes → Bytes → Registry C → Bool
  exist_handler pattern method reg =
      found_in (lookup method reg.routes) reg.current_api_version pattern

  -- ExistRoute
  unfoldable pub exist_route : Route C → Registry C → Bool
  unfolding exist_handler
  exist_route rt reg = exist_handler rt.pattern rt.method reg

  -- The loop of removeRouteImpl from `idx` on, with `vals` the rest of `slice`: without a match
  -- `newRoutes` stays empty.
  remove_loop : List (RouteItem C) → ℕ → List (RouteItem C) → Bytes → Bytes → List (RouteItem C)
  remove_loop slice idx [] version pattern = []
  remove_loop slice idx (val ∷ vals) version pattern =
      if equal_pattern val version pattern
      then (if ltb 0 idx then take idx slice else [])
        ++ (if ltb (idx + 1) (length slice) then drop (idx + 1) slice else [])
      else remove_loop slice (idx + 1) vals version pattern

  unfoldable pub remove_item : List (RouteItem C) → Bytes → Bytes → List (RouteItem C)
  unfolding remove_loop equal_pattern
  remove_item slice version pattern = remove_loop slice 0 slice version pattern

  -- removeRouteImpl
  remove_from : Option (List (RouteItem C)) → Bytes → Bytes → Registry C → Outcome × Registry C
  remove_from none pattern method reg =
      (panicked (panic_info (missing_message pattern method)), reg)
  remove_from (some slice) pattern method reg = (
    returned,
    record reg {
      routes = assign method (remove_item slice reg.current_api_version pattern) reg.routes;
    },
  )

  -- RemoveHandler
  unfoldable pub remove_handler : Bytes → Bytes → Registry C → Outcome × Registry C
  unfolding remove_from panic_info missing_message
  remove_handler pattern method reg = remove_from (lookup method reg.routes) pattern method reg

  -- RemoveRoute
  unfoldable pub remove_route : Route C → Registry C → Outcome × Registry C
  unfolding remove_handler
  remove_route rt reg = remove_handler rt.pattern rt.method reg

  unfoldable pub item_of : Bytes → Route C → List (Middleware C) → PatternFilter → RouteItem C
  item_of version rt filters filter = record {
    version_prefix = version;
    route = rt;
    middleware_list = filters;
    pattern_filter = filter;
  }

  module _ (regexp : Regexp) where
    -- `*routeSlice = append(*routeSlice, item)` with the item of newRouteItem, which panics if the
    -- pattern does not compile. The prefix of the version, empty or not, stands before the pattern.
    pub store_item :
        List (RouteItem C) → Route C → List (Middleware C) → Registry C → Outcome × Registry C
    store_item slice rt filters reg =
        with_filter (new_pattern_filter regexp (reg.current_api_version ++ rt.pattern))
          (panicked (regexp.refusal (reg.current_api_version ++ rt.pattern)), reg)
          (λ filter. (
            returned,
            record reg {
              routes =
                  assign rt.method (slice ++ item_of reg.current_api_version rt filters filter ∷ [])
                    reg.routes;
            },
          ))

    add_to :
        Option (List (RouteItem C))
        → Route C
        → List (Middleware C)
        → Registry C
        → Outcome × Registry C
    add_to none rt filters reg = store_item [] rt filters reg
    add_to (some slice) rt filters reg =
        if check_duplicate_route slice reg.current_api_version rt
        then (panicked (panic_info (duplicate_message reg.current_api_version rt)), reg)
        else store_item slice rt filters reg

    -- AddRoute
    unfoldable pub add_route : Route C → List (Middleware C) → Registry C → Outcome × Registry C
    unfolding add_to store_item item_of panic_info duplicate_message
    add_route rt filters reg = add_to (lookup rt.method reg.routes) rt filters reg

    -- AddHandler; an anonymousMiddleWareHandler does what its function does.
    unfoldable pub add_handler :
        Bytes
        → Bytes
        → (C → Request → Reply)
        → List (Middleware C)
        → Registry C
        → Outcome × Registry C
    unfolding add_route create_route
    add_handler pattern method handler filters reg =
        add_route (create_route pattern method handler) filters reg

  -- The search of Handle: the first item of the slice whose filter matches the path.
  unfoldable pub first_match : List (RouteItem C) → Bytes → Option (RouteItem C)
  first_match [] path = none
  first_match (val ∷ vals) path =
      if match val.pattern_filter path then some val else first_match vals path

  abbrev pub slice_of : Option (List (RouteItem C)) → List (RouteItem C)
  slice_of none = []
  slice_of (some slice) = slice

  -- Handle, up to the choice of the item
  unfoldable pub select : Registry C → Request → Option (RouteItem C)
  unfolding first_match
  select reg req = first_match (slice_of (lookup (to_upper req.method) reg.routes)) req.path
