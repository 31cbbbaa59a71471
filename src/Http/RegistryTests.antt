-- ===== src/Http/RegistryTests.antt =====
-- The theorems on the route registry at concrete inputs, and runs of the code: a recording response
-- writer and a registry with two routes.
use magic_engine.Common.{
  ℕ, String, ◌≡◌, refl, ◌≢◌, ◌↔◌, ◌⊎◌, Bool, true, false, not, ◌&&◌, ◌||◌, Option, none, some, List,
  [], ◌∷◌, ◌++◌, map, length, Bytes, codes, bytes_eq, to_upper,
}
use magic_engine.NetHttp.{Request, Reply, NetWriter}
use magic_engine.Http.Response.{returned}
use magic_engine.Http.Pattern.{Regexp, Token, PatternFilter, new_pattern_filter, match}
use magic_engine.Http.Registry.{
  Route, RouteItem, Registry, lookup, assign, find_route, exist_handler, set_api_version,
  remove_handler, check_duplicate_route, slice_of, add_route, new_registry, select,
}
use magic_engine.Http.Registry.Exists.{
  add_route-exist_handler, add_route-panics_iff, add_route_unchanged,
}
use magic_engine.Http.Registry.Valid.{IsValid, Reach, start, after, added, Reach-IsValid}
use magic_engine.Http.Registry.Removal.{
  remove_handler-exist_handler, remove_handler_missing, remove_handler-add_route,
}
use magic_engine.Http.Registry.Dispatch.{IsFirst, select-IsFirst, select-upper}
use magic_engine.Http.Static.{StaticOptions}

-- A writer that keeps the status codes and takes every byte.
instance abbrev pub recorder : NetWriter (List ℕ)
recorder = record {
  set_header = λ w key value. w;
  write_header = λ w code. w ++ code ∷ [];
  write = λ w b. (w, length b, none);
}

-- No pattern outside of the tokens compiles.
abbrev pub no_regexp : Regexp
no_regexp = record { matcher = λ text. none; refusal = λ text. codes "regexp: Compile" }

abbrev pub request : String → String → Request
request method path = record {
  method = codes method;
  path = codes path;
  raw_query = [];
  header = λ key. [];
  remote_addr = [];
}

abbrev pub Ctx : Type 0
Ctx = Option StaticOptions

abbrev pub ok_handler : Ctx → Request → Reply
ok_handler ctx req = Reply.write_header 200 Reply.done

abbrev pub users : Route Ctx
users = record { pattern = codes "/users/:id"; method = codes "GET"; handler = ok_handler }

abbrev pub files_route : Route Ctx
files_route = record { pattern = codes "/**"; method = codes "GET"; handler = ok_handler }

abbrev pub one_route : Registry Ctx
one_route = (add_route no_regexp users [] new_registry).1

abbrev pub two_routes : Registry Ctx
two_routes = (add_route no_regexp files_route [] one_route).1

one_route-returned : (add_route no_regexp users [] (new_registry {C = Ctx})).0 ≡ returned
unfolding add_route new_registry lookup new_pattern_filter
one_route-returned = refl

two_routes-returned : (add_route no_regexp files_route [] one_route).0 ≡ returned
unfolding add_route new_registry lookup new_pattern_filter assign check_duplicate_route
two_routes-returned = refl

Reach-one : Reach no_regexp one_route
Reach-one = after start (added new_registry users [])

Reach-two : Reach no_regexp two_routes
Reach-two = after Reach-one (added one_route files_route [])

abbrev matches : Option PatternFilter → Bytes → Bool
matches none path = false
matches (some filter) path = match filter path

abbrev pattern_match : String → String → Bool
pattern_match pattern path = matches (new_pattern_filter no_regexp (codes pattern)) (codes path)

-- the table of route_test.go and patternFilter_test.go
filters :
    (pattern_match "/api/v1/**" "/api/v1/access/abc/24323/" ≡ true)
    × (pattern_match "/api/v1/users" "/api/v1/users" ≡ true)
    × (pattern_match "/api/v1/users" "/api/v1/users/" ≡ true)
    × (pattern_match "/api/v1/users" "/api/v1/users/123" ≡ false)
    × (pattern_match "/api/v1/users" "/api/v2/users" ≡ false)
    × (pattern_match "/api/v1/**" "/api/v1/" ≡ true)
    × (pattern_match "/api/v1/**" "/api/v2/users" ≡ false)
    × (pattern_match "/api/users/:id" "/api/users/123" ≡ true)
    × (pattern_match "/api/users/:id" "/api/users/" ≡ false)
    × (pattern_match "/api/users/:id" "/api/users" ≡ false)
unfolding new_pattern_filter match
filters = (refl, refl, refl, refl, refl, refl, refl, refl, refl, refl)

add_route-exist_handler_test :
    exist_handler
      (codes "/**")
      (codes "GET")
      (set_api_version [] (add_route no_regexp files_route [] one_route).1)
    ≡ (exist_handler (codes "/**") (codes "GET") (set_api_version [] one_route)
        || (bytes_eq (codes "GET") (codes "GET")
            && (bytes_eq one_route.current_api_version [] && bytes_eq (codes "/**") (codes "/**"))))
add_route-exist_handler_test =
    add_route-exist_handler no_regexp files_route [] one_route [] (codes "/**") (codes "GET")
      two_routes-returned

add_route-panics_iff_example : ((add_route no_regexp users [] one_route).0 ≢ returned) ↔ (
    (exist_handler (codes "/users/:id") (codes "GET") one_route ≡ true)
    ⊎ (new_pattern_filter no_regexp (one_route.current_api_version ++ codes "/users/:id") ≡ none))
add_route-panics_iff_example = add_route-panics_iff no_regexp users [] one_route

duplicate_panics : (add_route no_regexp users [] one_route).0 ≢ returned
unfolding add_route new_registry lookup new_pattern_filter assign check_duplicate_route
duplicate_panics = λ e. cc

refused_route_unchanged : (add_route no_regexp users [] one_route).1 ≡ one_route
refused_route_unchanged = add_route_unchanged no_regexp users [] one_route duplicate_panics

users_exist : exist_handler (codes "/users/:id") (codes "GET") two_routes ≡ true
unfolding exist_handler add_route new_registry lookup new_pattern_filter assign find_route
    check_duplicate_route
users_exist = refl

remove_handler-exist_handler_test :
    ((remove_handler (codes "/users/:id") (codes "GET") two_routes).0 ≡ returned)
    × (exist_handler
          (codes "/**")
          (codes "GET")
          (set_api_version [] (remove_handler (codes "/users/:id") (codes "GET") two_routes).1)
        ≡ (exist_handler (codes "/**") (codes "GET") (set_api_version [] two_routes)
            && not (
                bytes_eq (codes "GET") (codes "GET")
                && (bytes_eq two_routes.current_api_version []
                    && bytes_eq (codes "/users/:id") (codes "/**")))))
remove_handler-exist_handler_test =
    remove_handler-exist_handler no_regexp (codes "/users/:id") (codes "GET") two_routes []
      (codes "/**") (codes "GET") (Reach-IsValid no_regexp Reach-two) users_exist

ghost_missing : exist_handler (codes "/ghost") (codes "GET") two_routes ≡ false
unfolding exist_handler add_route new_registry lookup new_pattern_filter assign find_route
    check_duplicate_route
ghost_missing = refl

ghost_returned : (remove_handler (codes "/ghost") (codes "GET") two_routes).0 ≡ returned
unfolding remove_handler add_route new_registry lookup new_pattern_filter assign
    check_duplicate_route
ghost_returned = refl

remove_handler_missing_example :
    exist_handler
      (codes "/users/:id")
      (codes "GET")
      (set_api_version [] (remove_handler (codes "/ghost") (codes "GET") two_routes).1)
    ≡ false
remove_handler_missing_example =
    remove_handler_missing (codes "/ghost") (codes "GET") two_routes [] (codes "/users/:id")
      ghost_missing ghost_returned

remove_handler-add_route_example :
    ((remove_handler (codes "/**") (codes "GET") two_routes).0 ≡ returned)
    × (slice_of
          (lookup (codes "GET") (remove_handler (codes "/**") (codes "GET") two_routes).1.routes)
        ≡ slice_of (lookup (codes "GET") one_route.routes))
remove_handler-add_route_example =
    remove_handler-add_route no_regexp files_route [] one_route (codes "GET") two_routes-returned

Reach-IsValid_example : IsValid no_regexp two_routes
Reach-IsValid_example = Reach-IsValid no_regexp Reach-two

-- what GET /users/7/ is routed to
unfoldable pub chosen : RouteItem Ctx
chosen = record {
  version_prefix = [];
  route = users;
  middleware_list = [];
  pattern_filter =
      PatternFilter.tokens (map Token.lit (codes "/users/") ++ Token.param (codes "id") ∷ []);
}

select_users : select two_routes (request "get" "/users/7/") ≡ some chosen
unfolding chosen select add_route new_registry lookup new_pattern_filter assign
    check_duplicate_route match to_upper
select_users = refl

select-IsFirst_example :
    IsFirst
      (slice_of (lookup (to_upper (codes "get")) two_routes.routes))
      (codes "/users/7/")
      chosen
    × (chosen.route.method ≡ to_upper (codes "get"))
    × (new_pattern_filter no_regexp (chosen.version_prefix ++ chosen.route.pattern)
        ≡ some chosen.pattern_filter)
select-IsFirst_example =
    select-IsFirst no_regexp two_routes (request "get" "/users/7/") chosen Reach-two select_users

select-upper_example : to_upper chosen.route.method ≡ chosen.route.method
select-upper_example =
    select-upper no_regexp two_routes (request "get" "/users/7/") chosen Reach-two select_users
