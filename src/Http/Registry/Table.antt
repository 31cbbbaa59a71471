-- ===== src/Http/Registry/Table.antt =====
-- The registry as its users see it: the routes of all methods in one list, in the order in which they
-- were added, and the methods that a route was ever added for.
pub mod Methods
pub mod Refined
use magic_engine.Common.{
  ◌+◌, Bool, false, ◌&&◌, ◌||◌, Option, none, some, List, [], ◌∷◌, ◌++◌, if◌then◌else◌, Bytes,
  bytes_eq, to_upper,
}
use magic_engine.NetHttp.{Request}
use magic_engine.Http.Response.{Outcome, returned, panicked}
use magic_engine.Http.Middleware.{Middleware}
use magic_engine.Http.Pattern.{Regexp, new_pattern_filter, match}
use magic_engine.Http.Registry.{
  Route, RouteItem, Registry, panic_info, missing_message, duplicate_message, with_filter,
  equal_pattern, exist_handler, set_api_version, remove_handler, item_of, add_route, select,
}

pub record Table (C : Type 0) : Type 0 where
  pub version : Bytes
  pub entries : List (RouteItem C)
  pub methods : List Bytes

abbrev pub mem : Bytes → List Bytes → Bool
mem m [] = false
mem m (x ∷ xs) = bytes_eq x m || mem m xs

-- What the users of a registry call between requests, and the choice that a request leads to
pub data Op (C : Type 0) : Type 0 where
  set_version : Bytes → Op C
  add : Route C → List (Middleware C) → Op C
  remove : Bytes → Bytes → Op C
  exist : Bytes → Bytes → Op C
  choose : Request → Op C

pub data Answer (C : Type 0) : Type 0 where
  ended : Outcome → Answer C
  exists : Bool → Answer C
  chosen : Option (RouteItem C) → Answer C

module _ {C : Type 0} where
  abbrev pub is_entry : RouteItem C → Bytes → Bytes → Bytes → Bool
  is_entry item method version pattern =
      bytes_eq item.route.method method && equal_pattern item version pattern

  unfoldable pub has_entry : List (RouteItem C) → Bytes → Bytes → Bytes → Bool
  unfolding equal_pattern
  has_entry [] method version pattern = false
  has_entry (e ∷ es) method version pattern =
      is_entry e method version pattern || has_entry es method version pattern

  -- Without the first entry of these
  unfoldable pub drop_entry : List (RouteItem C) → Bytes → Bytes → Bytes → List (RouteItem C)
  unfolding equal_pattern
  drop_entry [] method version pattern = []
  drop_entry (e ∷ es) method version pattern =
      let rest = drop_entry es method version pattern in
      if is_entry e method version pattern then es else e ∷ rest

  -- Without all entries of a method
  unfoldable pub drop_method : List (RouteItem C) → Bytes → List (RouteItem C)
  drop_method [] method = []
  drop_method (e ∷ es) method =
      let rest = drop_method es method in if bytes_eq e.route.method method then rest else e ∷ rest

  -- The first entry of a method whose filter matches
  unfoldable pub first_entry : List (RouteItem C) → Bytes → Bytes → Option (RouteItem C)
  first_entry [] method path = none
  first_entry (e ∷ es) method path =
      if bytes_eq e.route.method method && match e.pattern_filter path
      then some e
      else first_entry es method path

  abbrev pub empty_table : Table C
  empty_table = record { version = []; entries = []; methods = [] }

  -- RemoveHandler as it is: for a pattern that is not there it drops the whole method.
  unfoldable pub table_remove : Bytes → Bytes → Table C → Outcome × Table C
  unfolding has_entry drop_entry drop_method panic_info missing_message
  table_remove pattern method t =
      if mem method t.methods
      then (
        returned,
        record t {
          entries =
              if has_entry t.entries method t.version pattern
              then drop_entry t.entries method t.version pattern
              else drop_method t.entries method;
        },
      )
      else (panicked (panic_info (missing_message pattern method)), t)

  module _ (regexp : Regexp) where
    unfoldable pub table_add : Route C → List (Middleware C) → Table C → Outcome × Table C
    unfolding has_entry item_of panic_info duplicate_message
    table_add rt filters t =
        if has_entry t.entries rt.method t.version rt.pattern
        then (panicked (panic_info (duplicate_message t.version rt)), t)
        else with_filter (new_pattern_filter regexp (t.version ++ rt.pattern))
            (panicked (regexp.refusal (t.version ++ rt.pattern)), t)
            (λ filter. (
              returned,
              record t {
                entries = t.entries ++ item_of t.version rt filters filter ∷ [];
                methods = rt.method ∷ t.methods;
              },
            ))

    -- A call on the registry, and the same call on the table
    abbrev pub perform : Op C → Registry C → Answer C × Registry C
    perform (set_version version) reg = (ended returned, set_api_version version reg)
    perform (add rt filters) reg = let (o, r) = add_route regexp rt filters reg in (ended o, r)
    perform (remove pattern method) reg =
        let (o, r) = remove_handler pattern method reg in (ended o, r)
    perform (exist pattern method) reg = (exists (exist_handler pattern method reg), reg)
    perform (choose req) reg = (chosen (select reg req), reg)

    abbrev pub expect : Op C → Table C → Answer C × Table C
    expect (set_version version) t = (ended returned, record t { version = version })
    expect (add rt filters) t = let (o, u) = table_add rt filters t in (ended o, u)
    expect (remove pattern method) t = let (o, u) = table_remove pattern method t in (ended o, u)
    expect (exist pattern method) t = (exists (has_entry t.entries method t.version pattern), t)
    expect (choose req) t = (chosen (first_entry t.entries (to_upper req.method) req.path), t)

    -- The answers to calls, one after the other
    unfoldable pub perform_all : List (Op C) → Registry C → List (Answer C)
    perform_all [] reg = []
    perform_all (op ∷ ops) reg = (perform op reg).0 ∷ perform_all ops (perform op reg).1

    unfoldable pub expect_all : List (Op C) → Table C → List (Answer C)
    unfolding table_add table_remove first_entry
    expect_all [] t = []
    expect_all (op ∷ ops) t = (expect op t).0 ∷ expect_all ops (expect op t).1
