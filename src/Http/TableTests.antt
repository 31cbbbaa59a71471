-- ===== src/Http/TableTests.antt =====
-- The refinement of the registry to one table of routes, over a sequence of calls.
use magic_engine.Common.{◌≡◌, List, [], ◌∷◌, codes}
use magic_engine.Http.Registry.{new_registry}
use magic_engine.Http.Registry.Table.{
  Op, add, remove, exist, choose, set_version, empty_table, perform_all, expect_all,
}
use magic_engine.Http.Registry.Table.Refined.{perform_all-expect_all}
use magic_engine.Http.RegistryTests.{no_regexp, request, users, files_route, Ctx}

-- two routes, a duplicate, a choice, a removal, one of a route that is not there, which empties the
-- method, and one of a method without routes
abbrev ops : List (Op Ctx)
ops =
    add users []
    ∷ add files_route []
    ∷ add users []
    ∷ choose (request "get" "/users/7")
    ∷ exist (codes "/**") (codes "GET")
    ∷ remove (codes "/users/:id") (codes "GET")
    ∷ choose (request "GET" "/users/7")
    ∷ set_version (codes "/v1")
    ∷ remove (codes "/**") (codes "GET")
    ∷ exist (codes "/**") (codes "GET")
    ∷ remove (codes "/**") (codes "PUT")
    ∷ []

perform_all-expect_all_example :
    perform_all no_regexp ops new_registry ≡ expect_all no_regexp ops empty_table
perform_all-expect_all_example = perform_all-expect_all no_regexp ops
