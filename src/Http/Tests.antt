-- ===== src/Http/Tests.antt =====
-- The theorems on the contexts and the server at concrete inputs: chains over the registry with two
-- routes, one of them with a last middleware that panics.
use magic_engine.Common.{
  ℕ, ◌≡◌, refl, subst, ◌≢◌, true, false, none, some, List, [], ◌∷◌, ◌++◌, codes, lookup, assign,
  to_upper,
}
use magic_engine.Http.Context.Order.{run_route-in_order, run-next_written}
use magic_engine.Http.Context.Answers.{CalmRoutes}
use magic_engine.Http.Middleware.Fuel.{run-rerun, NoRuns}
use magic_engine.Http.Context.{finish_route}
use magic_engine.Http.Registry.{RouteItem, select, add_route, new_registry, check_duplicate_route}
use magic_engine.Http.Pattern.{new_pattern_filter, match}
use magic_engine.NetHttp.{ok, err, Reply, not_found}
use magic_engine.Http.Response.{
  ResponseWriter, Outcome, returned, panicked, out_of_fuel, written, run_reply, new_response_writer,
  write, header_set, write_header,
}
use magic_engine.Http.Middleware.{Code, Middleware, State, respond, run}
use magic_engine.Http.Middleware.Fuel.{Ends}
use magic_engine.Http.Context.{
  new_context, no_content, finish_route, run_route, finish_request, run_request,
}
use magic_engine.Http.Context.Answers.{run_request-Ends, run_route-Answered}
use magic_engine.Http.Context.Order.{in_order}
use magic_engine.Http.Static.{Files, ContextValues}
use magic_engine.Http.Recovery.{logger, recovery}
use magic_engine.Http.Server.{
  ServerOption, HttpServer, Surroundings, use_handler, bind, new_http_server, serve_http,
}
use magic_engine.Http.Server.Safe.{
  Built, new, used, bound, inside, serve_http_answers, serve_http_panicked,
}
use magic_engine.Http.RegistryTests.{recorder, request, Ctx, two_routes, chosen}

-- a middleware that writes and goes on, and one that only passes a value on
abbrev writes_on : Middleware Ctx
writes_on req = Code.reply (Reply.write (codes "hi") (λ _ _. Reply.done)) (Code.next Code.done)

abbrev notes : Middleware Ctx
notes req = Code.context (λ c. Code.update c Code.done)

abbrev blank : ResponseWriter (List ℕ)
blank = record { inner = []; status = 0; size = 0 }

abbrev fresh : State (List ℕ) Ctx
fresh = new_context blank none

abbrev noted : RouteItem Ctx
noted = record chosen { middleware_list = notes ∷ notes ∷ [] }

run_route-in_order_example :
    run_route noted (request "GET" "/users/7") fresh
    ≡ in_order
        (notes ∷ notes ∷ [])
        (request "GET" "/users/7")
        (finish_route chosen.route (request "GET" "/users/7"))
        fresh
run_route-in_order_example =
    run_route-in_order noted (request "GET" "/users/7") blank none ((λ c. tt), ((λ c. tt), tt))

abbrev greets : Reply
greets = Reply.write (codes "hi") (λ _ _. Reply.done)

greets_returned :
    ((respond greets fresh).0 ≡ returned) × (written (respond greets fresh).1.res ≡ true)
unfolding respond run_reply write write_header
greets_returned = (refl, refl)

run-next_written_example :
    let after : Outcome × State (List ℕ) Ctx =
      run
        ([] ++ writes_on ∷ [])
        (request "GET" "/x")
        (finish_request (some two_routes) (request "GET" "/x"))
        2
        fresh in
    (after.0 ≡ returned) × (after.1.res.status ≡ 404)
run-next_written_example =
    run-next_written [] writes_on (some two_routes) (request "GET" "/x") 0 fresh greets refl refl
      greets_returned.0 greets_returned.1

-- the whole run of that chain records 404 too
writes_on_status :
    (run_request (writes_on ∷ []) (some two_routes) (request "GET" "/x") fresh).1.res.status ≡ 404
unfolding run_request run finish_request respond not_found run_reply write write_header header_set
    new_response_writer
writes_on_status = refl

-- the routes of the tests have no middleware
calm_routes : CalmRoutes (some two_routes) (request "GET" "/x")
unfolding select lookup add_route new_registry new_pattern_filter assign check_duplicate_route
    to_upper match
calm_routes item e =
    subst (λ o. elim o [ none ↦ Unit | some i ↦ NoRuns (request "GET" "/x") i.middleware_list ]) e
      tt

calm_index : CalmRoutes (some two_routes) (request "GET" "/index.html")
unfolding select lookup add_route new_registry new_pattern_filter assign check_duplicate_route
    to_upper match
calm_index item e =
    subst
      (λ o. elim o [
        | none ↦ Unit
        | some i ↦ NoRuns (request "GET" "/index.html") i.middleware_list
      ])
      e tt

run_request-Ends_example :
    Ends 0 (run_request (writes_on ∷ notes ∷ []) (some two_routes) (request "GET" "/x") fresh)
run_request-Ends_example =
    run_request-Ends (writes_on ∷ notes ∷ []) (some two_routes) (request "GET" "/x") fresh
      (tt, ((λ c. tt), tt)) calm_routes

abbrev runs_again : Middleware Ctx
runs_again req = Code.rerun Code.done

run-rerun_example :
    (run
      (notes ∷ runs_again ∷ [])
      (request "GET" "/x")
      (finish_request (some two_routes) (request "GET" "/x"))
      9
      (record fresh { index = 1 })).0
    ≡ out_of_fuel
run-rerun_example =
    run-rerun (notes ∷ runs_again ∷ []) (request "GET" "/x")
      (finish_request (some two_routes) (request "GET" "/x")) 9 (record fresh { index = 1 })
      runs_again Code.done refl refl

-- a file system without files
abbrev no_files : Files Unit
no_files = record {
  open_file = λ dir name. err (codes "no such file");
  stat_is_dir = λ f. ok false;
  serve_content = λ req name f. Reply.done;
  redirect = λ req url code. Reply.write_header code Reply.done;
  url_text = λ path query. path;
}

abbrev option_values : ContextValues Ctx
option_values = record { with_static = λ o c. some o; get_static = λ c. c; get-with = λ o c. refl }

abbrev production : Surroundings
production = record { env = codes "production"; root = codes "/srv"; stack = codes "main.go" }

abbrev panics : Middleware Ctx
panics req = Code.reply (Reply.panic (codes "boom")) Code.done

abbrev static_server : HttpServer Ctx
static_server = bind two_routes (
    use_handler panics (
      new_http_server no_files option_values production
        (ServerOption.with_static_enabled true ∷ [])))

abbrev Built-static_server : Built no_files option_values production static_server
Built-static_server =
    bound two_routes (used panics (new (ServerOption.with_static_enabled true ∷ [])))

abbrev no_writes : List ℕ
no_writes = []

serve_http_answers_example :
    ((serve_http no_files option_values production static_server no_writes none
        (request "GET" "/index.html")).0
      ≡ returned)
    × ((serve_http no_files option_values production static_server no_writes none
          (request "GET" "/index.html")).1.res.status
        ≢ 0)
serve_http_answers_example =
    serve_http_answers no_files option_values production static_server no_writes none
      (request "GET" "/index.html") Built-static_server (tt, tt) (unfold bind in calm_index)

abbrev panic_server : HttpServer Ctx
panic_server = use_handler panics (new_http_server no_files option_values production [])

panic_server-chains :
    panic_server.middleware_chains
    ≡ logger ∷ recovery (codes "production") (codes "main.go") ∷ panics ∷ []
unfolding use_handler new_http_server
panic_server-chains = refl

panic_server_panics :
    (inside
      (codes "production")
      (codes "main.go")
      (panics ∷ [])
      panic_server.route_registry
      (request "GET" "/")
      blank
      (some panic_server.static_options)).0
    ≡ panicked (codes "boom")
unfolding run respond run_reply use_handler new_http_server
panic_server_panics = refl

serve_http_panicked_example :
    (serve_http no_files option_values production panic_server no_writes none
      (request "GET" "/")).1.res.status
    ≡ 500
serve_http_panicked_example =
    serve_http_panicked no_files option_values production panic_server (panics ∷ []) no_writes none
      (request "GET" "/") (codes "boom") panic_server-chains
      (unfold new_response_writer in panic_server_panics)

chosen_returned : (run_route chosen (request "GET" "/users/7") fresh).0 ≡ returned
unfolding chosen run_route run finish_route respond run_reply no_content write_header
chosen_returned = refl

run_route-Answered_test : (run_route chosen (request "GET" "/users/7") fresh).1.res.status ≢ 0
run_route-Answered_test = run_route-Answered chosen (request "GET" "/users/7") fresh chosen_returned
