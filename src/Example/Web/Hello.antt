-- ===== src/Example/Web/Hello.antt =====
-- example/http: what the server answers.
use magic_engine.Common.{
  ◌≡◌, refl, ap₂, ◌∙◌, true, false, some, List, [], ◌∷◌, Bytes, codes, lookup, assign, to_upper,
}
use magic_engine.NetHttp.{Request, Reply, NetWriter}
use magic_engine.Http.Response.{
  Outcome, returned, new_response_writer, run_reply, write, write_header, header_set,
}
use magic_engine.Http.Middleware.{State, run, exec, respond, new_chains, append_handler}
use magic_engine.Http.Context.{
  run_request, finish_request, handle, run_route, finish_route, no_content,
}
use magic_engine.Http.Recovery.{logger, recovery}
use magic_engine.Http.Pattern.{Regexp, Token, lit, param, tokens, match, new_pattern_filter}
use magic_engine.Http.Pattern.Language.{Describes, match_iff}
use magic_engine.Http.Registry.{
  Route, RouteItem, Registry, new_registry, add_route, select, item_of, check_duplicate_route,
}
use magic_engine.Http.Static.{Files, ContextValues}
use magic_engine.Http.Url.{Urls}
use magic_engine.Http.Proxy.{Forward, create_proxy_route, create_proxy_route_keeps, route_of_proxy}
use magic_engine.Http.Server.{
  HttpServer, Surroundings, serve_http, new_http_server, use_handler, bind, apply_options,
  apply_option,
}
use magic_engine.Example.Web.{
  middleware_hello, Calls, get_route, get_route2, hello_middleware_route, append_routes,
  example_server, then_do,
}

-- The tokens of "/hello/:id" and "/demo/:id"
abbrev pub hello_tokens : List Token
hello_tokens =
    lit b'/'
    ∷ lit b'h'
    ∷ lit b'e'
    ∷ lit b'l'
    ∷ lit b'l'
    ∷ lit b'o'
    ∷ lit b'/'
    ∷ param (codes "id")
    ∷ []

abbrev pub demo_tokens : List Token
demo_tokens =
    lit b'/' ∷ lit b'd' ∷ lit b'e' ∷ lit b'm' ∷ lit b'o' ∷ lit b'/' ∷ param (codes "id") ∷ []

not_demo : (path : Bytes) → Describes hello_tokens path [] → match (tokens demo_tokens) path ≡ false
unfolding match
not_demo path (Describes.literal (Describes.literal h)) = refl

module _ {C : Type 0} (urls : Urls) (forward : Forward) (calls : Calls C) (regexp : Regexp) where
  hello_item : RouteItem C
  unfolding item_of
  hello_item = item_of [] get_route2 [] (tokens hello_tokens)

  -- The routes of Append, the last with any pattern, method and handler
  abbrev routes_with : Bytes → Bytes → (C → Request → Reply) → Registry C
  routes_with pattern method handler =
      (then_do
        (then_do
          (add_route regexp (get_route calls) (hello_middleware_route calls ∷ []) new_registry)
          (add_route regexp get_route2 []))
        (add_route regexp (record { pattern = pattern; method = method; handler = handler }) [])).1

  select-routes_with :
      (req : Request) (handler : C → Request → Reply)
      → Describes hello_tokens req.path []
      → to_upper req.method ≡ codes "GET"
      → select (routes_with (codes "/proxy/abc") (codes "GET") handler) req ≡ some hello_item
  unfolding select new_registry add_route get_route get_route2 hello_item item_of lookup assign
      new_pattern_filter check_duplicate_route
  select-routes_with req handler h m =
      let d = not_demo req.path h in
      let t = (match_iff hello_tokens req.path).1 h in rw (m, d, t) refl

  select-hello :
      (req : Request)
      → Describes hello_tokens req.path []
      → to_upper req.method ≡ codes "GET"
      → select (append_routes urls forward calls regexp new_registry).1 req ≡ some hello_item
  unfolding append_routes route_of_proxy
  select-hello req h m =
      let target : Bytes = codes "http://127.0.0.1:8010/demo/12?ab=12" in
      let (p, g) = create_proxy_route_keeps urls (codes "/proxy/abc") (codes "GET") target true in
      let rt : Route C =
        route_of_proxy urls forward
          (create_proxy_route urls (codes "/proxy/abc") (codes "GET") target true) in
      ap₂ (λ x y. select (routes_with x y rt.handler) req) p g
      ∙ select-routes_with req rt.handler h m

  module _ {F W : Type 0} ⦃net : NetWriter W⦄ (files : Files F) (values : ContextValues C)
      (sur : Surroundings) where
    -- A request to the example server whose method is GET in any case and whose path is described by
    -- "/hello/:id", whatever its writer, context and the engine of package regexp: the five
    -- middlewares and the route return, one status is written, 200, then the Content-Type is set, too
    -- late, and one body written; the server's response has the status 200; and the context is again
    -- the one from before the middlewares.
    pub serve_http-hello :
        (w : W) (ctx : C) (req : Request)
        → Describes hello_tokens req.path []
        → to_upper req.method ≡ codes "GET"
        → let s : HttpServer C = example_server files values sur urls forward calls regexp in
          let r : Outcome × State W C = serve_http files values sur s w ctx req in
          (r.0 ≡ returned)
          × (r.1.res.inner
              ≡ (net.write
                  (net.set_header
                    (net.write_header w 200)
                    (codes "Content-Type")
                    (some (codes "text/plain; charset=utf-8")))
                  (codes "getDemo....")).0)
          × (r.1.res.status ≡ 200)
          × (r.1.context ≡ values.with_static s.static_options ctx)
    unfolding example_server serve_http new_http_server use_handler append_handler bind new_chains
        apply_options apply_option run_request run exec logger recovery middleware_hello
        finish_request handle run_route finish_route no_content respond run_reply write write_header
        header_set new_response_writer get_route2 hello_item item_of
    serve_http-hello w ctx req h m = rw (select-hello req h m) (refl, refl, refl, refl)
