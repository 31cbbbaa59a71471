-- ===== src/Example/Web.antt =====
-- example/http: a server with a middleware of its own, three routes, one of them with a middleware,
-- and one a proxy. The context key and what magicCommon writes for an error are parameters.
pub mod Hello
use magic_engine.Common.{◌-◌, ◌/◌, true, some, [], ◌∷◌, Bytes, codes}
use magic_engine.NetHttp.{Reply}
use magic_engine.Http.Pattern.{Regexp}
use magic_engine.Http.Response.{Outcome, returned, panicked, out_of_fuel}
use magic_engine.Http.Middleware.{Code, Middleware}
use magic_engine.Http.Registry.{Route, Registry, new_registry, add_route}
use magic_engine.Http.Static.{Files, ContextValues}
use magic_engine.Http.Url.{Urls}
use magic_engine.Http.Proxy.{Forward, create_proxy_route, route_of_proxy}
use magic_engine.Http.Server.{
  HttpServer, ServerOption, Surroundings, use_handler, bind, new_http_server,
}

-- What the program calls outside: context.WithValue at helloKey{}, and PackageHTTPResponseWithStatusCode
-- of magicCommon with the status 200 and its error
pub record Calls (C : Type 0) : Type 0 where
  pub with_hello : Bytes → C → C
  pub package_response : Reply

-- http.ResponseWriter in hello.go's second route, and in test.go
abbrev pub plain_text : Bytes → Reply
plain_text body = Reply.write_header 200 (
    Reply.set_header (codes "Content-Type") (some (codes "text/plain; charset=utf-8"))
      (Reply.write body (λ n e. Reply.done)))

module _ {C : Type 0} (calls : Calls C) where
  -- MiddleWareHandle of MiddleWareHello and HelloMiddleWareRoute, with the value that they set
  abbrev pub hello_around : Bytes → Middleware C
  hello_around value req =
      Code.context
        (λ cur. Code.update (calls.with_hello value cur) (Code.next (Code.update cur Code.done)))

  unfoldable pub middleware_hello : Middleware C
  middleware_hello = hello_around (codes "1234")

  unfoldable pub hello_middleware_route : Middleware C
  hello_middleware_route = hello_around (codes "abcd")

  -- getRoute
  unfoldable pub get_route : Route C
  get_route = record {
    pattern = codes "/demo/:id";
    method = codes "GET";
    handler = λ ctx req. calls.package_response;
  }

-- getRoute2
unfoldable pub get_route2 : {C : Type 0} → Route C
get_route2 = record {
  pattern = codes "/hello/:id";
  method = codes "GET";
  handler = λ ctx req. plain_text (codes "getDemo....");
}

-- Test.Handle
unfoldable pub test_handle : Reply
test_handle = plain_text (codes "test world")

-- One call after the other, up to a panic
abbrev pub then_do : {S : Type 0} → Outcome × S → (S → Outcome × S) → Outcome × S
then_do (returned, s) k = k s
then_do (panicked m, s) k = (panicked m, s)
then_do (out_of_fuel, s) k = (out_of_fuel, s)

module _ {C : Type 0} (urls : Urls) (forward : Forward) (calls : Calls C) where
  -- Append
  unfoldable pub append_routes : Regexp → Registry C → Outcome × Registry C
  unfolding hello_middleware_route get_route get_route2 add_route route_of_proxy create_proxy_route
  append_routes regexp reg =
      then_do
        (then_do (add_route regexp (get_route calls) (hello_middleware_route calls ∷ []) reg)
          (add_route regexp get_route2 []))
        (add_route regexp
          (route_of_proxy urls forward (
            create_proxy_route urls (codes "/proxy/abc") (codes "GET")
              (codes "http://127.0.0.1:8010/demo/12?ab=12") true))
          [])

module _ {F C : Type 0} (files : Files F) (values : ContextValues C) (sur : Surroundings)
    (urls : Urls) (forward : Forward) (calls : Calls C) where
  -- main, up to Run
  unfoldable pub example_server : Regexp → HttpServer C
  unfolding append_routes new_registry new_http_server bind use_handler middleware_hello
  example_server regexp = use_handler (middleware_hello calls) (
      use_handler (middleware_hello calls) (
        use_handler (middleware_hello calls) (
          bind (append_routes urls forward calls regexp new_registry).1
            (new_http_server files values sur (ServerOption.with_port (codes "8010") ∷ [])))))
