-- ===== src/Http/Server.antt =====
-- http/http_server.go: the server, its options, and ServeHTTP. What listens for Run is a
-- parameter: a request is a call of `serve_http`. The registry is the one bound at the time.
pub mod Safe
use magic_engine.Common.{
  Bool, false, Option, none, some, List, [], ◌∷◌, if◌then◌else◌, Bytes, codes,
}
use magic_engine.NetHttp.{Request, NetWriter}
use magic_engine.Http.Response.{Outcome, new_response_writer}
use magic_engine.Http.Middleware.{Chains, Middleware, State, new_chains, append_handler}
use magic_engine.Http.Registry.{Registry}
use magic_engine.Http.Context.{new_context, run_request}
use magic_engine.Http.Static.{StaticOptions, Files, ContextValues, static_middleware}
use magic_engine.Http.Recovery.{logger, recovery}

-- httpServer
pub record HttpServer (C : Type 0) : Type 0 where
  pub listen_addr : Bytes
  pub route_registry : Option (Registry C)
  pub middleware_chains : Chains C
  pub static_options : StaticOptions
  pub enable_static : Bool

-- The options that the package exports: WithPort, WithStatic and WithStaticEnabled.
pub data ServerOption : Type 0 where
  with_port : Bytes → ServerOption
  with_static : Bytes → Bytes → Bytes → ServerOption
  with_static_enabled : Bool → ServerOption

abbrev pub static_at : Bytes → Bytes → Bytes → StaticOptions
static_at root prefix exclude = record {
  root_path = root;
  prefix_uri = prefix;
  skip_logging = false;
  index_file = [];
  expires = none;
  fallback = [];
  exclude_uri = exclude;
}

module _ {C : Type 0} where
  -- What the function of an option does to the server
  unfoldable pub apply_option : ServerOption → HttpServer C → HttpServer C
  apply_option (with_port port) s = record s { listen_addr = b':' ∷ port }
  apply_option (with_static root prefix exclude) s = record s {
    static_options = static_at root prefix exclude;
  }
  apply_option (with_static_enabled enabled) s = record s { enable_static = enabled }

  unfoldable pub apply_options : List ServerOption → HttpServer C → HttpServer C
  unfolding apply_option
  apply_options [] s = s
  apply_options (opt ∷ opts) s = apply_options opts (apply_option opt s)

  -- Use
  unfoldable pub use_handler : Middleware C → HttpServer C → HttpServer C
  unfolding append_handler
  use_handler handler s = record s {
    middleware_chains = append_handler s.middleware_chains handler;
  }

  -- Bind
  unfoldable pub bind : Registry C → HttpServer C → HttpServer C
  bind reg s = record s { route_registry = some reg }

  default_server : HttpServer C
  unfolding new_chains
  default_server = record {
    listen_addr = codes ":8080";
    route_registry = none;
    middleware_chains = new_chains;
    static_options = static_at (codes "./static") (codes "/static") (codes "/api/");
    enable_static = false;
  }

-- What the package reads of its surroundings: `Env`, `Root`, and the text of a stack.
pub record Surroundings : Type 0 where
  pub env : Bytes
  pub root : Bytes
  pub stack : Bytes

module _ {F C : Type 0} (files : Files F) (values : ContextValues C) (sur : Surroundings) where
  -- NewHTTPServer
  unfoldable pub new_http_server : List ServerOption → HttpServer C
  unfolding apply_options use_handler default_server
  new_http_server opts =
      let svr =
        use_handler (recovery sur.env sur.stack)
          (use_handler logger (apply_options opts default_server)) in
      if svr.enable_static
      then use_handler (static_middleware files values sur.root sur.root []) svr
      else svr

  -- ServeHTTP, for a request with its own context
  unfoldable pub serve_http :
      {W : Type 0} ⦃net : NetWriter W⦄ → HttpServer C → W → C → Request → Outcome × State W C
  serve_http s w ctx req =
      run_request s.middleware_chains s.route_registry req
        (new_context (new_response_writer w) (values.with_static s.static_options ctx))

  -- Run: http.ListenAndServe, which is a parameter, gets the address and the server as its handler.
  unfoldable pub run_server :
      {W A : Type 0} ⦃net : NetWriter W⦄
      → (Bytes → (W → C → Request → Outcome × State W C) → A)
      → HttpServer C
      → A
  unfolding serve_http
  run_server listen_and_serve s = listen_and_serve s.listen_addr (serve_http s)
