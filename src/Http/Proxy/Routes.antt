-- ===== src/Http/Proxy/Routes.antt =====
-- What a proxy route answers, and ProxyHTTP.
use magic_engine.Common.{
  ◌≡◌, refl, ◌∙◌, inl, inr, Bool, true, false, Option, none, some, [], arith, if◌then◌else◌,
  Bool-cases, Bytes,
}
use magic_engine.NetHttp.{Error, Try, ok, err, Request, Reply, NetWriter}
use magic_engine.Http.Response.{returned, written, run_reply}
use magic_engine.Http.Registry.{RouteItem}
use magic_engine.Http.Pattern.{PatternFilter}
use magic_engine.Http.Middleware.{State, respond, run}
use magic_engine.Http.Response.Laws.{status-http_error}
use magic_engine.Http.Context.{no_content, finish_route, run_route}
use magic_engine.Http.Url.{Url, Urls}
use magic_engine.Http.Proxy.{
  Forward, apply_proxy_target, apply_target, proxy_error, answered, to_target, ProxyRoute, is_empty,
  create_parsed, create_proxy_route, direct, serve_by, proxy_parsed, proxy_fun, route_of_proxy,
  handle_error, proxy_to, proxy_http,
}

abbrev pub error_of : Try Url → Option Error
error_of (err e) = some e
error_of (ok u) = none

module _ (urls : Urls) (forward : Forward) where
  -- A request to a target, with the Host header that goes out: a redirect where the target names no
  -- host, else the answer of the other server, or of the handler of errors
  abbrev pub pass_on : (Url → Option Bytes) → (Error → Reply) → Try Url → Request → Reply
  pass_on host handler (err e) req = Reply.done
  pass_on host handler (ok u) req =
      let target = apply_proxy_target urls (some u) req in
      if is_empty (urls.hostname u.host)
      then urls.redirect req (urls.text target) 303
      else answered handler (forward req (to_target target (host u)))

  abbrev unparsed : Bytes → Bytes → Bytes → Bool → ProxyRoute
  unparsed uri_pattern method target_url rewrite_url = record {
    uri_pattern = uri_pattern;
    method = method;
    target_url = target_url;
    rewrite_url = rewrite_url;
    target_uri = none;
    proxy = none;
    parse_err = none;
  }

  module _ (p m t : Bytes) (req : Request) where
    proxy_parsed-create_parsed :
        (rewrite_url : Bool) (u : Try Url)
        → let s : ProxyRoute = create_parsed urls (unparsed p m t rewrite_url) u in
          proxy_parsed urls forward s.parse_err s req ≡ pass_on (λ u. none) proxy_error u req
    unfolding create_parsed proxy_parsed serve_by direct apply_target apply_proxy_target
    proxy_parsed-create_parsed b (err e) = refl
    proxy_parsed-create_parsed true (ok u) = elim (Bool-cases (is_empty (urls.hostname u.host))) [
      | inl nowhere ↦ rw nowhere (rw nowhere refl)
      | inr there ↦ rw there (rw there refl)
    ]
    proxy_parsed-create_parsed false (ok u) = elim (Bool-cases (is_empty (urls.hostname u.host))) [
      | inl nowhere ↦ rw nowhere (rw nowhere refl)
      | inr there ↦ rw there (rw there refl)
    ]

    proxy_to-pass_on :
        (handler : Option (Error → Reply)) (u : Try Url)
        → proxy_to urls forward handler req u
          ≡ (error_of u, pass_on (λ v. some v.host) (handle_error handler) u req)
    unfolding proxy_to apply_proxy_target
    proxy_to-pass_on handler (err e) = refl
    proxy_to-pass_on handler (ok u) = elim (Bool-cases (is_empty (urls.hostname u.host))) [
      | inl nowhere ↦ rw nowhere refl
      | inr there ↦ rw there refl
    ]

  -- A route of CreateProxyRoute, with rewriteURL or without, does the same: nothing where its target
  -- is no URL; a redirect with status 303 to the adapted target where that names no host; and else it
  -- passes the request on and answers an error with status 500 and its text. ProxyHTTP does the same
  -- with the Host of the target, its own handler of errors, and the error of the parsing returned.
  pub proxy_fun-create_proxy_route :
      (uri_pattern method target_url : Bytes) (rewrite_url : Bool)
      (handler : Option (Error → Reply)) (req : Request)
      → (proxy_fun urls forward
            (create_proxy_route urls uri_pattern method target_url rewrite_url)
            req
          ≡ pass_on (λ u. none) proxy_error (urls.parse target_url) req)
        × (proxy_http urls forward req target_url handler ≡ (
          error_of (urls.parse target_url),
          pass_on (λ u. some u.host) (handle_error handler) (urls.parse target_url) req,
        ))
  unfolding proxy_fun create_proxy_route proxy_http
  proxy_fun-create_proxy_route uri_pattern method target_url rewrite_url handler req = (
    proxy_parsed-create_parsed uri_pattern method target_url req rewrite_url
        (urls.parse target_url),
    proxy_to-pass_on uri_pattern method target_url req handler (urls.parse target_url),
  )

  -- A proxy route whose target is no URL, without middleware of its own, on a response that is not
  -- written yet: the client gets status 204, as for a success without content.
  pub run_route-create_proxy_route :
      {W C : Type 0} ⦃net : NetWriter W⦄ (uri_pattern method target_url : Bytes)
      (rewrite_url : Bool) (e : Error) (version : Bytes) (filter : PatternFilter) (req : Request)
      (s : State W C)
      → urls.parse target_url ≡ err e
      → written s.res ≡ false
      → let item : RouteItem C = record {
        version_prefix = version;
        route =
            route_of_proxy urls forward
              (create_proxy_route urls uri_pattern method target_url rewrite_url);
        middleware_list = [];
        pattern_filter = filter;
      } in
        ((run_route item req s).0 ≡ returned) × ((run_route item req s).1.res.status ≡ 204)
  unfolding run_route run finish_route no_content respond route_of_proxy run_reply
  run_route-create_proxy_route {W} {C} p m t b e version filter req s bad open_ =
      let nothing : proxy_fun urls forward (create_proxy_route urls p m t b) req ≡ Reply.done =
        (proxy_fun-create_proxy_route p m t b none req).0 ∙ rw bad refl in
      rw (open_, nothing) (rw open_ (status-http_error [] 204 s.res (omega arith)))
