-- ===== src/Http/Proxy.antt =====
-- http/proxy.go: the routes that pass a request on to another server, and ProxyHTTP. What
-- httputil.ReverseProxy does once its Director has changed the request is a parameter.
pub mod Query
pub mod Routes
use magic_engine.Common.{
  if_either, ◌≡◌, refl, ◌-◌, Bool, true, false, ◌&&◌, Option, none, some, [], ◌∷◌, if◌then◌else◌,
  Bytes, codes,
}
use magic_engine.NetHttp.{Error, Try, ok, err, Request, Reply}
use magic_engine.Http.Registry.{Route}
use magic_engine.Http.Url.{Url, Values, set_value, Urls, replace_all}

-- The request that goes out, by what the Director sets of it. `host` is the Host header, none where
-- that of the request that came in stays.
pub record Outgoing : Type 0 where
  pub scheme : Bytes
  pub url_host : Bytes
  pub path : Bytes
  pub raw_query : Bytes
  pub host : Option Bytes

-- A request handed to ServeHTTP of a ReverseProxy: the answer of the other server, or the error that
-- the ErrorHandler gets.
abbrev pub Forward : Type 0
Forward = Request → Outgoing → Try Reply

abbrev pub dynamic_tag : Bytes
dynamic_tag = codes "X-Mp-Engine-Dynamic-Tag"

abbrev pub dynamic_value : Bytes
dynamic_value = codes "X-Mp-Engine-Dynamic-Value"

-- `for k, v := range values { target.Set(k, v[0]) }`
unfoldable pub set_firsts : Values → Values → Values
set_firsts [] target = target
set_firsts ((key, (value, more)) ∷ values) target = set_firsts values (set_value key value target)

-- cloneQueryValues; the copy of a nil map is an empty one.
unfoldable pub clone_query_values : Option Values → Values
clone_query_values none = []
clone_query_values (some []) = []
clone_query_values (some ((key, items) ∷ values)) = (key, items) ∷ clone_query_values (some values)

-- `if dynamicTAG != "" && dynamicValue != "" { … ReplaceAll … }`
unfoldable pub dynamic_path : Bytes → Bytes → Bytes → Bytes
unfolding replace_all
dynamic_path path [] value = path
dynamic_path path (c ∷ tag) [] = path
dynamic_path path (c ∷ tag) (d ∷ value) = replace_all path (c ∷ tag) (d ∷ value)

-- `&url.URL{}`
abbrev pub no_url : Url
no_url = record { scheme = []; host = []; path = []; raw_query = []; others = [] }

abbrev pub or_no_url : Option Url → Url
or_no_url none = no_url
or_no_url (some u) = u

-- `res.WriteHeader(http.StatusInternalServerError)`, and the text of the error
abbrev pub proxy_error : Error → Reply
proxy_error e = Reply.write_header 500 (Reply.write e (λ n w. Reply.done))

abbrev pub answered : (Error → Reply) → Try Reply → Reply
answered handler (ok r) = r
answered handler (err e) = handler e

-- The two directors of CreateProxyRoute
pub data Director : Type 0 where
  rewriting : Director
  plain : Director

abbrev pub to_target : Url → Option Bytes → Outgoing
to_target u host = record {
  scheme = u.scheme;
  url_host = u.host;
  path = u.path;
  raw_query = u.raw_query;
  host = host;
}

-- proxyRoute; the closures of its proxy refer to its targetURI.
pub record ProxyRoute : Type 0 where
  pub uri_pattern : Bytes
  pub method : Bytes
  pub target_url : Bytes
  pub rewrite_url : Bool
  pub target_uri : Option Url
  pub proxy : Option Director
  pub parse_err : Option Error

abbrev pub is_empty : Bytes → Bool
is_empty [] = true
is_empty (_ ∷ _) = false

-- `if errorHandler != nil { … }`
abbrev pub handle_error : Option (Error → Reply) → Error → Reply
handle_error none e = proxy_error e
handle_error (some handler) e = handler e

module _ (urls : Urls) where
  -- applyProxyTarget
  unfoldable pub apply_proxy_target : Option Url → Request → Url
  unfolding set_firsts dynamic_path clone_query_values
  apply_proxy_target target_uri req =
      let target = or_no_url target_uri in
      record target {
        path = dynamic_path target.path (req.header dynamic_tag) (req.header dynamic_value);
        raw_query = urls.encode (
            set_firsts (urls.parse_query req.raw_query)
              (clone_query_values (some (urls.parse_query target.raw_query))));
      }

  -- The director of newReverseProxy, with the query of the request under that of the target
  unfoldable pub reverse_proxy_director : Url → Request → Outgoing
  unfolding set_firsts
  reverse_proxy_director target req = record {
    scheme = target.scheme;
    url_host = target.host;
    path = target.path;
    raw_query =
        urls.encode
          (set_firsts (urls.parse_query target.raw_query) (urls.parse_query req.raw_query));
    host = none;
  }

  -- applyTarget
  unfoldable pub apply_target : ProxyRoute → Request → Url
  unfolding apply_proxy_target
  apply_target s req = apply_proxy_target s.target_uri req

  unfoldable pub direct : Director → ProxyRoute → Request → Outgoing
  unfolding apply_target
  direct rewriting s req = to_target (apply_target s req) none
  direct plain s req = to_target (apply_target s req) none

  -- The end of CreateProxyRoute, after url.Parse
  create_parsed : ProxyRoute → Try Url → ProxyRoute
  create_parsed s (err e) = record s { parse_err = some e }
  create_parsed s (ok u) =
      if is_empty (urls.hostname u.host)
      then record s { target_uri = some u }
      else if s.rewrite_url
      then record s { target_uri = some u; proxy = some rewriting }
      else record s { target_uri = some u; proxy = some plain }

  -- CreateProxyRoute
  unfoldable pub create_proxy_route : Bytes → Bytes → Bytes → Bool → ProxyRoute
  unfolding create_parsed
  create_proxy_route uri_pattern method target_url rewrite_url =
      create_parsed
        (record {
          uri_pattern = uri_pattern;
          method = method;
          target_url = target_url;
          rewrite_url = rewrite_url;
          target_uri = none;
          proxy = none;
          parse_err = none;
        })
        (urls.parse target_url)

  -- CreateProxyRoute keeps the pattern and the method, whatever becomes of the target.
  create_parsed_keeps :
      (s : ProxyRoute) (t : Try Url)
      → ((create_parsed s t).uri_pattern ≡ s.uri_pattern) × ((create_parsed s t).method ≡ s.method)
  unfolding create_parsed
  create_parsed_keeps s (err e) = (refl, refl)
  create_parsed_keeps s (ok u) =
      let Keeps : ProxyRoute → Type 0 =
        λ r. (r.uri_pattern ≡ s.uri_pattern) × (r.method ≡ s.method) in
      if_either Keeps (is_empty (urls.hostname u.host)) (refl, refl)
        (if_either Keeps s.rewrite_url (refl, refl) (refl, refl))

  pub create_proxy_route_keeps :
      (uri_pattern method target_url : Bytes) (rewrite_url : Bool)
      → let s = create_proxy_route uri_pattern method target_url rewrite_url in
        (s.uri_pattern ≡ uri_pattern) × (s.method ≡ method)
  unfolding create_proxy_route
  create_proxy_route_keeps uri_pattern method target_url rewrite_url =
      create_parsed_keeps
        (record {
          uri_pattern = uri_pattern;
          method = method;
          target_url = target_url;
          rewrite_url = rewrite_url;
          target_uri = none;
          proxy = none;
          parse_err = none;
        })
        (urls.parse target_url)

  module _ (forward : Forward) where
    serve_by : Option Director → ProxyRoute → Request → Reply
    serve_by none s req = Reply.write_header 500 Reply.done
    serve_by (some d) s req = answered proxy_error (forward req (direct d s req))

    proxy_parsed : Option Error → ProxyRoute → Request → Reply
    proxy_parsed (some e) s req = Reply.done
    proxy_parsed none s req =
        let target = apply_target s req in
        if is_empty (urls.hostname target.host)
        then urls.redirect req (urls.text target) 303
        else serve_by s.proxy s req

    -- proxyFun
    unfoldable pub proxy_fun : ProxyRoute → Request → Reply
    unfolding proxy_parsed serve_by direct apply_target
    proxy_fun s req = proxy_parsed s.parse_err s req

    -- The Route that a proxyRoute is
    unfoldable pub route_of_proxy : {C : Type 0} → ProxyRoute → Route C
    route_of_proxy s = record {
      pattern = s.uri_pattern;
      method = s.method;
      handler = λ ctx req. proxy_fun s req;
    }

    proxy_to : Option (Error → Reply) → Request → Try Url → Option Error × Reply
    proxy_to handler req (err e) = (some e, Reply.done)
    proxy_to handler req (ok u) =
        let target = apply_proxy_target (some u) req in
        if is_empty (urls.hostname target.host)
        then (none, urls.redirect req (urls.text target) 303)
        else (
          none,
          answered (handle_error handler) (forward req (to_target target (some target.host))),
        )

    -- ProxyHTTP: the error that it returns, and its calls on the response writer
    unfoldable pub proxy_http : Request → Bytes → Option (Error → Reply) → Option Error × Reply
    unfolding proxy_to
    proxy_http req target_url handler = proxy_to handler req (urls.parse target_url)
