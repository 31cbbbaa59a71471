-- ===== src/Http/RouteTests.antt =====
-- The theorems on patterns and on the routes of proxies and uploads at concrete inputs.
use magic_engine.Common.{
  ℕ, ◌≡◌, refl, ◌↔◌, true, none, some, List, [], ◌∷◌, ◌++◌, if◌then◌else◌, Bytes, codes, bytes_eq,
  lookup,
}
use magic_engine.NetHttp.{ok, err, Request, Reply}
use magic_engine.Http.Response.{returned}
use magic_engine.Http.Middleware.{State}
use magic_engine.Http.Context.{new_context, run_route}
use magic_engine.Http.Pattern.{Token, lit, param, tokens, match, PatternFilter}
use magic_engine.Http.Pattern.Language.{Describes, match_iff}
use magic_engine.Http.Registry.{RouteItem}
use magic_engine.Http.RegistryTests.{recorder}
use magic_engine.Http.Url.{Url, Values, Urls}
use magic_engine.Http.Proxy.{
  Forward, dynamic_tag, dynamic_value, proxy_error, handle_error, apply_proxy_target,
  reverse_proxy_director, create_proxy_route, proxy_fun, route_of_proxy, proxy_http,
}
use magic_engine.Http.Proxy.Query.{Unique, over, apply_proxy_target-query}
use magic_engine.Http.Proxy.Routes.{
  pass_on, error_of, proxy_fun-create_proxy_route, run_route-create_proxy_route,
}

-- `/u/:id`
abbrev user_tokens : List Token
user_tokens = lit b'/' ∷ lit b'u' ∷ lit b'/' ∷ param (codes "id") ∷ []

match_iff_example :
    (match (tokens user_tokens) (codes "/u/7/") ≡ true) ↔ Describes user_tokens (codes "/u/7/") []
match_iff_example = match_iff user_tokens (codes "/u/7/")

user_matches : match (tokens user_tokens) (codes "/u/7/") ≡ true
unfolding match
user_matches = refl

-- Queries of one key, of one byte, at most: `a=1`
abbrev parse_query : Bytes → Values
parse_query [] = []
parse_query (k ∷ []) = []
parse_query (k ∷ _ ∷ v) = (k ∷ [], (v, [])) ∷ []

abbrev encode : Values → Bytes
encode [] = []
encode ((k, (v, _)) ∷ values) = k ++ (61 ∷ (v ++ (b'&' ∷ encode values)))

abbrev urls : Urls
urls = record {
  parse = λ s.
      if bytes_eq s (codes ":")
      then err (codes "missing protocol scheme")
      else ok (record {
        scheme = codes "http";
        host = codes "h";
        path = s;
        raw_query = codes "b=2";
        others = [];
      });
  parse_query = parse_query;
  encode = encode;
  hostname = λ host. host;
  text = λ u. u.path;
  redirect = λ req target code. Reply.write_header code Reply.done;
}

abbrev target : Url
target = record {
  scheme = codes "http";
  host = codes "h";
  path = codes "/v/ID";
  raw_query = codes "b=2";
  others = [];
}

abbrev asks : Request
asks = record {
  method = codes "GET";
  path = codes "/u/7";
  raw_query = codes "a=1";
  header = λ key.
      if bytes_eq key dynamic_tag
      then codes "ID"
      else if bytes_eq key dynamic_value
      then codes "7"
      else [];
  remote_addr = [];
}

parse_query-Unique : (query : Bytes) → Unique (parse_query query)
unfolding lookup
parse_query-Unique [] = tt
parse_query-Unique (k ∷ []) = tt
parse_query-Unique (k ∷ c ∷ v) = (refl, tt)

apply_proxy_target-query_example :
    let u : Url = apply_proxy_target urls (some target) asks in
    (u.scheme ≡ target.scheme)
    × (u.host ≡ target.host)
    × (sent : Values) × (u.raw_query ≡ encode sent)
    × ((key : Bytes)
        → lookup key sent
          ≡ over (lookup key (parse_query (codes "a=1"))) (lookup key (parse_query (codes "b=2"))))
    × (directed : Values) × ((reverse_proxy_director urls target asks).raw_query ≡ encode directed)
    × ((key : Bytes)
        → lookup key directed
          ≡ over (lookup key (parse_query (codes "b=2"))) (lookup key (parse_query (codes "a=1"))))
apply_proxy_target-query_example = apply_proxy_target-query urls parse_query-Unique target asks

-- A server that answers with 200 at one path, and is gone at others
abbrev forward : Forward
forward req out =
    if bytes_eq out.path (codes "/ok")
    then ok (Reply.write_header 200 Reply.done)
    else err (codes "gone")

proxy_fun-create_proxy_route_example :
    (proxy_fun urls forward
        (create_proxy_route urls (codes "/p") (codes "GET") (codes "/ok") true)
        asks
      ≡ pass_on urls forward (λ u. none) proxy_error (urls.parse (codes "/ok")) asks)
    × (proxy_http urls forward asks (codes "/ok") none ≡ (
      error_of (urls.parse (codes "/ok")),
      pass_on urls forward (λ u. some u.host) (handle_error none) (urls.parse (codes "/ok")) asks,
    ))
proxy_fun-create_proxy_route_example =
    proxy_fun-create_proxy_route urls forward (codes "/p") (codes "GET") (codes "/ok") true none
      asks

abbrev any_filter : PatternFilter
any_filter = tokens []

abbrev blank : State (List ℕ) Unit
blank = new_context (record { inner = []; status = 0; size = 0 }) tt

abbrev lost_item : RouteItem Unit
lost_item = record {
  version_prefix = [];
  route =
      route_of_proxy urls forward
        (create_proxy_route urls (codes "/p") (codes "GET") (codes ":") true);
  middleware_list = [];
  pattern_filter = any_filter;
}

run_route-create_proxy_route_example :
    ((run_route lost_item asks blank).0 ≡ returned)
    × ((run_route lost_item asks blank).1.res.status ≡ 204)
unfolding bytes_eq
run_route-create_proxy_route_example =
    run_route-create_proxy_route urls forward (codes "/p") (codes "GET") (codes ":") true
      (codes "missing protocol scheme") [] any_filter asks blank refl refl
