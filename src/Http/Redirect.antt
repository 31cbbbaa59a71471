-- ===== src/Http/Redirect.antt =====
-- http/redirect.go: the route that answers with a redirect.
use magic_engine.Common.{Bytes}
use magic_engine.Http.Registry.{Route}
use magic_engine.Http.Url.{Urls}

-- CreateRedirectRoute, and the three methods of redirectRoute
unfoldable pub create_redirect_route : {C : Type 0} → Urls → Bytes → Bytes → Bytes → Route C
create_redirect_route urls uri_pattern method redirect_pattern = record {
  pattern = uri_pattern;
  method = method;
  handler = λ ctx req. urls.redirect req redirect_pattern 303;
}
