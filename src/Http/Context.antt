-- ===== src/Http/Context.antt =====
-- http/context.go: the runs of a route's middleware and of the server's, each over the loop of
-- Middleware, with what stands behind the loop; and RouteRegistry.Handle of http/route.go, which
-- joins the two.
pub mod Answers
pub mod Order
use magic_engine.Common.{◌+◌, ◌-◌, Option, none, some, [], if◌then◌else◌, length}
use magic_engine.NetHttp.{Request, Reply, NetWriter, http_error, not_found}
use magic_engine.Http.Response.{
  ResponseWriter, Outcome, returned, panicked, out_of_fuel, written, run_reply,
}
use magic_engine.Http.Middleware.{Middleware, Chains, State, Act, and_then, with_res, respond, run}
use magic_engine.Http.Registry.{Route, RouteItem, Registry, select}

-- NewRequestContext and NewRouteContext: the index starts at 0.
abbrev pub new_context : {W C : Type 0} → ResponseWriter W → C → State W C
new_context res ctx = record { res = res; index = 0; context = ctx }

module _ {W C : Type 0} ⦃net : NetWriter W⦄ where
  -- `if !c.Written() { http.Error(c.baseContext.rw, "", http.StatusNoContent) }`
  unfoldable pub no_content : Act W C
  unfolding respond
  no_content s = if written s.res then (returned, s) else respond (http_error [] 204) s

  -- routeContext.Run, behind its loop
  unfoldable pub finish_route : Route C → Request → Act W C
  unfolding respond
  finish_route rt req s =
      and_then (if written s.res then (returned, s) else respond (rt.handler s.context req) s)
        no_content

  -- routeContext.Run from its start
  unfoldable pub run_route : RouteItem C → Request → Act W C
  run_route item req =
      run item.middleware_list req (finish_route item.route req) (length item.middleware_list + 1)

  abbrev pub res_of : Outcome × State W C → Outcome × ResponseWriter W
  res_of (o, s) = (o, s.res)

  -- Handle, once the item is chosen
  dispatch : Option (RouteItem C) → Request → C → ResponseWriter W → Outcome × ResponseWriter W
  dispatch none req ctx res = run_reply not_found res
  dispatch (some item) req ctx res = res_of (run_route item req (new_context res ctx))

  -- RouteRegistry.Handle
  unfoldable pub handle : Registry C → Request → C → ResponseWriter W → Outcome × ResponseWriter W
  unfolding dispatch
  handle reg req = dispatch (select reg req) req

  -- requestContext.Run, behind its loop; `none` is a nil registry.
  unfoldable pub finish_request : Option (Registry C) → Request → Act W C
  unfolding respond
  finish_request none req s = respond not_found s
  finish_request (some reg) req s =
      if written s.res
      then respond not_found s
      else and_then (with_res s (handle reg req s.context s.res)) no_content

  -- requestContext.Run from its start
  unfoldable pub run_request : Chains C → Option (Registry C) → Request → Act W C
  run_request chain registry req = run chain req (finish_request registry req) (length chain + 1)
