-- ===== src/Http/Context/Answers.antt =====
-- What the two runs of http/context.go come to: they end, and a run that returns has answered.
use magic_engine.Common.{
  ℕ, zero, suc, ◌+◌, ◌≡◌, ◌≢◌, inl, inr, true, Option, none, some, [], arith, if◌then◌else◌,
  Bool-cases, Option-cases, length, get_elem?, codes,
}
use magic_engine.NetHttp.{Request, NetWriter, http_error, not_found}
use magic_engine.Http.Response.{ResponseWriter, Outcome, returned, panicked, out_of_fuel, written}
use magic_engine.Http.Response.Laws.{run_reply-ne-out_of_fuel, status-http_error}
use magic_engine.Http.Middleware.{
  Chains, State, Act, bump, and_then, with_res, respond, exec, resume, run,
}
use magic_engine.Http.Middleware.Fuel.{NoRuns, Ends, and_then-Ends, respond-Ends, run-Ends}
use magic_engine.Http.Registry.{Route, RouteItem, Registry, select}
use magic_engine.Http.Context.{
  new_context, no_content, finish_route, run_route, handle, finish_request, run_request,
}

pub written-ne-zero : {W : Type 0} (res : ResponseWriter W) → written res ≡ true → res.status ≢ 0
written-ne-zero res h = ground arith

-- The route that is chosen for the request has no middleware that calls ctx.Run().
abbrev pub CalmRoutes : {C : Type 0} → Option (Registry C) → Request → Type 0
CalmRoutes none req = Unit
CalmRoutes {C} (some reg) req =
    (item : RouteItem C) → select reg req ≡ some item → NoRuns req item.middleware_list

module _ {W C : Type 0} ⦃net : NetWriter W⦄ where
  no_content-Ends : (s : State W C) → Ends s.index (no_content s)
  unfolding no_content
  no_content-Ends s = elim (Bool-cases (written s.res)) [
    | inl over ↦ rw over ((λ e. cc), omega arith)
    | inr on ↦ rw on (respond-Ends (http_error [] 204) s)
  ]

  pub finish_route-Ends :
      (rt : Route C) (req : Request) (s : State W C) → Ends s.index (finish_route rt req s)
  unfolding finish_route
  finish_route-Ends rt req s =
      and_then-Ends s.index _ no_content handled
        (λ t l. let (n, e) = no_content-Ends t in (n, omega arith))
    where
      handled :
          Ends s.index
            (if written s.res then (returned, s) else respond (rt.handler s.context req) s)
      handled = elim (Bool-cases (written s.res)) [
        | inl over ↦ rw over ((λ e. cc), omega arith)
        | inr on ↦ rw on (respond-Ends (rt.handler s.context req) s)
      ]

  pub run_route-Ends :
      (item : RouteItem C) (req : Request) (s : State W C)
      → NoRuns req item.middleware_list
      → Ends s.index (run_route item req s)
  unfolding run_route
  run_route-Ends item req s calm =
      run-Ends item.middleware_list req (finish_route item.route req)
        (finish_route-Ends item.route req) calm (length item.middleware_list + 1) s (omega arith)

  handle-ne-out_of_fuel :
      (reg : Registry C) (req : Request) (ctx : C) (res : ResponseWriter W)
      → CalmRoutes (some reg) req
      → (handle reg req ctx res).0 ≢ out_of_fuel
  unfolding handle
  handle-ne-out_of_fuel reg req ctx res calm = elim (Option-cases (select reg req)) [
    | inl missing ↦ rw missing (run_reply-ne-out_of_fuel not_found res)
    | inr (item, found) ↦
        rw found (run_route-Ends item req (new_context res ctx) (calm item found)).0
  ]

  pub finish_request-Ends :
      (registry : Option (Registry C)) (req : Request) (s : State W C)
      → CalmRoutes registry req
      → Ends s.index (finish_request registry req s)
  unfolding finish_request
  finish_request-Ends none req s calm = respond-Ends not_found s
  finish_request-Ends (some reg) req s calm = elim (Bool-cases (written s.res)) [
    | inl over ↦ rw over (respond-Ends not_found s)
    | inr on ↦ rw on (
        and_then-Ends s.index (with_res s (handle reg req s.context s.res)) no_content
          (handle-ne-out_of_fuel reg req s.context s.res calm, omega arith)
          (λ t l. let (n, e) = no_content-Ends t in (n, omega arith)))
  ]

  -- The server's run of a request ends, whatever the chain, the registry and the request are, as long
  -- as neither a middleware of the chain nor one of the chosen route calls ctx.Run() on it.
  pub run_request-Ends :
      (chain : Chains C) (registry : Option (Registry C)) (req : Request) (s : State W C)
      → NoRuns req chain
      → CalmRoutes registry req
      → Ends s.index (run_request chain registry req s)
  unfolding run_request
  run_request-Ends chain registry req s calm routes =
      run-Ends chain req (finish_request registry req)
        (λ t. finish_request-Ends registry req t routes) calm (length chain + 1) s (omega arith)

  -- An end that answered: a normal return with a status code.
  abbrev pub Answered : Outcome × State W C → Type 0
  Answered r = r.0 ≡ returned → r.1.res.status ≢ 0

  and_then-Answered :
      (r : Outcome × State W C) (k : Act W C)
      → ((t : State W C) → Answered (k t))
      → Answered (and_then r k)
  and_then-Answered (returned, s) k f = f s
  and_then-Answered (panicked m, s) k f = λ e. cc
  and_then-Answered (out_of_fuel, s) k f = λ e. cc

  no_content-Answered : (s : State W C) → Answered (no_content s)
  unfolding no_content respond
  no_content-Answered s = ground (arith, (status-http_error [] 204 s.res (omega arith)).1)

  not_found-Answered : (s : State W C) → Answered (respond not_found s)
  unfolding respond not_found
  not_found-Answered s =
      ground (arith, (status-http_error (codes "404 page not found") 404 s.res (omega arith)).1)

  resume-Answered :
      (chain : Chains C) (req : Request) (finish rest : Act W C) (t : State W C)
      → ((u : State W C) → Answered (rest u))
      → Answered (resume chain req finish rest t)
  resume-Answered chain req finish rest t f = elim (Bool-cases (written t.res)) [
    | inl over ↦ rw over (λ e. written-ne-zero t.res over)
    | inr on ↦ rw on (f (bump t))
  ]

  -- If what stands behind the loop answers, then every run that returns has answered.
  pub run-Answered :
      (chain : Chains C) (req : Request) (finish : Act W C)
      → ((t : State W C) → Answered (finish t))
      → (fuel : ℕ) (s : State W C) → Answered (run chain req finish fuel s)
  unfolding run
  run-Answered chain req finish f zero s = λ e. cc
  run-Answered chain req finish f (suc fuel) s = elim (Option-cases (get_elem? chain s.index)) [
    | inl past ↦ rw past (f s)
    | inr (m, here) ↦ rw here (
        and_then-Answered (exec (run chain req finish fuel) (m req) s)
          (resume chain req finish (run chain req finish fuel))
          (λ t.
            resume-Answered chain req finish (run chain req finish fuel) t
              (run-Answered chain req finish f fuel)))
  ]

  pub finish_request-Answered :
      (registry : Option (Registry C)) (req : Request) (s : State W C)
      → Answered (finish_request registry req s)
  unfolding finish_request
  finish_request-Answered none req s = not_found-Answered s
  finish_request-Answered (some reg) req s = elim (Bool-cases (written s.res)) [
    | inl over ↦ rw over (not_found-Answered s)
    | inr on ↦ rw on (
        and_then-Answered (with_res s (handle reg req s.context s.res)) no_content
          no_content-Answered)
  ]

  -- Whatever the middleware and the handlers do, a run of a request that returns has written a
  -- response.
  pub run_request-Answered :
      (chain : Chains C) (registry : Option (Registry C)) (req : Request) (s : State W C)
      → (run_request chain registry req s).0 ≡ returned
      → (run_request chain registry req s).1.res.status ≢ 0
  unfolding run_request
  run_request-Answered chain registry req s =
      run-Answered chain req (finish_request registry req) (finish_request-Answered registry req)
        (length chain + 1) s

  -- A run of a route's own middleware and handler that returns has left a written response.
  pub run_route-Answered :
      (item : RouteItem C) (req : Request) (s : State W C)
      → (run_route item req s).0 ≡ returned
      → (run_route item req s).1.res.status ≢ 0
  unfolding run_route finish_route
  run_route-Answered item req s =
      run-Answered item.middleware_list req (finish_route item.route req)
        (λ t. and_then-Answered _ no_content no_content-Answered) (length item.middleware_list + 1)
        s
