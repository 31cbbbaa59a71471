-- ===== src/Http/Context/Order.antt =====
-- The order in which the loop of Run calls a chain, and what ctx.Next() does at its end.
use magic_engine.Common.{
  ℕ, zero, suc, ◌+◌, ◌<◌, ◌≡◌, refl, sym, ap, ◌∙◌, inl, inr, Bool, true, Option, none, some, [],
  ◌∷◌, ◌++◌, append_assoc, arith, if◌then◌else◌, Bool-cases, length, get_elem?, length-append,
  get_elem?-append_self, get_elem?-past, All, Bytes, codes,
}
use magic_engine.NetHttp.{Request, Reply, NetWriter, not_found}
use magic_engine.Http.Response.{ResponseWriter, Outcome, returned, panicked, out_of_fuel, written}
use magic_engine.Http.Response.Laws.{status-http_error}
use magic_engine.Http.Middleware.{
  Code, done, reply, next, rerun, update, context, written_then, status_then, recovering, Chains,
  Middleware, State, Act, bump, and_then, respond, or_recover, exec, resume, run,
}
use magic_engine.Http.Registry.{RouteItem, Registry}
use magic_engine.Http.Context.{new_context, handle, finish_request, finish_route, run_route}

-- The body never calls ctx.Next() or ctx.Run().
abbrev pub NoNext : {C : Type 0} → Code C → Type 0
NoNext done = Unit
NoNext (reply r k) = NoNext k
NoNext (next k) = ⊥
NoNext (rerun k) = ⊥
NoNext (update c k) = NoNext k
NoNext {C} (context k) = (c : C) → NoNext (k c)
NoNext (written_then k) = (b : Bool) → NoNext (k b)
NoNext (status_then k) = (n : ℕ) → NoNext (k n)
NoNext (recovering body h k) = NoNext body × NoNext k

module _ {W C : Type 0} ⦃net : NetWriter W⦄ where
  finish_written :
      (registry : Option (Registry C)) (req : Request) (s : State W C)
      → written s.res ≡ true
      → ((finish_request registry req s).0 ≡ returned)
        × ((finish_request registry req s).1.res.status ≡ 404)
  unfolding finish_request respond not_found
  finish_written none req s w =
      status-http_error (codes "404 page not found") 404 s.res (omega arith)
  finish_written (some reg) req s w =
      rw w (status-http_error (codes "404 page not found") 404 s.res (omega arith))

  -- A ctx.Run() that is never called
  abbrev pub idle : Act W C
  idle s = (returned, s)

  and_then-eq :
      (r : Outcome × State W C) (k k' : Act W C)
      → ((t : State W C) → k t ≡ k' t)
      → and_then r k ≡ and_then r k'
  and_then-eq (returned, s) k k' f = f s
  and_then-eq (panicked m, s) k k' f = refl
  and_then-eq (out_of_fuel, s) k k' f = refl

  exec-NoNext :
      (step : Act W C) (c : Code C) (s : State W C) → NoNext c → exec step c s ≡ exec idle c s
  unfolding exec
  exec-NoNext step done s h = refl
  exec-NoNext step (reply r k) s h =
      and_then-eq (respond r s) (exec step k) (exec idle k) (λ t. exec-NoNext step k t h)
  exec-NoNext step (next k) s h = absurd h
  exec-NoNext step (rerun k) s h = absurd h
  exec-NoNext step (update c k) s h = exec-NoNext step k (record s { context = c }) h
  exec-NoNext step (context k) s h = exec-NoNext step (k s.context) s (h s.context)
  exec-NoNext step (written_then k) s h = exec-NoNext step (k (written s.res)) s (h (written s.res))
  exec-NoNext step (status_then k) s h = exec-NoNext step (k s.res.status) s (h s.res.status)
  exec-NoNext step (recovering body handle k) s (hb, hk) =
      and_then-eq (or_recover (exec step body s) handle) (exec step k) (exec idle k)
        (λ t. exec-NoNext step k t hk)
      ∙ ap (λ r. and_then (or_recover r handle) (exec idle k)) (exec-NoNext step body s hb)

  -- The chain from left to right, with no index: each body in turn, until one panics or leaves a
  -- written response, and `finish` behind the last.
  pub in_order : Chains C → Request → Act W C → Act W C
  in_order [] req finish s = finish s
  in_order (m ∷ ms) req finish s =
      and_then (exec idle (m req) s)
        (λ t. if written t.res then (returned, bump t) else in_order ms req finish (bump t))

  and_then-index :
      (i : ℕ) (r : Outcome × State W C) (k : Act W C)
      → r.1.index ≡ i
      → ((t : State W C) → t.index ≡ i → (k t).1.index ≡ i)
      → (and_then r k).1.index ≡ i
  and_then-index i (returned, s) k h f = f s h
  and_then-index i (panicked m, s) k h f = h
  and_then-index i (out_of_fuel, s) k h f = h

  or_recover-index :
      (r : Outcome × State W C) (h : Bytes → Reply) → (or_recover r h).1.index ≡ r.1.index
  unfolding respond
  or_recover-index (returned, s) h = refl
  or_recover-index (panicked m, s) h = refl
  or_recover-index (out_of_fuel, s) h = refl

  -- Without ctx.Next() the body leaves the index alone.
  exec-index : (c : Code C) (s : State W C) → NoNext c → (exec idle c s).1.index ≡ s.index
  unfolding exec respond
  exec-index done s n = refl
  exec-index (reply r k) s n =
      and_then-index s.index (respond r s) (exec idle k) refl (λ t e. exec-index k t n ∙ e)
  exec-index (next k) s n = absurd n
  exec-index (rerun k) s n = absurd n
  exec-index (update c k) s n = exec-index k (record s { context = c }) n
  exec-index (context k) s n = exec-index (k s.context) s (n s.context)
  exec-index (written_then k) s n = exec-index (k (written s.res)) s (n (written s.res))
  exec-index (status_then k) s n = exec-index (k s.res.status) s (n s.res.status)
  exec-index (recovering body h k) s (nb, n) =
      and_then-index s.index (or_recover (exec idle body s) h) (exec idle k)
        (or_recover-index (exec idle body s) h ∙ exec-index body s nb) (λ t e. exec-index k t n ∙ e)

  and_then-eq_at :
      (i : ℕ) (r : Outcome × State W C) (k k' : Act W C)
      → r.1.index ≡ i
      → ((t : State W C) → t.index ≡ i → k t ≡ k' t)
      → and_then r k ≡ and_then r k'
  and_then-eq_at i (returned, s) k k' h f = f s h
  and_then-eq_at i (panicked m, s) k k' h f = refl
  and_then-eq_at i (out_of_fuel, s) k k' h f = refl

  -- The loop over the rest of a chain of such middlewares is the traversal from left to right.
  run-in_order_from :
      (chain front back : Chains C) (req : Request) (finish : Act W C) (fuel : ℕ) (s : State W C)
      → chain ≡ front ++ back
      → All (λ m. NoNext (m req)) back
      → s.index ≡ length front
      → length back < fuel
      → run chain req finish fuel s ≡ in_order back req finish s
  unfolding run in_order
  run-in_order_from chain front back req finish zero s e n i f = absurd (omega arith)
  run-in_order_from chain front [] req finish (suc fuel) s e n i f =
      let past : get_elem? chain s.index ≡ none =
        get_elem?-past chain s.index (omega (arith, ap length e, length-append {0} front [])) in
      rw past
  run-in_order_from chain front (m ∷ ms) req finish (suc fuel) s e (n, ns) i f =
      let here : get_elem? chain s.index ≡ some m = rw (e, i) (get_elem?-append_self front m ms) in
      let rest = run chain req finish fuel in
      rw here (
        ap (λ r. and_then r (resume chain req finish rest)) (exec-NoNext rest (m req) s n)
        ∙ and_then-eq_at s.index (exec idle (m req) s) (resume chain req finish rest) _
            (exec-index (m req) s n)
            (λ t at. elim (Bool-cases (written t.res)) [
              | inl over ↦ rw over
              | inr on ↦ rw on (
                  run-in_order_from chain (front ++ m ∷ []) ms req finish fuel (bump t)
                    (e ∙ sym (append_assoc front (m ∷ []) ms)) ns
                    (omega (arith, length-append {0} front (m ∷ []))) (omega arith))
            ]))

  -- A run of a route whose middlewares, on the request, call neither ctx.Next() nor ctx.Run(): they
  -- are called once each from left to right, the handler behind the last, and the run stops at the
  -- first that panics or leaves a written response.
  pub run_route-in_order :
      (item : RouteItem C) (req : Request) (res : ResponseWriter W) (ctx : C)
      → All (λ m. NoNext (m req)) item.middleware_list
      → run_route item req (new_context res ctx)
        ≡ in_order item.middleware_list req (finish_route item.route req) (new_context res ctx)
  unfolding run_route
  run_route-in_order item req res ctx n =
      run-in_order_from item.middleware_list [] item.middleware_list req
        (finish_route item.route req) (length item.middleware_list + 1) (new_context res ctx) refl n
        refl (omega arith)

  and_then_returned :
      (r : Outcome × State W C) (k : Act W C) → r.0 ≡ returned → and_then r k ≡ k r.1
  and_then_returned (returned, s) k h = refl
  and_then_returned (panicked m, s) k h = cc
  and_then_returned (out_of_fuel, s) k h = cc

  rest_past :
      (chain : Chains C) (req : Request) (finish : Act W C) (fuel : ℕ) (s : State W C)
      → get_elem? chain s.index ≡ none
      → run chain req finish (suc fuel) s ≡ finish s
  unfolding run
  rest_past chain req finish fuel s past = rw past refl

  resume_stops :
      (chain : Chains C) (req : Request) (finish rest : Act W C) (t : State W C)
      → t.res.status ≡ 404
      → resume chain req finish rest t ≡ (returned, bump t)
  resume_stops chain req finish rest t h = ground arith

  -- The last middleware of the server's chain writes a response, whatever it is, and then calls
  -- ctx.Next(), in a run that has come to it with fuel for it: the run returns, and the recorded
  -- status is 404 instead of what was written.
  pub run-next_written :
      (front : Chains C) (m : Middleware C) (registry : Option (Registry C)) (req : Request)
      (fuel : ℕ) (s : State W C) (r : Reply)
      → s.index ≡ length front
      → m req ≡ reply r (next done)
      → (respond r s).0 ≡ returned
      → written (respond r s).1.res ≡ true
      → let after : Outcome × State W C =
          run (front ++ m ∷ []) req (finish_request registry req) (suc (suc fuel)) s in
        (after.0 ≡ returned) × (after.1.res.status ≡ 404)
  unfolding run exec respond
  run-next_written front m registry req fuel s r i code back w =
      let chain = front ++ m ∷ [] in
      let finish = finish_request registry req in
      let rest = run chain req finish (suc fuel) in
      let t = (respond r s).1 in
      let here : get_elem? chain s.index ≡ some m = rw i (get_elem?-append_self front m []) in
      let past : get_elem? chain (s.index + 1) ≡ none =
        get_elem?-past chain (s.index + 1) (omega (arith, length-append {0} front (m ∷ []))) in
      let (o, st) = finish_written registry req (bump t) w in
      let body : exec rest (reply r (next done)) s ≡ (returned, (finish (bump t)).1) =
        and_then_returned (respond r s) (exec rest (next done)) back
        ∙ ap (λ x. and_then x (exec rest done)) (rest_past chain req finish fuel (bump t) past)
        ∙ and_then_returned (finish (bump t)) (exec rest done) o in
      let ends : run chain req finish (suc (suc fuel)) s ≡ (returned, bump (finish (bump t)).1) =
        rw (here, code)
          (ap (λ x. and_then x (resume chain req finish rest)) body
            ∙ resume_stops chain req finish rest (finish (bump t)).1 st) in
      (ap (λ x. x.0) ends, ap (λ x. x.1.res.status) ends ∙ st)
