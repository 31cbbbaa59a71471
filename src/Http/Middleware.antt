-- ===== src/Http/Middleware.antt =====
-- http/middleware_chains.go, and the loop that http/context.go runs over a chain of middleware. A
-- middleware is code of the program's user: it is given as the calls that it makes on its
-- RequestContext and on the response writer.
pub mod Fuel
use magic_engine.Common.{
  ℕ, zero, suc, ◌+◌, Bool, Option, none, some, List, [], ◌∷◌, ◌++◌, if◌then◌else◌, get_elem?, Bytes,
}
use magic_engine.NetHttp.{Request, Reply, NetWriter}
use magic_engine.Http.Response.{
  ResponseWriter, Outcome, returned, panicked, out_of_fuel, written, run_reply,
}

-- The body of a middleware. `C` is the type of context.Context.
pub data Code (C : Type 0) : Type 0 where
  done : Code C
  -- calls on the response writer, or a panic
  reply : Reply → Code C → Code C
  -- ctx.Next()
  next : Code C → Code C
  -- ctx.Run()
  rerun : Code C → Code C
  -- ctx.Update(c)
  update : C → Code C → Code C
  -- ctx.Context(), ctx.Value(key)
  context : (C → Code C) → Code C
  -- ctx.Written()
  written_then : (Bool → Code C) → Code C
  -- res.(ResponseWriter).Status()
  status_then : (ℕ → Code C) → Code C
  -- the code under a deferred function that recovers, and what it does with the panic
  recovering : Code C → (Bytes → Reply) → Code C → Code C

-- MiddleWareHandleFunc, MiddleWareHandler
abbrev pub Middleware : Type 0 → Type 0
Middleware C = Request → Code C

-- chainsImpl; Append and GetHandlers
abbrev pub Chains : Type 0 → Type 0
Chains C = List (Middleware C)

unfoldable pub new_chains : {C : Type 0} → Chains C
new_chains = []

unfoldable pub append_handler : {C : Type 0} → Chains C → Middleware C → Chains C
append_handler chains handler = chains ++ handler ∷ []

-- baseContext with the context of the struct that embeds it; the request does not change.
pub record State (W C : Type 0) : Type 0 where
  pub res : ResponseWriter W
  pub index : ℕ
  pub context : C

abbrev pub Act : Type 0 → Type 0 → Type 0
Act W C = State W C → Outcome × State W C

-- `c.index++`
abbrev pub bump : {W C : Type 0} → State W C → State W C
bump s = record s { index = s.index + 1 }

abbrev pub and_then : {W C : Type 0} → Outcome × State W C → Act W C → Outcome × State W C
and_then (returned, s) k = k s
and_then (panicked m, s) k = (panicked m, s)
and_then (out_of_fuel, s) k = (out_of_fuel, s)

module _ {W C : Type 0} ⦃net : NetWriter W⦄ where
  abbrev pub with_res : State W C → Outcome × ResponseWriter W → Outcome × State W C
  with_res s (o, res) = (o, record s { res = res })

  -- Calls on the response writer.
  unfoldable pub respond : Reply → Act W C
  respond r s = with_res s (run_reply r s.res)

  abbrev pub or_recover : Outcome × State W C → (Bytes → Reply) → Outcome × State W C
  or_recover (panicked m, s) h = respond (h m) s
  or_recover (returned, s) h = (returned, s)
  or_recover (out_of_fuel, s) h = (out_of_fuel, s)

  -- Runs a body, where `step` is what ctx.Run() does; ctx.Next() moves the index on before.
  unfoldable pub exec : Act W C → Code C → Act W C
  unfolding respond
  exec step done s = (returned, s)
  exec step (reply r k) s = and_then (respond r s) (exec step k)
  exec step (next k) s = and_then (step (bump s)) (exec step k)
  exec step (rerun k) s = and_then (step s) (exec step k)
  exec step (update c k) s = exec step k (record s { context = c })
  exec step (context k) s = exec step (k s.context) s
  exec step (written_then k) s = exec step (k (written s.res)) s
  exec step (status_then k) s = exec step (k s.res.status) s
  exec step (recovering body h k) s = and_then (or_recover (exec step body s) h) (exec step k)

  module _ (chain : Chains C) (req : Request) (finish : Act W C) where
    -- after a middleware returned: `c.index++; if c.Written() { return }`
    abbrev pub resume : Act W C → Act W C
    resume rest t = if written t.res then (returned, bump t) else rest (bump t)

    -- one round of the loop of Run; past the end of the chain, the statements behind the loop
    abbrev pub round : Option (Middleware C) → Act W C → Act W C
    round none rest s = finish s
    round (some m) rest s = and_then (exec rest (m req) s) (resume rest)

    -- Run: the loop, the nested runs of ctx.Next() (`c.incrementIndex(); c.Run()`) and those of
    -- ctx.Run() share the fuel. The first two move the index on; ctx.Run() does not.
    unfoldable pub run : ℕ → Act W C
    unfolding exec
    run zero s = (out_of_fuel, s)
    run (suc fuel) s = round (get_elem? chain s.index) (run fuel) s
