-- ===== src/Http/Middleware/Fuel.antt =====
-- The fuel of the loop of Run, for middlewares that do not call ctx.Run(): the index then only moves
-- on.
use magic_engine.Common.{
  Bool, ℕ, zero, suc, ◌+◌, ◌-◌, ◌≤◌, ◌<◌, ◌≡◌, refl, ap, subst, ◌∙◌, ◌≢◌, none, inl, inr, some, [],
  ◌∷◌, arith, Bool-cases, Option-cases, length, get_elem?, All, Bytes,
}
use magic_engine.NetHttp.{Request, Reply, NetWriter}
use magic_engine.Http.Response.{Outcome, returned, panicked, out_of_fuel, written}
use magic_engine.Http.Response.Laws.{run_reply-ne-out_of_fuel}
use magic_engine.Http.Middleware.{
  Code, done, reply, next, rerun, update, context, written_then, status_then, recovering,
  Middleware, Chains, State, Act, bump, and_then, respond, or_recover, exec, resume, round, run,
}

-- The body never calls ctx.Run().
abbrev pub NoRun : {C : Type 0} → Code C → Type 0
NoRun done = Unit
NoRun (reply r k) = NoRun k
NoRun (next k) = NoRun k
NoRun (rerun k) = ⊥
NoRun (update c k) = NoRun k
NoRun {C} (context k) = (c : C) → NoRun (k c)
NoRun (written_then k) = (b : Bool) → NoRun (k b)
NoRun (status_then k) = (n : ℕ) → NoRun (k n)
NoRun (recovering body h k) = NoRun body × NoRun k

-- No middleware of the chain calls ctx.Run() on the request.
abbrev pub NoRuns : {C : Type 0} → Request → Chains C → Type 0
NoRuns req chain = All (λ m. NoRun (m req)) chain

module _ {W C : Type 0} where
  -- An end with an answer, at an index that has not gone back behind `lo`.
  abbrev pub Ends : ℕ → Outcome × State W C → Type 0
  Ends lo r = (r.0 ≢ out_of_fuel) × (lo ≤ r.1.index)

  pub and_then-Ends :
      (lo : ℕ) (r : Outcome × State W C) (k : Act W C)
      → Ends lo r
      → ((t : State W C) → lo ≤ t.index → Ends lo (k t))
      → Ends lo (and_then r k)
  and_then-Ends lo (returned, s) k (n, h) f = f s h
  and_then-Ends lo (panicked m, s) k h f = h
  and_then-Ends lo (out_of_fuel, s) k h f = h

  and_then-congr :
      (lo : ℕ) (r : Outcome × State W C) (k k' : Act W C)
      → Ends lo r
      → ((t : State W C) → lo ≤ t.index → k t ≡ k' t)
      → and_then r k ≡ and_then r k'
  and_then-congr lo (returned, s) k k' (n, h) f = f s h
  and_then-congr lo (panicked m, s) k k' h f = refl
  and_then-congr lo (out_of_fuel, s) k k' h f = refl

  Ends-le : (lo hi : ℕ) (r : Outcome × State W C) → lo ≤ hi → Ends hi r → Ends lo r
  Ends-le lo hi r h (n, e) = (n, omega arith)

module _ {W C : Type 0} ⦃net : NetWriter W⦄ where
  pub respond-Ends : (r : Reply) (s : State W C) → Ends s.index (respond r s)
  unfolding respond
  respond-Ends r s = (run_reply-ne-out_of_fuel r s.res, omega arith)

  or_recover-Ends :
      (lo : ℕ) (r : Outcome × State W C) (h : Bytes → Reply) → Ends lo r → Ends lo (or_recover r h)
  or_recover-Ends lo (returned, s) h e = e
  or_recover-Ends lo (panicked m, s) h (n, e) =
      Ends-le lo s.index (respond (h m) s) e (respond-Ends (h m) s)
  or_recover-Ends lo (out_of_fuel, s) h e = e

  module _ (lo : ℕ) (step : Act W C)
      (ends : (s : State W C) → lo ≤ s.index → Ends s.index (step (bump s))) where
    exec-Ends : (c : Code C) (s : State W C) → NoRun c → lo ≤ s.index → Ends s.index (exec step c s)
    unfolding exec
    exec-Ends done s r h = (λ e. cc, omega arith)
    exec-Ends (reply x k) s r h =
        and_then-Ends s.index (respond x s) (exec step k) (respond-Ends x s)
          (λ t l. Ends-le s.index t.index (exec step k t) l (exec-Ends k t r (omega arith)))
    exec-Ends (next k) s r h =
        and_then-Ends s.index (step (bump s)) (exec step k) (ends s h)
          (λ t l. Ends-le s.index t.index (exec step k t) l (exec-Ends k t r (omega arith)))
    exec-Ends (rerun k) s r h = absurd r
    exec-Ends (update c k) s r h = exec-Ends k (record s { context = c }) r h
    exec-Ends (context k) s r h = exec-Ends (k s.context) s (r s.context) h
    exec-Ends (written_then k) s r h = exec-Ends (k (written s.res)) s (r (written s.res)) h
    exec-Ends (status_then k) s r h = exec-Ends (k s.res.status) s (r s.res.status) h
    exec-Ends (recovering body handle k) s (rb, r) h =
        and_then-Ends s.index (or_recover (exec step body s) handle) (exec step k)
          (or_recover-Ends s.index (exec step body s) handle (exec-Ends body s rb h))
          (λ t l. Ends-le s.index t.index (exec step k t) l (exec-Ends k t r (omega arith)))

    -- The end of a body depends on what ctx.Next() does from the current index on only.
    exec-congr :
        (other : Act W C)
        → ((s : State W C) → lo ≤ s.index → step (bump s) ≡ other (bump s))
        → (c : Code C) (s : State W C) → NoRun c
        → lo ≤ s.index
        → exec step c s ≡ exec other c s
    unfolding exec
    exec-congr other same done s r h = refl
    exec-congr other same (reply x k) s r h =
        and_then-congr s.index (respond x s) (exec step k) (exec other k) (respond-Ends x s)
          (λ t l. exec-congr other same k t r (omega arith))
    exec-congr other same (next k) s r h =
        and_then-congr s.index (step (bump s)) (exec step k) (exec other k) (ends s h)
          (λ t l. exec-congr other same k t r (omega arith))
        ∙ ap (λ x. and_then x (exec other k)) (same s h)
    exec-congr other same (rerun k) s r h = absurd r
    exec-congr other same (update c k) s r h =
        exec-congr other same k (record s { context = c }) r h
    exec-congr other same (context k) s r h = exec-congr other same (k s.context) s (r s.context) h
    exec-congr other same (written_then k) s r h =
        exec-congr other same (k (written s.res)) s (r (written s.res)) h
    exec-congr other same (status_then k) s r h =
        exec-congr other same (k s.res.status) s (r s.res.status) h
    exec-congr other same (recovering body handle k) s (rb, r) h =
        and_then-congr s.index (or_recover (exec step body s) handle) (exec step k) (exec other k)
          (or_recover-Ends s.index (exec step body s) handle (exec-Ends body s rb h))
          (λ t l. exec-congr other same k t r (omega arith))
        ∙ ap (λ x. and_then (or_recover x handle) (exec other k))
            (exec-congr other same body s rb h)

-- What holds of a chain holds of its middleware at an index.
All-get_elem? :
    {C : Type 0} (req : Request) (chain : Chains C) (i : ℕ) (m : Middleware C)
    → NoRuns req chain
    → get_elem? chain i ≡ some m
    → NoRun (m req)
All-get_elem? req [] i m h e = absurd cc
All-get_elem? req (x ∷ xs) zero m (h, hs) e =
    subst (λ o. elim o [ none ↦ Unit | some y ↦ NoRun (y req) ]) e h
All-get_elem? req (x ∷ xs) (suc i) m (h, hs) e = All-get_elem? req xs i m hs e

get_elem?-some :
    {C : Type 0} (chain : Chains C) (i : ℕ) (m : Middleware C)
    → get_elem? chain i ≡ some m
    → i < length chain
get_elem?-some [] i m h = cc
get_elem?-some (x ∷ xs) zero m h = omega arith
get_elem?-some (x ∷ xs) (suc i) m h = omega (arith, get_elem?-some xs i m h)

module _ {W C : Type 0} ⦃net : NetWriter W⦄ (chain : Chains C) (req : Request)
    (finish : Act W C) where
  module _ (rest : Act W C) (s : State W C)
      (keep : (t : State W C) → s.index < t.index → Ends t.index (rest t)) where
    nested-Ends : (t : State W C) → s.index ≤ t.index → Ends t.index (rest (bump t))
    nested-Ends t l =
        Ends-le t.index (t.index + 1) (rest (bump t)) (omega arith) (keep (bump t) (omega arith))

    resume-Ends :
        (t : State W C) → s.index ≤ t.index → Ends s.index (resume chain req finish rest t)
    resume-Ends t l = elim (Bool-cases (written t.res)) [
      | inl over ↦ rw over ((λ e. cc), omega arith)
      | inr on ↦ rw on (
          Ends-le s.index (t.index + 1) (rest (bump t)) (omega arith) (keep (bump t) (omega arith)))
    ]

    round-Ends :
        (m : Middleware C) → NoRun (m req) → Ends s.index (round chain req finish (some m) rest s)
    round-Ends m r =
        and_then-Ends s.index (exec rest (m req) s) (resume chain req finish rest)
          (exec-Ends s.index rest nested-Ends (m req) s r (omega arith)) resume-Ends

    -- A round depends on what the rest of the run does from later indices only.
    round-congr :
        (other : Act W C)
        → ((t : State W C) → s.index < t.index → rest t ≡ other t)
        → (m : Middleware C) → NoRun (m req)
        → round chain req finish (some m) rest s ≡ round chain req finish (some m) other s
    round-congr other same m r =
        and_then-congr s.index (exec rest (m req) s) (resume chain req finish rest)
          (resume chain req finish other)
          (exec-Ends s.index rest nested-Ends (m req) s r (omega arith))
          (λ t l. rw (same (bump t) (omega arith)))
        ∙ ap (λ x. and_then x (resume chain req finish other))
            (exec-congr s.index rest nested-Ends other (λ t l. same (bump t) (omega arith)) (m req)
              s r (omega arith))

module _ {W C : Type 0} ⦃net : NetWriter W⦄ (chain : Chains C) (req : Request) (finish : Act W C)
    (finishes : (s : State W C) → Ends s.index (finish s)) (calm : NoRuns req chain) where
  -- With fuel for the rest of the chain the loop ends with an answer, and moves the index on.
  pub run-Ends :
      (fuel : ℕ) (s : State W C)
      → length chain - s.index < fuel
      → Ends s.index (run chain req finish fuel s)
  unfolding run
  run-Ends zero s h = absurd (omega arith)
  run-Ends (suc fuel) s h = elim (Option-cases (get_elem? chain s.index)) [
    | inl past ↦ rw past (finishes s)
    | inr (m, here) ↦ rw here (
        round-Ends chain req finish (run chain req finish fuel) s
          (λ t l. run-Ends fuel t (omega (arith, get_elem?-some chain s.index m here))) m
          (All-get_elem? req chain s.index m calm here))
  ]

  -- Fuel above the number of middlewares from the index on makes no difference to a run of a chain
  -- without ctx.Run():
  -- any two such amounts give the same run.
  pub run-fuel :
      (fuel more : ℕ) (s : State W C)
      → length chain - s.index < fuel
      → length chain - s.index < more
      → run chain req finish fuel s ≡ run chain req finish more s
  unfolding run
  run-fuel zero more s h k = absurd (omega arith)
  run-fuel (suc fuel) zero s h k = absurd (omega arith)
  run-fuel (suc fuel) (suc more) s h k = elim (Option-cases (get_elem? chain s.index)) [
    | inl past ↦ rw past
    | inr (m, here) ↦ rw here (
        round-congr chain req finish (run chain req finish fuel) s
          (λ t l. run-Ends fuel t (omega (arith, get_elem?-some chain s.index m here)))
          (run chain req finish more)
          (λ t l.
            run-fuel fuel more t (omega (arith, get_elem?-some chain s.index m here))
              (omega (arith, get_elem?-some chain s.index m here)))
          m (All-get_elem? req chain s.index m calm here))
  ]

module _ {W C : Type 0} ⦃net : NetWriter W⦄ (chain : Chains C) (req : Request)
    (finish : Act W C) where
  and_then_spent :
      (r : Outcome × State W C) (k : Act W C) → r.0 ≡ out_of_fuel → (and_then r k).0 ≡ out_of_fuel
  and_then_spent (returned, s) k h = cc
  and_then_spent (panicked m, s) k h = cc
  and_then_spent (out_of_fuel, s) k h = refl

  -- ctx.Run() runs the loop again from the middleware that called it: a run that has come to a
  -- middleware which begins with ctx.Run() has no end, whatever fuel it is given.
  pub run-rerun :
      (fuel : ℕ) (s : State W C) (m : Middleware C) (k : Code C)
      → get_elem? chain s.index ≡ some m
      → m req ≡ rerun k
      → (run chain req finish fuel s).0 ≡ out_of_fuel
  unfolding run exec
  run-rerun zero s m k here code = refl
  run-rerun (suc fuel) s m k here code =
      let rest = run chain req finish fuel in
      rw (here, code)
        (and_then_spent (and_then (rest s) (exec rest k)) (resume chain req finish rest)
          (and_then_spent (rest s) (exec rest k) (run-rerun fuel s m k here code)))
