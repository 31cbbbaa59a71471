-- ===== src/Http/Server/Safe.antt =====
-- Every request to a server made by NewHTTPServer, Use and Bind gets an answer: what the recovery
-- middleware and the loop of Run do together.
use magic_engine.Common.{
  subst, ℕ, suc, ◌≡◌, refl, ap, ◌∙◌, ◌≢◌, inl, inr, Option, some, List, [], ◌∷◌, ◌++◌, arith,
  Bool-cases, length, All-append, Bytes, codes, bytes_eq,
}
use native.Mathlib.Numerals.{add-one}
use magic_engine.NetHttp.{Request, NetWriter}
use magic_engine.Http.Response.{
  ResponseWriter, Outcome, returned, panicked, out_of_fuel, run_reply, new_response_writer,
  write_header, header_set,
}
use magic_engine.Http.Response.Laws.{status-answer}
use magic_engine.Http.Middleware.{
  Middleware, Chains, State, Act, bump, and_then, respond, or_recover, exec, resume, run,
  append_handler, new_chains,
}
use magic_engine.Http.Middleware.Fuel.{NoRun, NoRuns, run-Ends}
use magic_engine.Http.Static.Calm.{static_middleware-NoRun}
use magic_engine.Http.Registry.{Registry}
use magic_engine.Http.Context.{new_context, finish_request, run_request}
use magic_engine.Http.Context.Answers.{
  CalmRoutes, Answered, finish_request-Ends, run-Answered, finish_request-Answered,
}
use magic_engine.Http.Static.{Files, ContextValues, static_middleware}
use magic_engine.Http.Recovery.{logger, recovery, answer_panic, panic_html}
use magic_engine.Http.Server.{
  HttpServer, ServerOption, Surroundings, apply_option, apply_options, default_server, use_handler,
  bind, new_http_server, serve_http,
}

module _ {F C : Type 0} (files : Files F) (values : ContextValues C) (sur : Surroundings) where
  -- The servers that a program can make: NewHTTPServer, then any calls of Use and Bind.
  pub data Built : HttpServer C → Type 0 where
    new : (opts : List ServerOption) → Built (new_http_server files values sur opts)
    used : {s : HttpServer C} (handler : Middleware C) → Built s → Built (use_handler handler s)
    bound : {s : HttpServer C} (reg : Registry C) → Built s → Built (bind reg s)

  -- The chain begins with the logger and the recovery.
  abbrev Guarded : HttpServer C → Type 0
  Guarded s = (rest : Chains C) × (s.middleware_chains ≡ logger ∷ recovery sur.env sur.stack ∷ rest)

  apply_options-chains :
      (opts : List ServerOption) (s : HttpServer C)
      → (apply_options opts s).middleware_chains ≡ s.middleware_chains
  unfolding apply_options
  apply_options-chains [] s = refl
  apply_options-chains (ServerOption.with_port port ∷ opts) s =
      apply_options-chains opts (apply_option (ServerOption.with_port port) s)
  apply_options-chains (ServerOption.with_static r p e ∷ opts) s =
      apply_options-chains opts (apply_option (ServerOption.with_static r p e) s)
  apply_options-chains (ServerOption.with_static_enabled b ∷ opts) s =
      apply_options-chains opts (apply_option (ServerOption.with_static_enabled b) s)

  Built-Guarded : {s : HttpServer C} → Built s → Guarded s
  unfolding new_http_server use_handler append_handler bind default_server new_chains
  Built-Guarded (new opts) =
      elim (Bool-cases (apply_options opts (default_server {C = C})).enable_static) [
        | inl on ↦ (
          static_middleware files values sur.root sur.root [] ∷ [],
          rw (on, apply_options-chains opts (default_server {C = C})),
        )
        | inr off ↦ ([], rw (off, apply_options-chains opts (default_server {C = C})))
      ]
  Built-Guarded (used {s} handler b) =
      let (rest, e) = Built-Guarded b in (rest ++ handler ∷ [], ap (λ c. c ++ handler ∷ []) e)
  Built-Guarded (bound reg b) = Built-Guarded b

  -- No middleware that was added with Use calls ctx.Run() on the request.
  abbrev pub UsesCalm : Request → {s : HttpServer C} → Built s → Type 0
  UsesCalm req (new opts) = Unit
  UsesCalm req (used handler b) = UsesCalm req b × NoRun (handler req)
  UsesCalm req (bound reg b) = UsesCalm req b

  -- The middlewares of NewHTTPServer do not call ctx.Run() either.
  Built-NoRuns :
      (req : Request) {s : HttpServer C} (b : Built s)
      → UsesCalm req b
      → NoRuns req s.middleware_chains
  unfolding new_http_server use_handler append_handler bind default_server new_chains logger
      recovery
  Built-NoRuns req (new opts) calm =
      elim (Bool-cases (apply_options opts (default_server {C = C})).enable_static) [
        | inl on ↦
            rw (on, apply_options-chains opts (default_server {C = C}))
              (
                (λ n. tt),
                ((tt, tt), (static_middleware-NoRun files values sur.root sur.root [] req, tt)),
              )
        | inr off ↦
            rw (off, apply_options-chains opts (default_server {C = C})) ((λ n. tt), ((tt, tt), tt))
      ]
  Built-NoRuns req (used {s} handler b) (calm, mine) =
      All-append (λ m. NoRun (m req)) s.middleware_chains (handler ∷ []) (Built-NoRuns req b calm)
        (mine, tt)
  Built-NoRuns req (bound reg b) calm = Built-NoRuns req b calm

module _ {W C : Type 0} ⦃net : NetWriter W⦄ (env stack : Bytes) where
  -- What the recovery hands back after the rest of the run ended with `r`
  abbrev recovered : Outcome × State W C → Outcome × State W C
  recovered r = or_recover (and_then r (λ s. (returned, s))) (answer_panic env stack)

  answer_panic_lem :
      (message : Bytes) (s : State W C)
      → ((respond (answer_panic env stack message) s).0 ≡ returned)
        × ((respond (answer_panic env stack message) s).1.res.status ≡ 500)
  unfolding respond answer_panic run_reply write_header header_set
  answer_panic_lem message s = elim (Bool-cases (bytes_eq env (codes "development"))) [
    | inl dev ↦ rw dev (
      refl,
      status-answer 500 (panic_html message stack)
          (header_set s.res (codes "Content-Type") (some (codes "text/html"))) (omega arith),
    )
    | inr other ↦
        rw other (refl, status-answer 500 (codes "500 Internal Server Error") s.res (omega arith))
  ]

  -- The status code that the recovery leaves: 500 after a panic.
  abbrev pub recovered_status : Outcome × State W C → ℕ
  recovered_status (returned, s) = s.res.status
  recovered_status (panicked m, s) = 500
  recovered_status (out_of_fuel, s) = s.res.status

  recovered_status-panicked :
      (r : Outcome × State W C) {message : Bytes}
      → r.0 ≡ panicked message
      → recovered_status r ≡ 500
  recovered_status-panicked (returned, s) h = cc
  recovered_status-panicked (panicked m, s) h = refl
  recovered_status-panicked (out_of_fuel, s) h = cc

  recovered_lem :
      (r : Outcome × State W C)
      → r.0 ≢ out_of_fuel
      → Answered r
      → ((recovered r).0 ≡ returned)
        × ((recovered r).1.res.status ≡ recovered_status r)
        × ((recovered r).1.res.status ≢ 0)
  recovered_lem (returned, s) n a = (refl, refl, a refl)
  recovered_lem (panicked m, s) n a =
      let (o, e) = answer_panic_lem m s in (o, e, rw e (omega arith))
  recovered_lem (out_of_fuel, s) n a = absurd (n refl)

  and_then-returned :
      (r : Outcome × State W C) (k : Act W C) → r.0 ≡ returned → and_then r k ≡ k r.1
  and_then-returned (returned, s) k h = refl
  and_then-returned (panicked m, s) k h = cc
  and_then-returned (out_of_fuel, s) k h = cc

  -- A return with a written response ends the loop: a round behind it does not happen.
  resume-written :
      (chain : Chains C) (req : Request) (finish rest : Act W C) (t : State W C)
      → t.res.status ≢ 0
      → resume chain req finish rest t ≡ (returned, bump t)
  resume-written chain req finish rest t h = ground arith

  module _ (rest : Chains C) (registry : Option (Registry C)) (req : Request)
      (res : ResponseWriter W) (ctx : C) where
    abbrev pub guarded : Chains C
    guarded = logger ∷ recovery env stack ∷ rest

    -- The run that the recovery guards: the chain from its third middleware on.
    abbrev pub inside : Outcome × State W C
    inside =
        run guarded req (finish_request registry req) (suc (length rest))
          (record { res = res; index = 2; context = ctx })

    inside-Ends : NoRuns req rest → CalmRoutes registry req → inside.0 ≢ out_of_fuel
    unfolding logger recovery
    inside-Ends calm routes =
        (run-Ends guarded req (finish_request registry req)
          (λ t. finish_request-Ends registry req t routes) ((λ n. tt), ((tt, tt), calm))
          (suc (length rest)) (record { res = res; index = 2; context = ctx }) (omega arith)).0

    module _ (ends : inside.0 ≢ out_of_fuel) where
      inside_lem :
          ((recovered inside).0 ≡ returned)
          × ((recovered inside).1.res.status ≡ recovered_status inside)
          × ((recovered inside).1.res.status ≢ 0)
      inside_lem = recovered_lem inside ends (
          run-Answered guarded req (finish_request registry req)
            (finish_request-Answered registry req) (suc (length rest))
            (record { res = res; index = 2; context = ctx }))

      from_recovery :
          run guarded req
            (finish_request registry req)
            (suc (suc (length rest)))
            (record { res = res; index = 1; context = ctx })
          ≡ (returned, bump (recovered inside).1)
      unfolding run exec recovery
      from_recovery =
          let (o, e, n) = inside_lem in
          let onward = run guarded req (finish_request registry req) (suc (length rest)) in
          ap (λ r. and_then r (resume guarded req (finish_request registry req) onward))
            (and_then-returned (recovered inside) (λ t. (returned, t)) o)
          ∙ resume-written guarded req (finish_request registry req) onward (recovered inside).1 n

      guarded_lem :
          run_request guarded registry req (new_context res ctx)
          ≡ (returned, bump (bump (recovered inside).1))
      unfolding run_request run exec logger
      guarded_lem =
          let (o, e, n) = inside_lem in
          let finish = finish_request registry req in
          let onward = run guarded req finish (suc (suc (length rest))) in
          ap (λ fuel. run guarded req finish fuel (new_context res ctx))
            (add-one (suc (suc (length rest))))
          ∙ ap (λ r. and_then (and_then r (λ t. (returned, t))) (resume guarded req finish onward))
              from_recovery
          ∙ resume-written guarded req finish onward (bump (recovered inside).1) n

      -- A chain that begins with the logger and the recovery returns with a written response; its
      -- status code is the one that the guarded run left, or 500 if that run panicked.
      pub run_request-guarded :
          ((run_request guarded registry req (new_context res ctx)).0 ≡ returned)
          × ((run_request guarded registry req (new_context res ctx)).1.res.status
              ≡ recovered_status inside)
          × ((run_request guarded registry req (new_context res ctx)).1.res.status ≢ 0)
      run_request-guarded = let (o, e, n) = inside_lem in rw guarded_lem (refl, e, n)

module _ {F C : Type 0} (files : Files F) (values : ContextValues C) (sur : Surroundings) where
  -- A server made by NewHTTPServer, Use and Bind, in any order and with any middleware, routes and
  -- handlers, returns from ServeHTTP on every request on which neither a middleware added with Use
  -- nor one of the chosen route calls ctx.Run(), panics of the code that it runs included, and has then
  -- written a response.
  pub serve_http_answers :
      {W : Type 0} ⦃net : NetWriter W⦄ (s : HttpServer C) (w : W) (ctx : C) (req : Request)
      → (built : Built files values sur s) → UsesCalm files values sur req built
      → CalmRoutes s.route_registry req
      → ((serve_http files values sur s w ctx req).0 ≡ returned)
        × ((serve_http files values sur s w ctx req).1.res.status ≢ 0)
  unfolding serve_http
  serve_http_answers s w ctx req b calm routes =
      let (rest, e) = Built-Guarded files values sur b in
      let (_, (_, c)) : NoRuns req (logger ∷ recovery sur.env sur.stack ∷ rest) =
        subst (NoRuns req) e (Built-NoRuns files values sur req b calm) in
      let start = values.with_static s.static_options ctx in
      let (o, _, n) =
        run_request-guarded sur.env sur.stack rest s.route_registry req (new_response_writer w)
          start
          (inside-Ends sur.env sur.stack rest s.route_registry req (new_response_writer w) start c
            routes) in
      rw e (o, n)

  -- If what runs behind the logger and the recovery panics, the recorded status is 500.
  pub serve_http_panicked :
      {W : Type 0} ⦃net : NetWriter W⦄ (s : HttpServer C) (rest : Chains C) (w : W) (ctx : C)
      (req : Request) (message : Bytes)
      → s.middleware_chains ≡ logger ∷ recovery sur.env sur.stack ∷ rest
      → (inside sur.env sur.stack rest s.route_registry req
          (new_response_writer w)
          (values.with_static s.static_options ctx)).0
        ≡ panicked message
      → (serve_http files values sur s w ctx req).1.res.status ≡ 500
  unfolding serve_http
  serve_http_panicked s rest w ctx req message e p =
      let r =
        inside sur.env sur.stack rest s.route_registry req (new_response_writer w)
          (values.with_static s.static_options ctx) in
      let ends : r.0 ≢ out_of_fuel = λ x. absurd cc in
      let (_, st, _) =
        run_request-guarded sur.env sur.stack rest s.route_registry req (new_response_writer w)
          (values.with_static s.static_options ctx) ends in
      rw e (st ∙ recovered_status-panicked sur.env sur.stack r p)
