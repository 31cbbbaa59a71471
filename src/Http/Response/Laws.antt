-- ===== src/Http/Response/Laws.antt =====
-- The status code and the size that the wrapper of http/response_writer.go records.
use magic_engine.Common.{
  ◌++◌, [], ◌∷◌, ℕ, ◌+◌, ◌≤◌, ◌≡◌, ◌≢◌, refl, Bytes, Option, arith, if◌then◌else◌, ◌==◌,
}
use magic_engine.NetHttp.{Error, NetWriter, Reply, http_error}
use magic_engine.Http.Response.{
  ResponseWriter, returned, out_of_fuel, header_set, write_header, write, run_reply,
}

-- No call of the reply is `WriteHeader(0)`, whatever its writes return.
abbrev pub NoZero : Reply → Type 0
NoZero Reply.done = Unit
NoZero (Reply.panic _) = Unit
NoZero (Reply.set_header _ _ k) = NoZero k
NoZero (Reply.write_header code k) = (code ≢ 0) × NoZero k
NoZero (Reply.write _ k) = (n : ℕ) (err : Option Error) → NoZero (k n err)

module _ {W : Type 0} ⦃net : NetWriter W⦄ where
  pub status-write :
      (res : ResponseWriter W) (b : Bytes)
      → (write res b).0.status ≡ (if res.status == 0 then 200 else res.status)
  unfolding write
  status-write res b = ground arith

  pub size-write :
      (res : ResponseWriter W) (b : Bytes) → (write res b).0.size ≡ res.size + (write res b).1
  unfolding write
  size-write res b = ground arith

  pub status-write-ne-zero : (res : ResponseWriter W) (b : Bytes) → (write res b).0.status ≢ 0
  status-write-ne-zero res b = ground (arith, status-write res b)

  -- A reply never ends for want of fuel.
  pub run_reply-ne-out_of_fuel :
      (r : Reply) (res : ResponseWriter W) → (run_reply r res).0 ≢ out_of_fuel
  unfolding run_reply
  run_reply-ne-out_of_fuel Reply.done res = λ e. cc
  run_reply-ne-out_of_fuel (Reply.panic m) res = λ e. cc
  run_reply-ne-out_of_fuel (Reply.set_header key value k) res =
      run_reply-ne-out_of_fuel k (header_set res key value)
  run_reply-ne-out_of_fuel (Reply.write_header code k) res =
      run_reply-ne-out_of_fuel k (write_header res code)
  run_reply-ne-out_of_fuel (Reply.write b k) res =
      let r = write res b in run_reply-ne-out_of_fuel (k r.1 r.2) r.0

  -- The counted size never falls.
  pub size-le-run_reply : (r : Reply) (res : ResponseWriter W) → res.size ≤ (run_reply r res).1.size
  unfolding run_reply header_set write_header
  size-le-run_reply Reply.done res = omega arith
  size-le-run_reply (Reply.panic m) res = omega arith
  size-le-run_reply (Reply.set_header key value k) res =
      size-le-run_reply k (header_set res key value)
  size-le-run_reply (Reply.write_header code k) res = size-le-run_reply k (write_header res code)
  size-le-run_reply (Reply.write b k) res =
      let r = write res b in omega (arith, size-write res b, size-le-run_reply (k r.1 r.2) r.0)

  -- Once a response is written it stays so, through any reply that does not call `WriteHeader(0)`.
  pub run_reply-written :
      (r : Reply) (res : ResponseWriter W)
      → NoZero r
      → res.status ≢ 0
      → (run_reply r res).1.status ≢ 0
  unfolding run_reply header_set write_header
  run_reply-written Reply.done res z h = h
  run_reply-written (Reply.panic m) res z h = h
  run_reply-written (Reply.set_header key value k) res z h =
      run_reply-written k (header_set res key value) z h
  run_reply-written (Reply.write_header code k) res (c, z) h =
      run_reply-written k (write_header res code) z c
  run_reply-written (Reply.write b k) res z h =
      let r = write res b in
      run_reply-written (k r.1 r.2) r.0 (z r.1 r.2) (status-write-ne-zero res b)

  pub status-answer :
      (code : ℕ) (b : Bytes) (res : ResponseWriter W)
      → code ≢ 0
      → (run_reply (Reply.write_header code (Reply.write b (λ _ _. Reply.done))) res).1.status
        ≡ code
  unfolding run_reply write_header
  status-answer code b res h = ground (arith, status-write (write_header res code) b)

  -- http.Error answers with the code that it is given, over whatever was recorded before.
  pub status-http_error :
      (message : Bytes) (code : ℕ) (res : ResponseWriter W)
      → code ≢ 0
      → ((run_reply (http_error message code) res).0 ≡ returned)
        × ((run_reply (http_error message code) res).1.status ≡ code)
  unfolding run_reply http_error
  status-http_error message code res h = (refl, status-answer code (message ++ 10 ∷ []) _ h)
