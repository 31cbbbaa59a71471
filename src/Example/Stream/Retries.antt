-- ===== src/Example/Stream/Retries.antt =====
-- example/sse, Connect and handleRetry: when the program gives up.
use magic_engine.Common.{
  ℕ, zero, suc, ◌+◌, ◌*◌, ◌%◌, ◌^◌, ◌≤◌, ◌<◌, ◌≡◌, refl, ap, ◌∙◌, ◌≢◌, ◌⊎◌, Bool, true, false,
  Option, some, List, [], ◌∷◌, arith, leb, ◌==◌, Bytes,
}
use magic_engine.Http.Url.{Urls}
use magic_engine.Example.Stream.{
  WebRequest, Act, requested, slept, StreamClient, act, Round, stop, no_answer, answered, Left,
  exited, handle_retry_exit, request_headers, again_after, request_url, send, take_answer,
  connect_loop, connect_stream,
}

-- The request was not answered, or with another status than 200.
abbrev pub Fails : Round → Type 0
Fails stop = ⊥
Fails (no_answer e) = Unit
Fails (answered status looks) = status ≢ 200

-- The first rounds, as many as the number says, fail.
abbrev pub FailsFirst : ℕ → List Round → Type 0
FailsFirst zero rounds = Unit
FailsFirst (suc m) [] = ⊥
FailsFirst (suc m) (r ∷ rounds) = Fails r × FailsFirst m rounds

-- As many rounds fail one after the other, somewhere.
abbrev pub Streak : ℕ → List Round → Type 0
Streak m [] = FailsFirst m []
Streak m (r ∷ rounds) = FailsFirst m (r ∷ rounds) ⊎ Streak m rounds

-- What `k` requests with a wait behind each add to the acts
abbrev pub tries : WebRequest → ℕ → ℕ → List Act → List Act
tries r wait zero acts = acts
tries r wait (suc k) acts = slept ((wait * 2 ^ k) % 2 ^ 64) ∷ requested r ∷ tries r wait k acts

-- The request that the client makes of its URL
abbrev pub request_of : Bytes → StreamClient → WebRequest
request_of url c = record { url = url; headers = request_headers c.last_event_id }

-- The client after `k` of them
abbrev pub tried : Bytes → ℕ → StreamClient → StreamClient
tried url k c = record c { acts = tries (request_of url c) c.retry_wait k c.acts }

module _ (again : ℕ → StreamClient → Left × StreamClient) (n : ℕ) (c : StreamClient) where
  pub handle_retry_exit-waits :
      n < c.max_retries
      → again_after again (handle_retry_exit n c)
        ≡ again (n + 1) (act (slept ((c.retry_wait * 2 ^ n) % 2 ^ 64)) c)
  unfolding handle_retry_exit
  handle_retry_exit-waits l = let e : leb c.max_retries n ≡ false = ground arith in rw e refl

  handle_retry_exit-exits :
      c.max_retries ≤ n → again_after again (handle_retry_exit n c) ≡ (exited, c)
  unfolding handle_retry_exit
  handle_retry_exit-exits l = let e : leb c.max_retries n ≡ true = ground arith in rw e refl

module _ (urls : Urls) (requestable : Bytes → Bool) (parse_duration : Bytes → Option ℕ) where
  pub connect_loop-Fails :
      (r : Round) (rounds : List Round) (n : ℕ) (c : StreamClient) (url : Bytes)
      → Fails r
      → request_url urls requestable c ≡ some url
      → connect_loop urls requestable parse_duration (r ∷ rounds) n c
        ≡ again_after
            (connect_loop urls requestable parse_duration rounds)
            (handle_retry_exit n (send urls requestable url c))
  unfolding connect_loop take_answer
  connect_loop-Fails stop rounds n c url f e = absurd f
  connect_loop-Fails (no_answer x) rounds n c url f e = rw e refl
  connect_loop-Fails (answered status looks) rounds n c url f e =
      let other : (status == 200) ≡ false = ground arith in rw (e, other) refl

  connect_loop-FailsFirst :
      (m k : ℕ) (rounds : List Round) (c : StreamClient) (url : Bytes)
      → request_url urls requestable c ≡ some url
      → k + m ≡ c.max_retries
      → FailsFirst (suc m) rounds
      → connect_loop urls requestable parse_duration rounds k (tried url k c)
        ≡ (exited, act (requested (request_of url c)) (tried url c.max_retries c))
  unfolding request_url
  connect_loop-FailsFirst m k [] c url e l f = absurd f
  connect_loop-FailsFirst zero k (r ∷ rounds) c url e l (f, fs) =
      let same : k ≡ c.max_retries = omega arith in
      connect_loop-Fails r rounds k (tried url k c) url f e
      ∙ handle_retry_exit-exits (connect_loop urls requestable parse_duration rounds) k
          (send urls requestable url (tried url k c)) (omega arith)
      ∙ ap (λ n. (exited, act (requested (request_of url c)) (tried url n c))) same
  connect_loop-FailsFirst (suc m) k (r ∷ rounds) c url e l (f, fs) =
      let next : k + 1 ≡ suc k = omega arith in
      connect_loop-Fails r rounds k (tried url k c) url f e
      ∙ handle_retry_exit-waits (connect_loop urls requestable parse_duration rounds) k
          (send urls requestable url (tried url k c)) (omega arith)
      ∙ ap (λ n. connect_loop urls requestable parse_duration rounds n (tried url (suc k) c)) next
      ∙ connect_loop-FailsFirst m (suc k) rounds c url e (omega arith) fs

  -- Where a request can be made of the client's URL and the first max_retries + 1 rounds of Connect
  -- get no answer with status 200: the client sends that many requests, all the same, waits
  -- retry_wait * 2 ^ k in 64 bits after the one number k, from 0, for each but the last, and the
  -- program exits after the last, whatever later rounds would give.
  pub connect_stream_gives_up :
      (rounds : List Round) (c : StreamClient) (url : Bytes)
      → request_url urls requestable c ≡ some url
      → FailsFirst (suc c.max_retries) rounds
      → connect_stream urls requestable parse_duration rounds c
        ≡ (exited, act (requested (request_of url c)) (tried url c.max_retries c))
  unfolding connect_stream
  connect_stream_gives_up rounds c url e f =
      connect_loop-FailsFirst c.max_retries 0 rounds c url e (omega arith) f
