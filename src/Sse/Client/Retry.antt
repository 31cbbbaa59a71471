-- ===== src/Sse/Client/Retry.antt =====
-- The retry loop of Get and Post: how many attempts it makes, and what it waits between them.
use magic_engine.Common.{
  ℕ, zero, suc, ◌+◌, ◌*◌, ◌%◌, ◌^◌, ◌≤◌, ◌<◌, ◌≡◌, refl, sym, ap, ap₂, ◌∙◌, true, false, Option,
  none, some, List, [], ◌∷◌, ◌++◌, append_assoc, append-nil, arith, leb, length, Bytes,
}
use magic_engine.NetHttp.{Error}
use magic_engine.Sse.Client.{
  Client, Round, refused, streamed, body_end, finished, Ended, handle_retry, send_request, recv_val,
  get_loop, get, post,
}

-- Attempts that get no body
abbrev pub failing : List Error → List Round
failing [] = []
failing (e ∷ es) = refused e ∷ failing es

-- The waits before `k` further attempts: the count goes on by two for each.
abbrev pub waits_from : ℕ → ℕ → ℕ → List ℕ
waits_from wait n zero = []
waits_from wait n (suc k) = ((wait * 2 ^ n) % 2 ^ 64) ∷ waits_from wait (n + 2) k

abbrev pub repeated : ℕ → Bytes → List Bytes
repeated zero id = []
repeated (suc k) id = id ∷ repeated k id

-- The client after `k` attempts that failed, each with a wait behind it
abbrev pub retried : ℕ → ℕ → Client → Client
retried n k c = record c {
  waits = c.waits ++ waits_from c.retry_wait n k;
  requests = c.requests ++ repeated k c.last_event_id;
}

retried_none : (n : ℕ) (c : Client) → c ≡ retried n 0 c
retried_none n c =
    ap₂ (λ w r. record c { waits = w; requests = r }) (sym (append-nil c.waits))
      (sym (append-nil c.requests))

retried_more : (n k : ℕ) (c : Client) → retried (n + 2) k (retried n 1 c) ≡ retried n (suc k) c
retried_more n k c =
    ap₂ (λ w r. record c { waits = w; requests = r })
      (append_assoc c.waits (waits_from c.retry_wait n 1) (waits_from c.retry_wait (n + 2) k))
      (append_assoc c.requests (repeated 1 c.last_event_id) (repeated k c.last_event_id))

module _ (parse_duration : Bytes → Option ℕ) where
  refused_again :
      (e : Error) (rounds : List Round) (n : ℕ) (c : Client)
      → n < c.max_retries
      → get_loop parse_duration (refused e ∷ rounds) n c
        ≡ get_loop parse_duration rounds (n + 2) (retried n 1 c)
  unfolding get_loop handle_retry
  refused_again e rounds n c l =
      let s : leb c.max_retries n ≡ false = ground arith in
      let two : n + 1 + 1 ≡ n + 2 = omega arith in
      rw (s, handle_retry) (ap (λ m. get_loop parse_duration rounds m (retried n 1 c)) two)

  get_loop-failing :
      (es : List Error) (rounds : List Round) (n m : ℕ) (c : Client)
      → m ≡ n + 2 * length es
      → m < c.max_retries + 2
      → get_loop parse_duration (failing es ++ rounds) n c
        ≡ get_loop parse_duration rounds m (retried n (length es) c)
  get_loop-failing [] rounds n m c e l =
      let same : n ≡ m = omega arith in ap₂ (get_loop parse_duration rounds) same (retried_none n c)
  get_loop-failing (x ∷ es) rounds n m c e l =
      refused_again x (failing es ++ rounds) n c (omega arith)
      ∙ get_loop-failing es rounds (n + 2) m (retried n 1 c) (omega arith) l
      ∙ ap (get_loop parse_duration rounds m) (retried_more n (length es) c)

  refused_finally :
      (e : Error) (later : List Round) (n : ℕ) (c : Client)
      → c.max_retries ≤ n
      → get_loop parse_duration (refused e ∷ later) n c
        ≡ (finished (some e), record (send_request c) { closed = true })
  unfolding get_loop handle_retry
  refused_finally e later n c l =
      let s : leb c.max_retries n ≡ true = ground arith in rw (s, handle_retry) refl

  -- When the request of each attempt is made and gets no answer with a body and status 200, Get and
  -- Post make (max_retries + 1) / 2 + 1 attempts, rounded down, each with the last event id that the
  -- client has; the wait after the attempt number k, from 0, is retry_wait * 2 ^ (2 * k) in 64 bits;
  -- then the sink is closed and the error of the last attempt returned.
  pub get_gives_up :
      (es : List Error) (e : Error) (later : List Round) (c : Client)
      → c.max_retries ≤ 2 * length es
      → 2 * length es < c.max_retries + 2
      → let gave_up : Ended × Client = (
        finished (some e),
        record c {
          waits = c.waits ++ waits_from c.retry_wait 0 (length es);
          requests = (c.requests ++ repeated (length es) c.last_event_id) ++ c.last_event_id ∷ [];
          closed = true;
        },
      ) in
        (get parse_duration none (failing es ++ refused e ∷ later) c ≡ gave_up)
        × (post parse_duration none (failing es ++ refused e ∷ later) c ≡ gave_up)
  unfolding get post
  get_gives_up es e later c low high =
      let ends =
        get_loop-failing es (refused e ∷ later) 0 (2 * length es) c (omega arith) high
        ∙ refused_finally e later (2 * length es) (retried 0 (length es) c) low in
      (ends, ends)

  -- A body that is read to its end stops the retries: after so few failed attempts that each was
  -- retried, Get and Post return without an error, and the client has what recvVal makes of the body.
  pub get_recovers :
      (es : List Error) (body : Bytes) (later : List Round) (c : Client)
      → 2 * length es < c.max_retries + 2
      → let read : Ended × Client =
          (finished none, recv_val parse_duration body (send_request (retried 0 (length es) c))) in
        (get parse_duration none (failing es ++ streamed body body_end ∷ later) c ≡ read)
        × (post parse_duration none (failing es ++ streamed body body_end ∷ later) c ≡ read)
  unfolding get post get_loop
  get_recovers es body later c high =
      let ends =
        get_loop-failing es (streamed body body_end ∷ later) 0 (2 * length es) c (omega arith)
          high in
      (ends, ends)
