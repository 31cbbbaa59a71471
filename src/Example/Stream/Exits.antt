-- ===== src/Example/Stream/Exits.antt =====
-- example/sse, Connect: after which rounds the program exits.
use magic_engine.Common.{
  if_either, ℕ, zero, suc, ◌+◌, ◌*◌, ◌%◌, ◌^◌, ◌≡◌, refl, sym, ap, ◌∙◌, subst, ◌≢◌, ◌⊎◌, inl, inr,
  Bool, true, Option, none, some, List, [], ◌∷◌, arith, ◌==◌, Bool-cases, Bytes, codes, has_prefix,
  trim_prefix,
}
use magic_engine.Http.Url.{Urls}
use magic_engine.Example.Stream.{
  Event, slept, StreamClient, act, Look, context_done, read_line, read_failed, Round, stop,
  no_answer, answered, Left, returned, exited, nil_pointer, in_loop, end_event, set_retry_wait,
  no_event, take_line, process_looks, process_stream, after_stream, request_url, send, take_answer,
  send_and_take, connect_loop, connect_stream,
}
use magic_engine.Sse.Text.{trim_space}
use magic_engine.Example.Stream.Retries.{
  Fails, FailsFirst, Streak, handle_retry_exit-waits, connect_loop-Fails,
}

end_event-max_retries :
    (b : Option Bytes) (ev : Event) (c : StreamClient)
    → (end_event b ev c).max_retries ≡ c.max_retries
end_event-max_retries none ev c = refl
end_event-max_retries (some b) ev c = refl

set_retry_wait-max_retries :
    (w : Option ℕ) (c : StreamClient) → (set_retry_wait w c).max_retries ≡ c.max_retries
set_retry_wait-max_retries none c = refl
set_retry_wait-max_retries (some w) c = refl

module _ (parse_duration : Bytes → Option ℕ) where
  take_line-max_retries :
      (line : Bytes) (ev : Event) (c : StreamClient)
      → (take_line parse_duration line ev c).1.max_retries ≡ c.max_retries
  unfolding take_line
  take_line-max_retries [] ev c = end_event-max_retries ev.content ev c
  take_line-max_retries (b ∷ line) ev c =
      let Same : Event × StreamClient → Type 0 = λ r. r.1.max_retries ≡ c.max_retries in
      if_either Same (has_prefix (b ∷ line) (codes "id:")) refl (
        if_either Same (has_prefix (b ∷ line) (codes "data:")) refl (
          if_either Same (has_prefix (b ∷ line) (codes "retry:"))
            (set_retry_wait-max_retries (parse_duration (trim_prefix (b ∷ line) (codes "retry:")))
              c)
            refl))

  process_looks-max_retries :
      (looks : List Look) (ev : Event) (c : StreamClient)
      → let r : Left × StreamClient = process_looks parse_duration looks ev c in
        (r.0 ≢ exited) × (r.1.max_retries ≡ c.max_retries)
  unfolding process_looks
  process_looks-max_retries [] ev c = ((λ e. absurd cc), refl)
  process_looks-max_retries (context_done ∷ looks) ev c = ((λ e. absurd cc), refl)
  process_looks-max_retries (read_failed x ∷ looks) ev c = ((λ e. absurd cc), refl)
  process_looks-max_retries (read_line line ∷ looks) ev c =
      let (ev', c') = take_line parse_duration (trim_space line) ev c in
      let (stays, same) = process_looks-max_retries looks ev' c' in
      (stays, same ∙ take_line-max_retries (trim_space line) ev c)

-- Some of the first rounds that are left of a streak, or all of one
abbrev pub Spent : ℕ → ℕ → List Round → Type 0
Spent m most rounds = FailsFirst (suc m) rounds ⊎ Streak (suc most) rounds

next_Spent :
    (m most : ℕ) (r : Round) (rounds : List Round)
    → Fails r
    → Spent m most rounds
    → Spent (suc m) most (r ∷ rounds)
next_Spent m most r rounds f (inl fs) = inl (f, fs)
next_Spent m most r rounds f (inr s) = inr (inr s)

first_Streak : (m : ℕ) (rounds : List Round) → FailsFirst (suc m) rounds → Streak (suc m) rounds
first_Streak m [] fs = fs
first_Streak m (r ∷ rounds) fs = inl fs

later_Streak :
    (most : ℕ) (r : Round) (rounds : List Round)
    → Spent most most rounds
    → Streak (suc most) (r ∷ rounds)
later_Streak most r rounds (inl fs) = inr (first_Streak most rounds fs)
later_Streak most r rounds (inr s) = inr s

after_stream_exits :
    (again : ℕ → StreamClient → Left × StreamClient) (r : Left × StreamClient)
    → r.0 ≢ exited
    → (after_stream again r).0 ≡ exited
    → (again 0 r.1).0 ≡ exited
after_stream_exits again (returned, c) stays e = e
after_stream_exits again (exited, c) stays e = absurd (stays refl)
after_stream_exits again (nil_pointer, c) stays e = absurd cc
after_stream_exits again (in_loop, c) stays e = absurd cc

module _ (urls : Urls) (requestable : Bytes → Bool) (parse_duration : Bytes → Option ℕ) where
  loop : List Round → ℕ → StreamClient → Left × StreamClient
  loop = connect_loop urls requestable parse_duration

  -- A round without a URL does not exit.
  url_of :
      (again : ℕ → StreamClient → Left × StreamClient) (o : Option Bytes) (r : Round) (n : ℕ)
      (c : StreamClient)
      → (send_and_take urls requestable parse_duration again o r n c).0 ≡ exited
      → (url : Bytes) × (o ≡ some url)
  url_of again none r n c e = absurd cc
  url_of again (some url) r n c e = (url, refl)

  url_of_exit :
      (r : Round) (rounds : List Round) (n : ℕ) (c : StreamClient)
      → (loop (r ∷ rounds) n c).0 ≡ exited
      → (url : Bytes) × (request_url urls requestable c ≡ some url)
  unfolding loop connect_loop
  url_of_exit stop rounds n c e = absurd cc
  url_of_exit (no_answer x) rounds n c e =
      url_of (loop rounds) (request_url urls requestable c) (no_answer x) n c e
  url_of_exit (answered status looks) rounds n c e =
      url_of (loop rounds) (request_url urls requestable c) (answered status looks) n c e

  -- A failing round that exits
  exits_Fails :
      (r : Round) (rounds : List Round) (n m : ℕ) (c : StreamClient)
      → Fails r
      → m + n ≡ c.max_retries
      → (loop (r ∷ rounds) n c).0 ≡ exited
      → ((k l : ℕ) (d : StreamClient)
          → l + k ≡ d.max_retries
          → (loop rounds k d).0 ≡ exited
          → Spent l d.max_retries rounds)
      → Spent m c.max_retries (r ∷ rounds)
  unfolding loop
  exits_Fails r rounds n zero c f l e later = inl (f, tt)
  exits_Fails r rounds n (suc m) c f l e later =
      let (url, made) = url_of_exit r rounds n c e in
      let c' : StreamClient =
        act (slept ((c.retry_wait * 2 ^ n) % 2 ^ 64)) (send urls requestable url c) in
      let goes_on : loop (r ∷ rounds) n c ≡ loop rounds (n + 1) c' =
        connect_loop-Fails urls requestable parse_duration r rounds n c url f made
        ∙ handle_retry_exit-waits (loop rounds) n (send urls requestable url c) (omega arith) in
      next_Spent m c.max_retries r rounds f
        (later (n + 1) m c' (omega arith) (ap (λ p. p.0) (sym goes_on) ∙ e))

  -- A round with status 200 that exits
  answered_exits :
      (status : ℕ) (looks : List Look) (rounds : List Round) (n : ℕ) (c : StreamClient)
      → (status == 200) ≡ true
      → (loop (answered status looks ∷ rounds) n c).0 ≡ exited
      → ((k l : ℕ) (d : StreamClient)
          → l + k ≡ d.max_retries
          → (loop rounds k d).0 ≡ exited
          → Spent l d.max_retries rounds)
      → Streak (suc c.max_retries) (answered status looks ∷ rounds)
  unfolding loop connect_loop take_answer process_stream
  answered_exits status looks rounds n c good e later =
      let (url, made) = url_of_exit (answered status looks) rounds n c e in
      let r : Left × StreamClient =
        process_looks parse_duration looks no_event (send urls requestable url c) in
      let (stays, same) =
        process_looks-max_retries parse_duration looks no_event (send urls requestable url c) in
      let opened : loop (answered status looks ∷ rounds) n c ≡ after_stream (loop rounds) r =
        rw (made, good) refl in
      let spent =
        later 0 r.1.max_retries r.1 (omega arith)
          (after_stream_exits (loop rounds) r stays (ap (λ p. p.0) (sym opened) ∙ e)) in
      subst (λ most. Streak (suc most) (answered status looks ∷ rounds)) same
        (later_Streak r.1.max_retries (answered status looks) rounds spent)

  loop_exits :
      (rounds : List Round) (n m : ℕ) (c : StreamClient)
      → m + n ≡ c.max_retries
      → (loop rounds n c).0 ≡ exited
      → Spent m c.max_retries rounds
  unfolding loop connect_loop
  loop_exits [] n m c l e = absurd cc
  loop_exits (stop ∷ rounds) n m c l e = absurd cc
  loop_exits (no_answer x ∷ rounds) n m c l e =
      exits_Fails (no_answer x) rounds n m c tt l e (λ k l d h x. loop_exits rounds k l d h x)
  loop_exits (answered status looks ∷ rounds) n m c l e = elim (Bool-cases (status == 200)) [
    | inl good ↦
        inr
          (answered_exits status looks rounds n c good e (λ k l d h x. loop_exits rounds k l d h x))
    | inr other ↦
        exits_Fails (answered status looks) rounds n m c (λ same. ground arith) l e
          (λ k l d h x. loop_exits rounds k l d h x)
  ]

  -- The program exits only after more than max_retries rounds in a row whose request was not
  -- answered with status 200: every such answer starts the count again.
  pub connect_stream_exits :
      (rounds : List Round) (c : StreamClient)
      → (connect_stream urls requestable parse_duration rounds c).0 ≡ exited
      → Streak (suc c.max_retries) rounds
  unfolding connect_stream loop
  connect_stream_exits rounds c e = elim (loop_exits rounds 0 c.max_retries c (omega arith) e) [
    | inl fs ↦ first_Streak c.max_retries rounds fs
    | inr s ↦ s
  ]
