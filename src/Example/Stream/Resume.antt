-- ===== src/Example/Stream/Resume.antt =====
-- example/sse, Connect: the Last-Event-ID of the requests.
use magic_engine.Common.{
  if_either, ℕ, ◌≡◌, refl, ap, Bool, Option, none, some, List, [], ◌∷◌, leb, ◌==◌, Bytes, codes,
  has_prefix, trim_prefix,
}
use magic_engine.Http.Url.{Urls}
use magic_engine.Example.Stream.{
  Event, Act, requested, emitted, slept, StreamClient, Look, context_done, read_line, read_failed,
  Round, stop, no_answer, answered, Left, returned, exited, nil_pointer, in_loop, end_event,
  set_retry_wait, no_event, take_line, process_looks, process_stream, handle_retry_exit,
  request_headers, again_after, after_stream, request_url, send, take_answer, send_and_take,
  connect_loop, connect_stream,
}
use magic_engine.Sse.Text.{trim_space}

-- The id of the newest event among some acts, empty where there is none
abbrev pub newest_id : List Act → Bytes
newest_id [] = []
newest_id (requested r ∷ acts) = newest_id acts
newest_id (emitted ev ∷ acts) = ev.id
newest_id (slept wait ∷ acts) = newest_id acts

-- Each request has the headers for the newest event before it.
abbrev pub Resuming : List Act → Type 0
Resuming [] = Unit
Resuming (requested r ∷ acts) = (r.headers ≡ request_headers (newest_id acts)) × Resuming acts
Resuming (emitted ev ∷ acts) = Resuming acts
Resuming (slept wait ∷ acts) = Resuming acts

abbrev pub IsResuming : StreamClient → Type 0
IsResuming c = (c.last_event_id ≡ newest_id c.acts) × Resuming c.acts

end_event-IsResuming :
    (b : Option Bytes) (ev : Event) (c : StreamClient)
    → IsResuming c
    → IsResuming (end_event b ev c)
end_event-IsResuming none ev c h = h
end_event-IsResuming (some b) ev c (e, h) = (refl, h)

set_retry_wait-IsResuming :
    (w : Option ℕ) (c : StreamClient) → IsResuming c → IsResuming (set_retry_wait w c)
set_retry_wait-IsResuming none c h = h
set_retry_wait-IsResuming (some w) c h = h

module _ (parse_duration : Bytes → Option ℕ) where
  take_line-IsResuming :
      (line : Bytes) (ev : Event) (c : StreamClient)
      → IsResuming c
      → IsResuming (take_line parse_duration line ev c).1
  unfolding take_line
  take_line-IsResuming [] ev c h = end_event-IsResuming ev.content ev c h
  take_line-IsResuming (b ∷ line) ev c h =
      if_either (λ (r : Event × StreamClient). IsResuming r.1) (has_prefix (b ∷ line) (codes "id:"))
        h
        (if_either (λ (r : Event × StreamClient). IsResuming r.1)
          (has_prefix (b ∷ line) (codes "data:")) h
          (if_either (λ (r : Event × StreamClient). IsResuming r.1)
            (has_prefix (b ∷ line) (codes "retry:"))
            (set_retry_wait-IsResuming (parse_duration (trim_prefix (b ∷ line) (codes "retry:"))) c
              h)
            h))

  process_looks-IsResuming :
      (looks : List Look) (ev : Event) (c : StreamClient)
      → IsResuming c
      → IsResuming (process_looks parse_duration looks ev c).1
  unfolding process_looks
  process_looks-IsResuming [] ev c h = h
  process_looks-IsResuming (context_done ∷ looks) ev c h = h
  process_looks-IsResuming (read_failed e ∷ looks) ev c h = h
  process_looks-IsResuming (read_line line ∷ looks) ev c h =
      let (ev', c') = take_line parse_duration (trim_space line) ev c in
      process_looks-IsResuming looks ev' c' (take_line-IsResuming (trim_space line) ev c h)

handle_retry_exit-IsResuming :
    (n : ℕ) (c : StreamClient) → IsResuming c → IsResuming (handle_retry_exit n c).1
unfolding handle_retry_exit
handle_retry_exit-IsResuming n c h =
    if_either (λ (r : Option ℕ × StreamClient). IsResuming r.1) (leb c.max_retries n) h h

module _ (again : ℕ → StreamClient → Left × StreamClient)
    (keeps : (n : ℕ) (c : StreamClient) → IsResuming c → IsResuming (again n c).1) where
  again_after-IsResuming :
      (r : Option ℕ × StreamClient) → IsResuming r.1 → IsResuming (again_after again r).1
  again_after-IsResuming (none, c) h = h
  again_after-IsResuming (some n, c) h = keeps n c h

  after_stream-IsResuming :
      (r : Left × StreamClient) → IsResuming r.1 → IsResuming (after_stream again r).1
  after_stream-IsResuming (returned, c) h = keeps 0 c h
  after_stream-IsResuming (exited, c) h = h
  after_stream-IsResuming (nil_pointer, c) h = h
  after_stream-IsResuming (in_loop, c) h = h

  module _ (urls : Urls) (requestable : Bytes → Bool) (parse_duration : Bytes → Option ℕ) where
    take_answer-IsResuming :
        (r : Round) (n : ℕ) (c : StreamClient)
        → IsResuming c
        → IsResuming (take_answer urls requestable parse_duration again r n c).1
    unfolding take_answer process_stream
    take_answer-IsResuming stop n c h = h
    take_answer-IsResuming (no_answer e) n c h =
        again_after-IsResuming (handle_retry_exit n c) (handle_retry_exit-IsResuming n c h)
    take_answer-IsResuming (answered status looks) n c h =
        if_either (λ (r : Left × StreamClient). IsResuming r.1) (status == 200)
          (after_stream-IsResuming (process_looks parse_duration looks no_event c)
            (process_looks-IsResuming parse_duration looks no_event c h))
          (again_after-IsResuming (handle_retry_exit n c) (handle_retry_exit-IsResuming n c h))

    send_and_take-IsResuming :
        (url : Option Bytes) (r : Round) (n : ℕ) (c : StreamClient)
        → IsResuming c
        → IsResuming (send_and_take urls requestable parse_duration again url r n c).1
    send_and_take-IsResuming none r n c h = h
    send_and_take-IsResuming (some url) r n c (e, h) =
        take_answer-IsResuming r n (send urls requestable url c) (e, (ap request_headers e, h))

module _ (urls : Urls) (requestable : Bytes → Bool) (parse_duration : Bytes → Option ℕ) where
  connect_loop-IsResuming :
      (rounds : List Round) (n : ℕ) (c : StreamClient)
      → IsResuming c
      → IsResuming (connect_loop urls requestable parse_duration rounds n c).1
  unfolding connect_loop
  connect_loop-IsResuming [] n c h = h
  connect_loop-IsResuming (stop ∷ rounds) n c h = h
  connect_loop-IsResuming (no_answer e ∷ rounds) n c h =
      send_and_take-IsResuming (connect_loop urls requestable parse_duration rounds)
        (connect_loop-IsResuming rounds) urls requestable parse_duration
        (request_url urls requestable c) (no_answer e) n c h
  connect_loop-IsResuming (answered status looks ∷ rounds) n c h =
      send_and_take-IsResuming (connect_loop urls requestable parse_duration rounds)
        (connect_loop-IsResuming rounds) urls requestable parse_duration
        (request_url urls requestable c) (answered status looks) n c h

  -- From a client whose last event id is the id of the newest event that it emitted, and each of
  -- whose requests has the headers for the newest event emitted before it (no Last-Event-ID where
  -- there was none or its id was empty), Connect leads to such a client again, whatever the servers
  -- answer, after any number of rounds.
  pub connect_stream-IsResuming :
      (rounds : List Round) (c : StreamClient)
      → IsResuming c
      → IsResuming (connect_stream urls requestable parse_duration rounds c).1
  unfolding connect_stream
  connect_stream-IsResuming rounds c h = connect_loop-IsResuming rounds 0 c h
