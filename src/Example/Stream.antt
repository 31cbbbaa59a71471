-- ===== src/Example/Stream.antt =====
-- example/sse: a client of server-sent events. The server's answers are arguments; net/url,
-- http.NewRequest and time.ParseDuration are parameters. A Duration is its 64-bit pattern. A send on
-- eventChan waits while 100 events are unread; of that, the model has the order of the sends only.
pub mod Blocks
pub mod Retries
pub mod Exits
pub mod Resume
pub mod Clients
use magic_engine.Common.{
  ℕ, ◌+◌, ◌-◌, ◌*◌, ◌/◌, ◌%◌, ◌^◌, Bool, true, false, ◌||◌, Option, none, some, List, [], ◌∷◌, ◌++◌,
  leb, ◌==◌, if◌then◌else◌, Bytes, codes, bytes_eq, has_prefix, trim_prefix,
}
use magic_engine.NetHttp.{Error, Try, ok, err}
use magic_engine.Http.Url.{Url, Urls, Values, set_value}
use magic_engine.Sse.Text.{trim_space}

-- Event, less the fields Type and Retry, which no code reads or sets. `content` is Data, none for a
-- nil slice.
pub record Event : Type 0 where
  pub id : Bytes
  pub content : Option Bytes

-- Event{}
abbrev pub no_event : Event
no_event = record { id = []; content = none }

-- A request with the headers that the code sets, in their order
pub record WebRequest : Type 0 where
  pub url : Bytes
  pub headers : List (Bytes × Bytes)

-- What the client does that its surroundings see
pub data Act : Type 0 where
  requested : WebRequest → Act
  emitted : Event → Act
  slept : ℕ → Act

-- SSEClient with its SSEConfig, and what it did, the newest act first
pub record StreamClient : Type 0 where
  pub server_url : Bytes
  pub custom_params : Values
  pub max_retries : ℕ
  pub retry_wait : ℕ
  pub last_event_id : Bytes
  pub acts : List Act

-- NewSSEClient
unfoldable pub new_stream_client : Bytes → ℕ → ℕ → Values → StreamClient
new_stream_client server_url retry_wait max_retries params = record {
  server_url = server_url;
  custom_params = params;
  max_retries = max_retries;
  retry_wait = retry_wait;
  last_event_id = [];
  acts = [];
}

abbrev pub act : Act → StreamClient → StreamClient
act a c = record c { acts = a ∷ c.acts }

-- A look of processStream at its context and its reader: the context is done, or a line with its
-- newline, or an error, io.EOF included
pub data Look : Type 0 where
  context_done : Look
  read_line : Bytes → Look
  read_failed : Error → Look

-- A round of the loop of Connect: the context is done, or what Do gives for the request of the
-- round: an error, or a status and a body
pub data Round : Type 0 where
  stop : Round
  no_answer : Error → Round
  answered : ℕ → List Look → Round

-- How a loop ends: it returns, or the program exits, or it panics on a nil URL or request; or
-- `in_loop` where what was given so far leaves it in the loop.
pub data Left : Type 0 where
  returned : Left
  exited : Left
  nil_pointer : Left
  in_loop : Left

-- A blank line ends the event.
abbrev pub end_event : Option Bytes → Event → StreamClient → StreamClient
end_event none ev c = c
end_event (some b) ev c = act (emitted ev) (record c { last_event_id = ev.id })

-- append(currentEvent.Data, …) and the newline
abbrev pub add_data : Option Bytes → Bytes → Bytes
add_data none b = b ++ 10 ∷ []
add_data (some before) b = (before ++ b) ++ 10 ∷ []

abbrev pub set_retry_wait : Option ℕ → StreamClient → StreamClient
set_retry_wait none c = c
set_retry_wait (some wait) c = record c { retry_wait = wait }

module _ (parse_duration : Bytes → Option ℕ) where
  -- A round of the loop of processStream, on a trimmed line
  unfoldable pub take_line : Bytes → Event → StreamClient → Event × StreamClient
  unfolding has_prefix trim_prefix
  take_line [] ev c = (no_event, end_event ev.content ev c)
  take_line (b ∷ line) ev c =
      if has_prefix (b ∷ line) (codes "id:")
      then (record ev { id = trim_prefix (b ∷ line) (codes "id:") }, c)
      else if has_prefix (b ∷ line) (codes "data:")
      then (
        record ev { content = some (add_data ev.content (trim_prefix (b ∷ line) (codes "data:"))) },
        c,
      )
      else if has_prefix (b ∷ line) (codes "retry:")
      then (ev, set_retry_wait (parse_duration (trim_prefix (b ∷ line) (codes "retry:"))) c)
      else (ev, c)

  -- The loop of processStream
  unfoldable pub process_looks : List Look → Event → StreamClient → Left × StreamClient
  unfolding take_line trim_space
  process_looks [] ev c = (in_loop, c)
  process_looks (context_done ∷ looks) ev c = (returned, c)
  process_looks (read_failed e ∷ looks) ev c = (returned, c)
  process_looks (read_line line ∷ looks) ev c =
      let (ev', c') = take_line (trim_space line) ev c in process_looks looks ev' c'

  -- processStream
  unfoldable pub process_stream : List Look → StreamClient → Left × StreamClient
  unfolding process_looks
  process_stream looks c = process_looks looks no_event c

-- handleRetry: the next count, or none where the program exits
unfoldable pub handle_retry_exit : ℕ → StreamClient → Option ℕ × StreamClient
handle_retry_exit retry_count c =
    if leb c.max_retries retry_count
    then (none, c)
    else (some (retry_count + 1), act (slept ((c.retry_wait * 2 ^ retry_count) % 2 ^ 64)) c)

-- The headers of a request for the last event id of the client
abbrev pub request_headers : Bytes → List (Bytes × Bytes)
request_headers last_id =
    (codes "Accept", codes "text/event-stream")
    ∷ (codes "Cache-Control", codes "no-cache")
    ∷ (if bytes_eq last_id [] then [] else (codes "Last-Event-ID", last_id) ∷ [])

-- What the loop of Connect does after handleRetry
abbrev pub again_after :
    (ℕ → StreamClient → Left × StreamClient) → Option ℕ × StreamClient → Left × StreamClient
again_after again (none, c) = (exited, c)
again_after again (some n, c) = again n c

-- What it does after processStream
abbrev pub after_stream :
    (ℕ → StreamClient → Left × StreamClient) → Left × StreamClient → Left × StreamClient
after_stream again (returned, c) = again 0 c
after_stream again (exited, c) = (exited, c)
after_stream again (nil_pointer, c) = (nil_pointer, c)
after_stream again (in_loop, c) = (in_loop, c)

-- The URL of the requests: net/url gives none where it cannot parse one, and http.NewRequest makes
-- no request of a URL for which `requestable` is false; the code goes on with a nil pointer.
module _ (urls : Urls) (requestable : Bytes → Bool) where
  abbrev pub with_query : Values → Try Url → Option Bytes
  with_query params (err e) = none
  with_query params (ok u) =
      let url = urls.text (record u { raw_query = urls.encode params }) in
      if requestable url then some url else none

  unfoldable pub request_url : StreamClient → Option Bytes
  request_url c = with_query c.custom_params (urls.parse c.server_url)

  -- The request of a round
  abbrev pub send : Bytes → StreamClient → StreamClient
  send url c = act (requested (record { url = url; headers = request_headers c.last_event_id })) c

  module _ (parse_duration : Bytes → Option ℕ) where
    -- What a round does once its request is sent
    unfoldable pub take_answer :
        (ℕ → StreamClient → Left × StreamClient) → Round → ℕ → StreamClient → Left × StreamClient
    unfolding handle_retry_exit process_stream
    take_answer again stop n c = (returned, c)
    take_answer again (no_answer e) n c = again_after again (handle_retry_exit n c)
    take_answer again (answered status looks) n c =
        if status == 200
        then after_stream again (process_stream parse_duration looks c)
        else again_after again (handle_retry_exit n c)

    abbrev pub send_and_take :
        (ℕ → StreamClient → Left × StreamClient)
        → Option Bytes
        → Round
        → ℕ
        → StreamClient
        → Left × StreamClient
    send_and_take again none r n c = (nil_pointer, c)
    send_and_take again (some url) r n c = take_answer again r n (send url c)

    -- The loop of Connect
    unfoldable pub connect_loop : List Round → ℕ → StreamClient → Left × StreamClient
    unfolding take_answer request_url
    connect_loop [] n c = (in_loop, c)
    connect_loop (stop ∷ rounds) n c = (returned, c)
    connect_loop (no_answer e ∷ rounds) n c =
        send_and_take (connect_loop rounds) (request_url c) (no_answer e) n c
    connect_loop (answered status looks ∷ rounds) n c =
        send_and_take (connect_loop rounds) (request_url c) (answered status looks) n c

    -- Connect
    unfoldable pub connect_stream : List Round → StreamClient → Left × StreamClient
    unfolding connect_loop
    connect_stream rounds c = connect_loop rounds 0 c

-- bytes.Contains
unfoldable pub contains : Bytes → Bytes → Bool
unfolding has_prefix
contains [] sub = has_prefix [] sub
contains (b ∷ s) sub = has_prefix (b ∷ s) sub || contains s sub

-- The goroutine of main that handles the events: what is left of the query parameters, and whether
-- it cancelled the context
unfoldable pub handle_events : List Event → Values → Bool × Values
unfolding contains
handle_events [] params = (false, params)
handle_events (ev ∷ evs) params =
    let rest = handle_events evs params in
    if contains (elim ev.content [ none ↦ [] | some b ↦ b ]) (codes "change_category")
    then (true, set_value (codes "category") (codes "updated") params)
    else rest

-- The client of main
unfoldable pub example_client : StreamClient
unfolding new_stream_client
example_client =
    new_stream_client (codes "http://localhost:8080/events") 1000000000 5
      ((codes "category", (codes "initial", [])) ∷ [])
