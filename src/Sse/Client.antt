-- ===== src/Sse/Client.antt =====
-- sse/client.go: the parser of recvVal and the retry loop of Get and Post. What the network gives is
-- an argument, time.ParseDuration a parameter. A Duration is its 64-bit pattern.
pub mod Retry
pub mod Cancel
use magic_engine.Common.{
  ℕ, ◌+◌, ◌*◌, ◌%◌, ◌^◌, Bool, true, false, Option, none, some, List, [], ◌∷◌, ◌++◌, leb,
  if◌then◌else◌, Bytes, codes, has_prefix, trim_prefix,
}
use magic_engine.NetHttp.{Error, Try, ok, err}
use magic_engine.Sse.Text.{trim_space, read_lines}

-- Event, less the field Retry, which no code reads or sets. `content` is Data, none for a nil slice.
pub record Event : Type 0 where
  pub id : Bytes
  pub name : Bytes
  pub content : Option Bytes

-- Event{}
abbrev pub no_event : Event
no_event = record { id = []; name = []; content = none }

-- Client, with the calls of OnRecv on the sink, the waits, and the Last-Event-ID of the requests that
-- it sent, oldest first.
pub record Client : Type 0 where
  pub max_retries : ℕ
  pub retry_wait : ℕ
  pub last_event_id : Bytes
  pub received : List (Bytes × Bytes)
  pub waits : List ℕ
  pub requests : List Bytes
  pub closed : Bool

-- NewClient
unfoldable pub new_client : ℕ → ℕ → Client
new_client retry_wait max_retries = record {
  max_retries = max_retries;
  retry_wait = retry_wait;
  last_event_id = [];
  received = [];
  waits = [];
  requests = [];
  closed = false;
}

-- append(currentEvent.Data, …) and the newline
abbrev pub append_data : Option Bytes → Bytes → Bytes
append_data none b = b ++ 10 ∷ []
append_data (some before) b = (before ++ b) ++ 10 ∷ []

-- A blank line ends the event.
abbrev pub dispatch_event : Option Bytes → Event → Client → Client
dispatch_event none ev c = c
dispatch_event (some b) ev c = record c {
  last_event_id = ev.id;
  received = c.received ++ (ev.name, b) ∷ [];
}

abbrev pub set_retry : Option ℕ → Client → Client
set_retry none c = c
set_retry (some wait) c = record c { retry_wait = wait }

-- The value of a field: what follows its name
abbrev pub value_of : Bytes → Bytes → Bytes
value_of line name = trim_space (trim_prefix line name)

module _ (parse_duration : Bytes → Option ℕ) where
  -- The switch of recvVal, on a line that is trimmed and not empty
  unfoldable pub field : Bytes → Event → Client → Event × Client
  unfolding has_prefix trim_prefix trim_space
  field line ev c =
      if has_prefix line (codes "event:")
      then (record ev { name = value_of line (codes "event:") }, c)
      else if has_prefix line (codes "id:")
      then (record ev { id = value_of line (codes "id:") }, c)
      else if has_prefix line (codes "data:")
      then (
        record ev { content = some (append_data ev.content (value_of line (codes "data:"))) },
        c,
      )
      else if has_prefix line (codes "retry:")
      then (ev, set_retry (parse_duration (value_of line (codes "retry:"))) c)
      else (ev, c)

  -- A round of the loop of recvVal, on a trimmed line
  unfoldable pub feed : Bytes → Event → Client → Event × Client
  unfolding field
  feed [] ev c = (no_event, dispatch_event ev.content ev c)
  feed (b ∷ line) ev c = field (b ∷ line) ev c

  -- The loop of recvVal over lines
  unfoldable pub recv_lines : List Bytes → Event → Client → Event × Client
  unfolding feed trim_space
  recv_lines [] ev c = (ev, c)
  recv_lines (line ∷ lines) ev c =
      let (ev', c') = feed (trim_space line) ev c in recv_lines lines ev' c'

  -- recvVal over the bytes that the body gave
  unfoldable pub recv_val : Bytes → Client → Client
  unfolding recv_lines read_lines
  recv_val body c = (recv_lines (read_lines body) no_event c).1

-- How the reads of a body end: with io.EOF, with another error, or with the context of the request.
pub data Ending : Type 0 where
  body_end : Ending
  read_failed : Error → Ending
  cancelled : Ending

-- A round of the loop of Get or Post: the context is done; or an attempt, whose request could not be
-- made, or was not answered with a body and status 200, or was answered with the bytes of a body.
pub data Round : Type 0 where
  context_done : Error → Round
  not_made : Error → Round
  refused : Error → Round
  streamed : Bytes → Ending → Round

-- How Get ends, or `waiting` where the rounds given so far leave it in the loop.
pub data Ended : Type 0 where
  finished : Option Error → Ended
  waiting : Ended

-- handleRetry
unfoldable pub handle_retry : ℕ → Client → Try ℕ × Client
handle_retry retry_count c =
    if leb c.max_retries retry_count then (err (codes "max retries exceeded"), c) else (
      ok (retry_count + 1),
      record c { waits = c.waits ++ ((c.retry_wait * 2 ^ retry_count) % 2 ^ 64) ∷ [] },
    )

-- The request with its Last-Event-ID, empty where the header is not set
abbrev pub send_request : Client → Client
send_request c = record c { requests = c.requests ++ c.last_event_id ∷ [] }

abbrev pub error_of : Ending → Option Error
error_of body_end = none
error_of (read_failed e) = some e
error_of cancelled = none

-- What the loop does with the result of handleRetry
abbrev pub after_retry : (ℕ → Client → Ended × Client) → Error → Try ℕ × Client → Ended × Client
after_retry again e (err x, c) = (finished (some e), record c { closed = true })
after_retry again e (ok n, c) = again (n + 1) c

-- What the loop does with the result of an attempt
abbrev pub after_action : (ℕ → Client → Ended × Client) → ℕ → Option Error → Client → Ended × Client
after_action again retry_count none c = (finished none, c)
after_action again retry_count (some e) c = after_retry again e (handle_retry retry_count c)

module _ (parse_duration : Bytes → Option ℕ) where
  -- The loop of Get and Post, over what its rounds meet
  unfoldable pub get_loop : List Round → ℕ → Client → Ended × Client
  unfolding handle_retry recv_val
  get_loop [] n c = (waiting, c)
  get_loop (context_done e ∷ rounds) n c = (finished (some e), c)
  get_loop (not_made e ∷ rounds) n c = after_action (get_loop rounds) n (some e) c
  get_loop (refused e ∷ rounds) n c = after_action (get_loop rounds) n (some e) (send_request c)
  get_loop (streamed body ending ∷ rounds) n c =
      after_action (get_loop rounds) n (error_of ending)
        (recv_val parse_duration body (send_request c))

  -- Get, over what url.ParseRequestURI returns
  unfoldable pub get : Option Error → List Round → Client → Ended × Client
  unfolding get_loop
  get (some e) rounds c = (finished (some e), c)
  get none rounds c = get_loop rounds 0 c

  -- Post. The bytes that it sends and the message of a refusal make no difference to the loop.
  unfoldable pub post : Option Error → List Round → Client → Ended × Client
  unfolding get_loop
  post (some e) rounds c = (finished (some e), c)
  post none rounds c = get_loop rounds 0 c
