-- ===== src/Sse/Tests.antt =====
-- The theorems on package sse at concrete inputs: a response that is the bytes of its body, and
-- failing responses.
use magic_engine.Common.{
  ℕ, ◌≡◌, refl, Bool, true, false, ◌||◌, Option, none, some, List, [], ◌∷◌, ◌++◌, arith, ◌==◌,
  if◌then◌else◌, length, Bytes, codes, bytes_eq,
}
use magic_engine.Sse.Text.{trim_space, OneLine}
use magic_engine.NetHttp.{Error, NetWriter, Request}
use magic_engine.Sse.Server.{
  Holder, registry_new_holder, registry_on_close, get_holder, on_recv, heartbeat,
}
use magic_engine.Sse.Server.Closing.{registry_new_holder-get_holder}
use magic_engine.Sse.Client.{
  Client, Ended, refused, streamed, body_end, finished, recv_val, get, post,
}
use magic_engine.Sse.Client.Retry.{failing, get_gives_up, get_recovers}
use magic_engine.Sse.RoundTrip.{Item, Plain, message, ping}
use magic_engine.Sse.RoundTrip.Serve.{serve, untimed, Healthy, serve-recv_val}

instance abbrev pub body_writer : NetWriter Bytes
body_writer = record {
  set_header = λ w key value. w;
  write_header = λ w code. w;
  write = λ w b. (w ++ b, length b, none);
}

pub body_writer-Healthy : Healthy body_writer (λ w. w)
body_writer-Healthy = record {
  appends = λ w b. refl;
  succeeds = λ w b. refl;
  header_only = λ w key value. refl;
}

-- A response whose connection is gone
instance abbrev broken_writer : NetWriter Unit
broken_writer = record {
  set_header = λ w key value. w;
  write_header = λ w code. w;
  write = λ w b. (w, 0, some (codes "broken pipe"));
}

abbrev pub no_duration : Bytes → Option ℕ
no_duration b = none

abbrev pub holder : Holder Bytes
holder = record {
  writer = [];
  last_active = 0;
  sse_id = codes "a1";
  registered = true;
  master_flag = false;
}

abbrev lost_holder : Holder Unit
lost_holder = record {
  writer = tt;
  last_active = 0;
  sse_id = codes "a1";
  registered = true;
  master_flag = false;
}

abbrev items : List (ℕ × Item)
items =
    (1, message (codes "sseID") (codes "a1")) ∷ (2, ping) ∷ (3, message [] (codes " hello ")) ∷ []

abbrev pub client : Client
client = record {
  max_retries = 3;
  retry_wait = 1000;
  last_event_id = codes "7";
  received = [];
  waits = [];
  requests = [];
  closed = false;
}

abbrev request : Bytes → Request
request id = record {
  method = codes "GET";
  path = codes "/";
  raw_query = [];
  header = λ key. if bytes_eq key (codes "X-SSE-ID") then id else [];
  remote_addr = [];
}

serve-items_body :
    (serve items holder []).0.writer ≡ codes "event: sseID\ndata: a1\n\n: ping\n\ndata:  hello \n\n"
unfolding serve on_recv heartbeat
serve-items_body = refl

unfoldable pub has_newline : Bytes → Bool
has_newline [] = false
has_newline (c ∷ s) = (c == 10) || has_newline s

pub has_newline-OneLine : (s : Bytes) → has_newline s ≡ false → OneLine s
unfolding has_newline
has_newline-OneLine [] h = tt
has_newline-OneLine (c ∷ s) h = ((λ e. ground arith), has_newline-OneLine s (ground arith))

items-Plain : Plain (untimed items)
unfolding has_newline
items-Plain = (
  (has_newline-OneLine (codes "sseID") refl, has_newline-OneLine (codes "a1") refl),
  ((tt, has_newline-OneLine (codes " hello ") refl), tt),
)

serve-recv_val_example :
    (recv_val no_duration (serve items holder []).0.writer client ≡ record client {
      last_event_id = [];
      received = (codes "sseID", codes "a1\n") ∷ ([], codes "hello\n") ∷ [];
    })
    × ((serve items holder []).1 ≡ [])
unfolding trim_space
serve-recv_val_example =
    serve-recv_val (λ w. w) body_writer-Healthy no_duration items holder [] client items-Plain refl

abbrev two_refusals : List Error
two_refusals = codes "refused" ∷ codes "refused" ∷ []

abbrev gave_up : Ended × Client
gave_up = (
  finished (some (codes "timeout")),
  record client {
    waits = 1000 ∷ 4000 ∷ [];
    requests = codes "7" ∷ codes "7" ∷ codes "7" ∷ [];
    closed = true;
  },
)

get_gives_up_example :
    (get no_duration none (failing two_refusals ++ refused (codes "timeout") ∷ []) client ≡ gave_up)
    × (post no_duration none (failing two_refusals ++ refused (codes "timeout") ∷ []) client
        ≡ gave_up)
get_gives_up_example =
    get_gives_up no_duration two_refusals (codes "timeout") [] client (omega arith) (omega arith)

abbrev one_message : Bytes
one_message = codes "id: 8\ndata: x\n\n"

abbrev recovered : Ended × Client
recovered = (
  finished none,
  record client {
    last_event_id = codes "8";
    received = ([], codes "x\n") ∷ [];
    waits = 1000 ∷ [];
    requests = codes "7" ∷ codes "7" ∷ [];
  },
)

get_recovers_test :
    (get no_duration none
        (failing (codes "refused" ∷ []) ++ streamed one_message body_end ∷ [])
        client
      ≡ recovered)
    × (post no_duration none
          (failing (codes "refused" ∷ []) ++ streamed one_message body_end ∷ [])
          client
        ≡ recovered)
unfolding recv_val
get_recovers_test =
    get_recovers no_duration (codes "refused" ∷ []) one_message [] client (omega arith)

registry_new_holder-get_holder_test :
    (get_holder
        (request (codes "b2"))
        (registry_new_holder tt (codes "b2") 5 ((codes "a1", 4) ∷ [])).1
      ≡ some 5)
    × (get_holder (request (codes "b2")) (
          registry_on_close
            (codes "b2")
            (registry_new_holder tt (codes "b2") 5 ((codes "a1", 4) ∷ [])).1)
        ≡ none)
unfolding bytes_eq
registry_new_holder-get_holder_test =
    registry_new_holder-get_holder tt (codes "b2") 5 (request (codes "b2")) ((codes "a1", 4) ∷ [])
      (λ e. ground arith)
