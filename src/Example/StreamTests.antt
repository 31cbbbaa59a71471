-- ===== src/Example/StreamTests.antt =====
-- The theorems on the client of example/sse at concrete inputs, and runs of it.
use magic_engine.Common.{
  All, map, assign, ℕ, suc, ◌≡◌, refl, ap, Bool, true, Option, none, some, List, [], ◌∷◌, ◌++◌,
  arith, if◌then◌else◌, drop, Bytes, codes, bytes_eq, has_prefix, trim_prefix,
}
use magic_engine.NetHttp.{ok}
use magic_engine.Http.Url.{Urls}
use magic_engine.NetHttp.{Reply}
use magic_engine.Sse.Text.{trim_space}
use magic_engine.Example.Stream.{
  requested, emitted, act, Look, read_line, read_failed, Round, no_answer, answered, exited,
  process_stream, process_looks, take_line, request_headers, request_url, take_answer, connect_loop,
  connect_stream, example_client, handle_events, contains,
}
use magic_engine.Example.Stream.Clients.{IsUnspaced, Agree, process_stream-recv_val}
use magic_engine.Sse.Text.{read_lines}
use magic_engine.Sse.Client.{Client, new_client, recv_val}
use magic_engine.Example.Stream.Blocks.{after_event, process_stream-after_event}
use magic_engine.Example.Stream.Retries.{
  request_of, tried, FailsFirst, Streak, connect_stream_gives_up,
}
use magic_engine.Example.Stream.Exits.{connect_stream_exits}
use magic_engine.Example.Stream.Resume.{IsResuming, connect_stream-IsResuming}

-- net/url on the URLs of the tests: a URL is its path
abbrev urls : Urls
urls = record {
  parse = λ text. ok (record { scheme = []; host = []; path = text; raw_query = []; others = [] });
  parse_query = λ query. [];
  encode = λ values. codes "category=initial";
  hostname = λ host. host;
  text = λ u. u.path ++ 63 ∷ u.raw_query;
  redirect = λ req url code. Reply.done;
}

abbrev any_url : Bytes → Bool
any_url url = true

-- a parser of durations that knows one
abbrev durations : Bytes → Option ℕ
durations text = if bytes_eq text (codes "2s") then some 2000000000 else none

abbrev url : Bytes
url = codes "http://localhost:8080/events?category=initial"

abbrev refusals : List Round
refusals =
    no_answer (codes "refused")
    ∷ answered 503 []
    ∷ no_answer (codes "refused")
    ∷ answered 500 []
    ∷ answered 404 []
    ∷ no_answer (codes "refused")
    ∷ []

example_url : request_url urls any_url example_client ≡ some url
unfolding request_url example_client
example_url = refl

refused_always : FailsFirst (suc example_client.max_retries) refusals
unfolding example_client
refused_always =
    (tt, ((λ e. omega arith), (tt, ((λ e. omega arith), ((λ e. omega arith), (tt, tt))))))

connect_stream_gives_up_example : connect_stream urls any_url durations refusals example_client ≡ (
  exited,
  act
      (requested (request_of url example_client))
      (tried url example_client.max_retries example_client),
)
connect_stream_gives_up_example =
    connect_stream_gives_up urls any_url durations refusals example_client url example_url
      refused_always

gives_up : (connect_stream urls any_url durations refusals example_client).0 ≡ exited
gives_up =
    ap (λ p. p.0)
      (connect_stream_gives_up urls any_url durations refusals example_client url example_url
        refused_always)

connect_stream_exits_example : Streak (suc example_client.max_retries) refusals
connect_stream_exits_example =
    connect_stream_exits urls any_url durations refusals example_client gives_up

-- an event with an id and two lines of data, then one without an id
abbrev frames : List Look
frames =
    read_line (codes "id: 7\n")
    ∷ read_line (codes "data:one\n")
    ∷ read_line (codes "data: two\n")
    ∷ read_line (codes "retry:2s\n")
    ∷ read_line (codes "\n")
    ∷ read_line (codes "data:three\n")
    ∷ read_line (codes "\n")
    ∷ read_failed (codes "EOF")
    ∷ []

process_stream-after_event_example :
    process_stream durations frames example_client
    ≡ process_stream durations (drop 5 frames) (
        after_event durations
          (codes "id: 7" ∷ codes "data:one" ∷ codes "data: two" ∷ codes "retry:2s" ∷ [])
          example_client)
unfolding trim_space
process_stream-after_event_example =
    process_stream-after_event durations
      (codes "id: 7\n" ∷ codes "data:one\n" ∷ codes "data: two\n" ∷ codes "retry:2s\n" ∷ [])
      (codes "\n") (drop 5 frames) example_client
      ((λ e. absurd cc), ((λ e. absurd cc), ((λ e. absurd cc), ((λ e. absurd cc), tt)))) refl

example_client-IsResuming : IsResuming example_client
unfolding example_client
example_client-IsResuming = (refl, tt)

connect_stream-IsResuming_example :
    IsResuming
      (connect_stream urls any_url durations
        (no_answer (codes "refused") ∷ answered 200 frames ∷ answered 200 frames ∷ [])
        example_client).1
connect_stream-IsResuming_example =
    connect_stream-IsResuming urls any_url durations
      (no_answer (codes "refused") ∷ answered 200 frames ∷ answered 200 frames ∷ []) example_client
      example_client-IsResuming

-- An event with the id 7, whose value keeps the space behind the colon, and one without an id: the
-- next request has no Last-Event-ID.
run_over_frames :
    let c = (connect_stream urls any_url durations (answered 200 frames ∷ []) example_client).1 in
    (c.acts
      ≡ emitted (record { id = []; content = some (codes "three\n") })
        ∷ emitted (record { id = codes " 7"; content = some (codes "one\n two\n") })
        ∷ requested (record { url = url; headers = request_headers [] })
        ∷ [])
    × (c.last_event_id ≡ [])
    × (c.retry_wait ≡ 2000000000)
unfolding connect_stream connect_loop take_answer process_stream process_looks take_line request_url
    example_client trim_space has_prefix trim_prefix bytes_eq
run_over_frames = (refl, refl, refl)

-- An event that changes the category cancels the context.
category_changed :
    handle_events (record { id = []; content = some (codes "x change_category\n") } ∷ []) []
    ≡ (true, (codes "category", (codes "updated", [])) ∷ [])
unfolding handle_events contains has_prefix assign
category_changed = refl

abbrev unspaced_body : Bytes
unspaced_body = codes "event:news\nid:7\ndata:one\ndata:two\n\ndata:three\n\n"

abbrev sse_client : Client
sse_client = new_client 1000000000 5

unspaced_body-IsUnspaced : All (λ line. IsUnspaced (trim_space line)) (read_lines unspaced_body)
unfolding read_lines trim_space trim_prefix has_prefix
unspaced_body-IsUnspaced = (
  (refl, refl, refl),
  (
    (refl, refl, refl),
    (
      (refl, refl, refl),
      ((refl, refl, refl), ((refl, refl, refl), ((refl, refl, refl), ((refl, refl, refl), tt)))),
    ),
  ),
)

example_client-Agree : Agree example_client sse_client
unfolding example_client new_client
example_client-Agree = (refl, refl, refl)

process_stream-recv_val_example :
    Agree
      (process_stream durations (map read_line (read_lines unspaced_body)) example_client).1
      (recv_val durations unspaced_body sse_client)
process_stream-recv_val_example =
    process_stream-recv_val durations unspaced_body example_client sse_client
      unspaced_body-IsUnspaced example_client-Agree
