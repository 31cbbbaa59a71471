-- ===== src/Example/Tests.antt =====
-- The theorems on the programs of example/http and example/tcp at concrete inputs: a connection that
-- takes two bytes in a write, and a response writer that keeps its status codes.
use magic_engine.Common.{
  ℕ, ◌+◌, ◌≡◌, refl, true, false, Option, none, some, List, [], ◌∷◌, ◌++◌, arith, ltb,
  if◌then◌else◌, length, take, Bytes, codes, to_upper,
}
use magic_engine.NetHttp.{ok, err, Request, Reply, NetWriter}
use magic_engine.Http.Response.{Outcome, returned}
use magic_engine.Http.Middleware.{State}
use magic_engine.Http.Pattern.{Regexp, match}
use magic_engine.Http.Pattern.Language.{Describes, match_iff}
use magic_engine.Http.Static.{Files, ContextValues, StaticOptions}
use magic_engine.Http.Url.{Urls}
use magic_engine.Http.Proxy.{Forward}
use magic_engine.Http.Server.{HttpServer, Surroundings, serve_http}
use magic_engine.Tcp.Endpoint.{Conn, Endpoint, new_endpoint}
use magic_engine.Tcp.Endpoint.Send.{Writes}
use magic_engine.Tcp.Endpoint.Receive.{joined}
use magic_engine.Tcp.Client.{Client}
use magic_engine.Tcp.Manager.Buffer.{recv_slices, fill}
use magic_engine.Tcp.Endpoint.{send_data, send_loop}
use magic_engine.Example.Echo.{
  new_echo, Turn, reads, runs, Serving, turn, turns, on_recv_data, client_main, dump,
}
use magic_engine.Example.Echo.Returns.{serving, SentBack, turns-in_turn}
use magic_engine.Example.Echo.Sending.{counted, client_main-counted}
use magic_engine.Example.Web.{Calls, example_server}
use magic_engine.Example.Web.Hello.{hello_tokens, serve_http-hello}

abbrev two : ℕ → ℕ
two n = if ltb n 2 then n else 2

instance abbrev partial : Conn Bytes
partial = record {
  write = λ k b. (k ++ take (two (length b)) b, two (length b), none);
  close = λ k. k;
  local_addr = λ k. codes "local";
  remote_addr = λ k. codes "remote";
}

partial-Writes : Writes partial (λ k. k)
partial-Writes = record {
  appends = λ k b. refl;
  within = λ k b. ground arith;
  progress = λ k b none_ more. ground arith;
}

abbrev never_fails : (k b : Bytes) → (partial.write k b).2 ≡ none
never_fails k b = refl

abbrev pieces : List Bytes
pieces = codes "hello" ∷ [] ∷ codes "you" ∷ []

-- Two reads come before their calls run, the second call first.
abbrev late_turns : List Turn
late_turns = reads (codes "hello") ∷ reads [] ∷ reads (codes "you") ∷ runs 1 ∷ runs 0 ∷ []

abbrev late_serving : Serving Bytes
late_serving =
    turns late_turns
      (serving never_fails (λ k. k) partial-Writes [] (new_echo, new_endpoint [] true))

-- What went out: the bytes of the last read, twice
late_serving_output : late_serving.endpoint.conn ≡ codes "youyoulo"
unfolding turns turn recv_slices fill on_recv_data send_data send_loop new_endpoint
late_serving_output = refl

turns-in_turn_example :
    SentBack never_fails
      (λ k. k)
      partial-Writes
      (codes "helloyou")
      []
      (turns
        (reads (codes "hello") ∷ runs 0 ∷ reads [] ∷ runs 0 ∷ reads (codes "you") ∷ runs 0 ∷ [])
        (serving never_fails (λ k. k) partial-Writes [] (new_echo, new_endpoint [] true)))
turns-in_turn_example = turns-in_turn never_fails (λ k. k) partial-Writes pieces [] []

abbrev one_digit : ℕ → Bytes
one_digit n = (b'0' + n) ∷ []

client_main-counted_example :
    let r : Option Bytes × Client Bytes = client_main one_digit (ok []) pieces in
    (r.0 ≡ some (dump one_digit (counted pieces)))
    × ((ep : Endpoint Bytes) × (r.1.endpoint ≡ some ep) × (ep.conn ≡ [] ++ joined pieces))
client_main-counted_example =
    client_main-counted never_fails (λ k. k) partial-Writes one_digit [] pieces (λ d. refl)

abbrev Ctx : Type 0
Ctx = Option StaticOptions

instance abbrev recorder : NetWriter (List ℕ)
recorder = record {
  set_header = λ w key value. w;
  write_header = λ w code. w ++ code ∷ [];
  write = λ w b. (w ++ b, length b, none);
}

abbrev no_files : Files Unit
no_files = record {
  open_file = λ dir name. err (codes "no such file");
  stat_is_dir = λ f. ok false;
  serve_content = λ req name f. Reply.done;
  redirect = λ req url code. Reply.write_header code Reply.done;
  url_text = λ path query. path;
}

abbrev option_values : ContextValues Ctx
option_values = record { with_static = λ o c. some o; get_static = λ c. c; get-with = λ o c. refl }

abbrev production : Surroundings
production = record { env = codes "production"; root = codes "/srv"; stack = codes "main.go" }

abbrev urls : Urls
urls = record {
  parse = λ text. err (codes "no URL");
  parse_query = λ query. [];
  encode = λ values. [];
  hostname = λ host. host;
  text = λ u. u.path;
  redirect = λ req target code. Reply.write_header code Reply.done;
}

abbrev forward : Forward
forward req out = err (codes "gone")

abbrev calls : Calls Ctx
calls = record {
  with_hello = λ value ctx. none;
  package_response = Reply.write_header 200 Reply.done;
}

abbrev asks : Request
asks = record {
  method = codes "get";
  path = codes "/hello/7/";
  raw_query = [];
  header = λ key. [];
  remote_addr = [];
}

abbrev no_regexp : Regexp
no_regexp = record { matcher = λ text. none; refusal = λ text. codes "regexp: Compile" }

asks-hello : Describes hello_tokens asks.path []
unfolding match
asks-hello = (match_iff hello_tokens asks.path).0 refl

asks-get : to_upper asks.method ≡ codes "GET"
unfolding to_upper
asks-get = refl

abbrev server : HttpServer Ctx
server = example_server no_files option_values production urls forward calls no_regexp

serve_http-hello_example :
    let r : Outcome × State (List ℕ) Ctx =
      serve_http no_files option_values production server [] none asks in
    (r.0 ≡ returned)
    × (r.1.res.inner ≡ 200 ∷ codes "getDemo....")
    × (r.1.res.status ≡ 200)
    × (r.1.context ≡ some server.static_options)
serve_http-hello_example =
    serve_http-hello urls forward calls no_regexp no_files option_values production [] none asks
      asks-hello asks-get
