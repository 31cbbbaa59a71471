-- ===== src/Example/Echo.antt =====
-- example/tcp: the observers of the echo server and of its client, and the loop of the client. What
-- is logged is not modelled. Calls of the server's observer are scheduled by the manager: each
-- is one turn, and may come after further reads. A Go int is its 64-bit pattern.
pub mod Returns
pub mod Sending
use magic_engine.Common.{
  ℕ, zero, suc, ◌+◌, ◌%◌, ◌^◌, true, Option, none, some, List, [], ◌∷◌, ◌++◌, length, get_elem?,
  take, Bytes, codes,
}
use magic_engine.NetHttp.{Error, Try, ok, err}
use magic_engine.Tcp.Endpoint.{
  Conn, Event, on_connect, on_disconnect, on_recv, Endpoint, Sent, sent, send_failed,
  send_out_of_fuel, send_data,
}
use magic_engine.Tcp.Manager.Buffer.{recv_slices}
use magic_engine.Tcp.Client.{Client, new_client, connect, client_send_data, client_close}

-- Echo of the server
pub record EchoServer : Type 0 where
  pub recv_count : ℕ
  pub recv_size : ℕ

-- &Echo{}
abbrev pub new_echo : EchoServer
new_echo = record { recv_count = 0; recv_size = 0 }

-- Echo of the client
pub record EchoClient : Type 0 where
  pub recv_count : ℕ
  pub recv_size : ℕ
  pub send_count : ℕ
  pub send_size : ℕ

abbrev pub new_echo_client : EchoClient
new_echo_client = record { recv_count = 0; recv_size = 0; send_count = 0; send_size = 0 }

-- OnRecvData of the client
unfoldable pub count_received : Bytes → EchoClient → EchoClient
count_received bytes s = record s {
  recv_count = (s.recv_count + 1) % 2 ^ 64;
  recv_size = (s.recv_size + length bytes) % 2 ^ 64;
}

-- Dump: the text that is logged, where `decimal` prints a number as %d does
unfoldable pub dump : (ℕ → Bytes) → EchoClient → Bytes
dump decimal s =
    codes "\nsendCount:"
    ++ decimal s.send_count
    ++ codes "\nsendSize:"
    ++ decimal s.send_size
    ++ codes "\nrecvCount:"
    ++ decimal s.recv_count
    ++ codes "\nrecvSize:"
    ++ decimal s.recv_size
    ++ codes "\n"

abbrev pub count_sent : Bytes → EchoClient → EchoClient
count_sent bytes s = record s {
  send_count = (s.send_count + 1) % 2 ^ 64;
  send_size = (s.send_size + length bytes) % 2 ^ 64;
}

-- A read of RecvData without an error, or the run of one of the scheduled calls
pub data Turn : Type 0 where
  reads : Bytes → Turn
  runs : ℕ → Turn

abbrev pub without : ℕ → List ℕ → List ℕ
without i [] = []
without zero (n ∷ ns) = ns
without (suc i) (n ∷ ns) = n ∷ without i ns

-- The server and one of its connections under the manager: the endpoint that its calls send on,
-- the one buffer of its RecvData, and the sizes of the slices of the calls of OnRecvData that are
-- scheduled and have not run
pub record Serving (K : Type 0) : Type 0 where
  pub echo : EchoServer
  pub endpoint : Endpoint K
  pub buffer : Bytes
  pub waiting : List ℕ

module _ {K : Type 0} ⦃net : Conn K⦄ where
  -- OnRecvData of the server, with the endpoint that it sends on
  unfoldable pub on_recv_data : Bytes → EchoServer × Endpoint K → EchoServer × Endpoint K
  unfolding send_data
  on_recv_data bytes (s, ep) = (
    record s {
      recv_count = (s.recv_count + 1) % 2 ^ 64;
      recv_size = (s.recv_size + length bytes) % 2 ^ 64;
    },
    (send_data bytes ep).1,
  )

  -- OnRecvData of the scheduled call with the number `i`, on what its slice of the buffer holds now
  abbrev pub run_call : Option ℕ → ℕ → Serving K → Serving K
  run_call none i s = s
  run_call (some n) i s =
      let (echo, ep) = on_recv_data (take n s.buffer) (s.echo, s.endpoint) in
      record s { echo = echo; endpoint = ep; waiting = without i s.waiting }

  -- A turn of RecvData or of a scheduled call
  unfoldable pub turn : Turn → Serving K → Serving K
  unfolding on_recv_data recv_slices
  turn (reads b) s =
      let (sizes, buffer) = recv_slices (b ∷ []) s.buffer in
      record s { buffer = buffer; waiting = s.waiting ++ sizes }
  turn (runs i) s = run_call (get_elem? s.waiting i) i s

  unfoldable pub turns : List Turn → Serving K → Serving K
  unfolding turn
  turns [] s = s
  turns (t ∷ ts) s = turns ts (turn t s)

  -- `time.Sleep(1 * time.Second)`, but for the `continue` after an error
  abbrev pub rest_after : Sent × Client K → ℕ → Client K × ℕ
  rest_after (sent, c) rests = (c, rests + 1)
  rest_after (send_failed e, c) rests = (c, rests)
  rest_after (send_out_of_fuel, c) rests = (c, rests)

  -- The loop of the client's main, for the messages that it makes while runningFlag is set; with the
  -- number of its sleeps
  unfoldable pub send_messages : List Bytes → EchoClient × Client K × ℕ → EchoClient × Client K × ℕ
  unfolding client_send_data
  send_messages [] s = s
  send_messages (m ∷ ms) (s, c, rests) =
      let (c', rests') = rest_after (client_send_data m c) rests in
      send_messages ms (count_sent m s, c', rests')

  abbrev pub finish : (ℕ → Bytes) → EchoClient × Client K × ℕ → Option Bytes × Client K
  finish decimal (s, c, rests) = (some (dump decimal s), client_close c)

  abbrev pub run_connected :
      (ℕ → Bytes) → List Bytes → Option Error × Client K → Option Bytes × Client K
  run_connected decimal ms (some e, c) = (none, c)
  run_connected decimal ms (none, c) = finish decimal (send_messages ms (new_echo_client, c, 0))

  -- main of the client, over the result of net.Dial: the text of Dump, if the client connects, and
  -- the client. What the goroutine of Connect receives meanwhile is not part of it.
  unfoldable pub client_main : (ℕ → Bytes) → Try K → List Bytes → Option Bytes × Client K
  unfolding dump send_messages new_client connect client_close
  client_main decimal dialed ms = run_connected decimal ms (connect dialed (new_client true))
