-- ===== src/Tcp/Tests.antt =====
-- The theorems on package tcp at concrete inputs: a connection that takes two bytes in a write.
use magic_engine.Common.{
  ℕ, ◌≡◌, refl, ◌≢◌, true, none, some, [], ◌∷◌, ◌++◌, arith, ltb, if◌then◌else◌, length, take,
  Bytes, codes, bytes_eq, lookup,
}
use magic_engine.Tcp.Manager.Buffer.{recv_slices, late_calls, late_calls-recv_slices}
use magic_engine.NetHttp.{Error, ok}
use magic_engine.Tcp.Endpoint.{
  Conn, on_connect, on_disconnect, Endpoint, eof, other, closed, sent, new_endpoint, recv_data,
  endpoint_string, send_data,
}
use magic_engine.Tcp.Endpoint.Send.{Writes, SendsAll, send_data-SendsAll}
use magic_engine.Tcp.Endpoint.Receive.{chunks, calls, payload, joined, heard, recv_data-closed}
use magic_engine.Tcp.Manager.{Manager, on_new_connect}
use magic_engine.Tcp.Manager.Lifecycle.{tagged, on_new_connect-closed, on_new_connect-failed}
use magic_engine.Tcp.Client.{Client, connect, client_send_data, connect-client_send_data}

abbrev two : ℕ → ℕ
two n = if ltb n 2 then n else 2

-- partialWriteConn of tcp_test.go, as the bytes that it took
instance abbrev pub partial : Conn Bytes
partial = record {
  write = λ k b. (k ++ take (two (length b)) b, two (length b), none);
  close = λ k. k;
  local_addr = λ k. codes "local";
  remote_addr = λ k. codes "remote";
}

partial-Writes : Writes partial (λ k. k)
partial-Writes = record {
  appends = λ k b. refl;
  within = λ k b. ground arith;
  progress = λ k b none_ more. ground arith;
}

abbrev hello : Bytes
hello = codes "hello"

sends_hello : (send_data hello (new_endpoint [] true)).1.conn ≡ hello
unfolding send_data new_endpoint
sends_hello = refl

send_data-SendsAll_example :
    SendsAll
      (λ k. k)
      partial-Writes
      hello
      (new_endpoint [] true)
      (send_data hello (new_endpoint [] true))
send_data-SendsAll_example = send_data-SendsAll (λ k. k) partial-Writes hello (new_endpoint [] true)

abbrev idle_endpoint : Endpoint Bytes
idle_endpoint = record { conn = []; observed = true; events = on_connect ∷ [] }

recv_data-closed_test :
    (recv_data (chunks (hello ∷ [] ∷ hello ∷ []) ++ ([], some eof) ∷ []) idle_endpoint
      ≡ (closed, heard (calls (hello ∷ [] ∷ hello ∷ []) ++ on_disconnect ∷ []) idle_endpoint))
    × (payload (calls (hello ∷ [] ∷ hello ∷ [])) ≡ joined (hello ∷ [] ∷ hello ∷ []))
recv_data-closed_test = recv_data-closed (hello ∷ [] ∷ hello ∷ []) [] [] idle_endpoint refl

abbrev reset : Error
reset = codes "connection reset by peer"

abbrev watched : Manager
watched = record { observed = true; endpoint_map = []; scheduled = [] }

on_new_connect-closed_example :
    ((on_new_connect hello 7 (chunks (hello ∷ []) ++ ([], some eof) ∷ []) watched).1.scheduled
      ≡ [] ++ (7, on_connect) ∷ tagged 7 (calls (hello ∷ [])) ++ (7, on_disconnect) ∷ [])
    × (lookup
          (codes "local->remote")
          (on_new_connect hello 7
            (chunks (hello ∷ []) ++ ([], some eof) ∷ [])
            watched).1.endpoint_map
        ≡ (if bytes_eq (endpoint_string hello) (codes "local->remote")
            then none
            else lookup (codes "local->remote") []))
on_new_connect-closed_example =
    on_new_connect-closed hello 7 (hello ∷ []) [] [] watched refl (codes "local->remote")

on_new_connect-failed_example :
    ((on_new_connect hello 7
        (chunks (hello ∷ []) ++ ([], some (other reset)) ∷ [])
        watched).1.scheduled
      ≡ [] ++ (7, on_connect) ∷ tagged 7 (calls (hello ∷ [])))
    × (lookup
          (codes "local->remote")
          (on_new_connect hello 7
            (chunks (hello ∷ []) ++ ([], some (other reset)) ∷ [])
            watched).1.endpoint_map
        ≡ (if bytes_eq (endpoint_string hello) (codes "local->remote")
            then some 7
            else lookup (codes "local->remote") []))
on_new_connect-failed_example =
    on_new_connect-failed hello 7 (hello ∷ []) [] [] watched refl reset (codes "local->remote")

abbrev idle_client : Client Bytes
idle_client = record { observed = true; endpoint = none; dropped = [] }

connect-client_send_data_test :
    ((client_send_data hello idle_client).1 ≡ idle_client)
    × ((client_send_data hello idle_client).0 ≢ sent)
    × (ep : Endpoint Bytes) × ((client_send_data hello (connect (ok []) idle_client).1).1.endpoint
        ≡ some ep)
    × SendsAll
        (λ k. k)
        partial-Writes
        hello
        idle_endpoint
        ((client_send_data hello (connect (ok []) idle_client).1).0, ep)
connect-client_send_data_test =
    connect-client_send_data (λ k. k) partial-Writes [] hello idle_client refl refl

late_calls-recv_slices_example :
    late_calls (recv_slices (codes "ab" ∷ codes "xyz" ∷ []) (0 ∷ 0 ∷ 0 ∷ 0 ∷ []))
    ≡ codes "xy" ∷ codes "xyz" ∷ []
late_calls-recv_slices_example =
    late_calls-recv_slices (codes "ab" ∷ []) b'x' (codes "yz") (0 ∷ 0 ∷ 0 ∷ 0 ∷ [])
      (omega arith, tt)
