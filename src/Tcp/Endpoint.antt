-- ===== src/Tcp/Endpoint.antt =====
-- tcp/endpoint.go, endpointImpl: an endpoint over a net.Conn, and the observer that it calls.
pub mod Send
pub mod Receive
use magic_engine.Common.{
  ℕ, zero, suc, ◌+◌, ◌-◌, Bool, false, Option, none, some, List, [], ◌∷◌, ◌++◌, leb, if◌then◌else◌,
  length, drop, Bytes, codes,
}
use magic_engine.NetHttp.{Error}

-- net.Conn over a type `K` of connections: Write and Close, and the text of the two addresses that
-- String joins. What Read gives is the argument of `recv_data`.
pub record Conn (K : Type 0) : Type 0 where
  -- the bytes written, and the error if there was one
  pub write : K → Bytes → K × ℕ × Option Error
  pub close : K → K
  pub local_addr : K → Bytes
  pub remote_addr : K → Bytes

-- A call on the observer.
pub data Event : Type 0 where
  on_connect : Event
  on_disconnect : Event
  on_recv : Bytes → Event

-- endpointImpl, with the calls that it made on its observer, oldest first. `observed` is
-- `observer != nil`.
pub record Endpoint (K : Type 0) : Type 0 where
  pub conn : K
  pub observed : Bool
  pub events : List Event

-- How SendData ends. `out_of_fuel` belongs to the model only.
pub data Sent : Type 0 where
  sent : Sent
  send_failed : Error → Sent
  send_out_of_fuel : Sent

-- A result of reader.Read(buffer): the bytes, and io.EOF or another error.
pub data ReadError : Type 0 where
  eof : ReadError
  other : Error → ReadError

abbrev pub Read : Type 0
Read = Bytes × Option ReadError

-- How RecvData ends, or `waiting` where the reads given so far leave it in the loop.
pub data Received : Type 0 where
  closed : Received
  recv_failed : Error → Received
  waiting : Received

module _ {K : Type 0} where
  -- `if s.observer != nil { … }`
  abbrev pub notify : Event → Endpoint K → Endpoint K
  notify e ep = record ep { events = if ep.observed then ep.events ++ e ∷ [] else ep.events }

  -- newEndpoint
  unfoldable pub new_endpoint : K → Bool → Endpoint K
  new_endpoint conn observed =
      notify on_connect (record { conn = conn; observed = observed; events = [] })

  -- The loop of RecvData
  unfoldable pub recv_data : List Read → Endpoint K → Received × Endpoint K
  recv_data [] ep = (waiting, ep)
  recv_data ((bytes, some eof) ∷ reads) ep = (closed, notify on_disconnect ep)
  recv_data ((bytes, some (other e)) ∷ reads) ep = (recv_failed e, ep)
  recv_data (([], none) ∷ reads) ep = recv_data reads ep
  recv_data ((b ∷ bytes, none) ∷ reads) ep = recv_data reads (notify (on_recv (b ∷ bytes)) ep)

module _ {K : Type 0} ⦃net : Conn K⦄ where
  -- Close
  unfoldable pub close_endpoint : Endpoint K → Endpoint K
  close_endpoint ep = record ep { observed = false; conn = net.close ep.conn }

  -- String
  unfoldable pub endpoint_string : K → Bytes
  endpoint_string conn = net.local_addr conn ++ codes "->" ++ net.remote_addr conn

  -- What the loop of SendData does with the result of a write at `off_set`
  abbrev pub send_step : (K → Sent × K) → Bool → K × ℕ × Option Error → Sent × K
  send_step again finished (k, n, some e) = (send_failed e, k)
  send_step again finished (k, n, none) = if finished then (sent, k) else again k

  -- The loop of SendData from `off_set` on. The next round is made only if the loop goes on.
  unfoldable pub send_loop : ℕ → Bytes → ℕ → K → Sent × K
  send_loop zero bytes off_set k = (send_out_of_fuel, k)
  send_loop (suc fuel) bytes off_set k =
      let w = net.write k (drop off_set bytes) in
      send_step (send_loop fuel bytes (off_set + w.1)) (leb (length bytes) (off_set + w.1)) w

  abbrev pub after_send : Endpoint K → Sent × K → Sent × Endpoint K
  after_send ep (send_failed e, k) = (send_failed e, notify on_disconnect (record ep { conn = k }))
  after_send ep (sent, k) = (sent, record ep { conn = k })
  after_send ep (send_out_of_fuel, k) = (send_out_of_fuel, record ep { conn = k })

  -- SendData: a write sends one byte at least, or fails.
  unfoldable pub send_data : Bytes → Endpoint K → Sent × Endpoint K
  unfolding send_loop
  send_data bytes ep = after_send ep (send_loop (length bytes + 1) bytes 0 ep.conn)
