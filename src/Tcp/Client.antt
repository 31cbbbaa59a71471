-- ===== src/Tcp/Client.antt =====
-- tcp/client.go: the client over one endpoint. The goroutine of Connect, which receives and then
-- closes, runs `recv_data` and `close_endpoint` on the endpoint.
use magic_engine.Common.{
  ◌≡◌, ap, ◌≢◌, Bool, true, Option, none, some, List, [], ◌∷◌, if◌then◌else◌, Bytes, codes,
}
use magic_engine.NetHttp.{Error, Try, ok, err}
use magic_engine.Tcp.Endpoint.{
  Conn, on_connect, Endpoint, Sent, sent, send_failed, new_endpoint, close_endpoint, send_data,
}
use magic_engine.Tcp.Endpoint.Send.{Writes, SendsAll, send_data-SendsAll}

-- clientImpl, with the connections that Connect closed again
pub record Client (K : Type 0) : Type 0 where
  pub observed : Bool
  pub endpoint : Option (Endpoint K)
  pub dropped : List K

module _ {K : Type 0} where
  -- NewClient
  unfoldable pub new_client : Bool → Client K
  new_client observed = record { observed = observed; endpoint = none; dropped = [] }

module _ {K : Type 0} ⦃net : Conn K⦄ where
  -- Connect, over the result of net.Dial: the error that it returns, and the client. Without an
  -- observer the new connection is closed, and no error returned.
  unfoldable pub connect : Try K → Client K → Option Error × Client K
  unfolding new_endpoint
  connect (err e) c = (some e, c)
  connect (ok conn) c =
      if c.observed
      then (none, record c { endpoint = some (new_endpoint conn true) })
      else (none, record c { dropped = net.close conn ∷ c.dropped })

  abbrev sent_by : Client K → Sent × Endpoint K → Sent × Client K
  sent_by c (r, ep) = (r, record c { endpoint = some ep })

  client_send_on : Option (Endpoint K) → Bytes → Client K → Sent × Client K
  client_send_on none bytes c = (send_failed (codes "illegal endpoint, must connect first"), c)
  client_send_on (some ep) bytes c = sent_by c (send_data bytes ep)

  -- SendData
  unfoldable pub client_send_data : Bytes → Client K → Sent × Client K
  unfolding client_send_on
  client_send_data bytes c = client_send_on c.endpoint bytes c

  client_close_on : Option (Endpoint K) → Client K → Client K
  client_close_on none c = c
  client_close_on (some ep) c = record c { endpoint = some (close_endpoint ep) }

  -- Close
  unfoldable pub client_close : Client K → Client K
  unfolding client_close_on
  client_close c = client_close_on c.endpoint c

  -- A connected client closes its endpoint.
  pub client_close_connected :
      (c : Client K) (ep : Endpoint K)
      → c.endpoint ≡ some ep
      → (client_close c).endpoint ≡ some (close_endpoint ep)
  unfolding client_close
  client_close_connected c ep e = ap (λ o. (client_close_on o c).endpoint) e

  unconnected :
      (bytes : Bytes) (c : Client K)
      → c.endpoint ≡ none
      → client_send_data bytes c ≡ (send_failed (codes "illegal endpoint, must connect first"), c)
  unfolding client_send_data
  unconnected bytes c e = ap (λ ep. client_send_on ep bytes c) e

  connected :
      (bytes : Bytes) (conn : K) (c : Client K)
      → c.observed ≡ true
      → client_send_data bytes (connect (ok conn) c).1
        ≡ sent_by
            (record c { endpoint = some (new_endpoint conn true) })
            (send_data bytes (new_endpoint conn true))
  unfolding client_send_data connect
  connected bytes conn c o =
      ap
        (λ b.
          let next : Option Error × Client K =
            if b
            then (none, record c { endpoint = some (new_endpoint conn true) })
            else (none, record c { dropped = net.close conn ∷ c.dropped }) in
          client_send_data bytes next.1)
        o

  -- Before a Connect SendData fails and changes nothing. After one that got a connection, SendData
  -- of a client with an observer does what its new endpoint does: all bytes go out in order, or a
  -- prefix of them and the error of the write; and the observer has heard of the connection first.
  pub connect-client_send_data :
      (output : K → Bytes) (writes : Writes net output) (conn : K) (bytes : Bytes) (c : Client K)
      → c.observed ≡ true
      → c.endpoint ≡ none
      → ((client_send_data bytes c).1 ≡ c)
        × ((client_send_data bytes c).0 ≢ sent)
        × (ep : Endpoint K) × ((client_send_data bytes (connect (ok conn) c).1).1.endpoint
            ≡ some ep)
        × SendsAll output writes bytes
            (record { conn = conn; observed = true; events = on_connect ∷ [] })
            ((client_send_data bytes (connect (ok conn) c).1).0, ep)
  unfolding new_endpoint
  connect-client_send_data output writes conn bytes c o e =
      let u = unconnected bytes c e in
      let k = connected bytes conn c o in
      (
        ap (λ r. r.1) u,
        (λ h. cc),
        (send_data bytes (new_endpoint conn true)).1,
        ap (λ r. r.1.endpoint) k,
        rw k (send_data-SendsAll output writes bytes (new_endpoint conn true)),
      )
