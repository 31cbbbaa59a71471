-- ===== src/Example/Echo/Sending.antt =====
-- example/tcp: what the client sends, and what it counts.
use magic_engine.Common.{
  ℕ, suc, ◌+◌, ◌%◌, ◌^◌, ◌<◌, ◌≡◌, refl, sym, ap, ◌∙◌, subst, Bool, true, Option, none, some, List,
  [], ◌∷◌, ◌++◌, append_assoc, append-nil, arith, length, length-append, Bytes,
}
use magic_engine.NetHttp.{ok}
use magic_engine.Tcp.Endpoint.{Conn, Endpoint, send_data, new_endpoint, close_endpoint}
use magic_engine.Tcp.Endpoint.Send.{Writes}
use magic_engine.Tcp.Endpoint.Receive.{joined}
use magic_engine.Tcp.Client.{
  Client, new_client, connect, client_send_data, client_close, client_close_connected,
}
use magic_engine.Example.Echo.{
  EchoClient, new_echo_client, count_sent, rest_after, send_messages, dump, finish, client_main,
}
use magic_engine.Example.Echo.Returns.{send_data-all_sent}

-- The counts after some messages
abbrev pub Counts : List Bytes → EchoClient → EchoClient → Type 0
Counts ms s t =
    (t.send_count ≡ (s.send_count + length ms) % 2 ^ 64)
    × (t.send_size ≡ (s.send_size + length (joined ms)) % 2 ^ 64)
    × (t.recv_count ≡ s.recv_count)
    × (t.recv_size ≡ s.recv_size)

abbrev pub counted : List Bytes → EchoClient
counted ms = record {
  recv_count = 0;
  recv_size = 0;
  send_count = length ms % 2 ^ 64;
  send_size = length (joined ms) % 2 ^ 64;
}

Counts-counted : (ms : List Bytes) (t : EchoClient) → Counts ms new_echo_client t → t ≡ counted ms
Counts-counted ms t (n, z, rn, rz) =
    let n' : t.send_count ≡ length ms % 2 ^ 64 = n ∙ omega arith in
    let z' : t.send_size ≡ length (joined ms) % 2 ^ 64 = z ∙ omega arith in
    λ i. record { recv_count = rn i; recv_size = rz i; send_count = n' i; send_size = z' i }

module _ {K : Type 0} ⦃net : Conn K⦄ where
  send_messages-Counts :
      (ms : List Bytes) (s : EchoClient) (c : Client K) (rests : ℕ)
      → s.send_count < 2 ^ 64
      → s.send_size < 2 ^ 64
      → Counts ms s (send_messages ms (s, c, rests)).0
  unfolding send_messages
  send_messages-Counts [] s c rests l m = (omega arith, omega arith, refl, refl)
  send_messages-Counts (b ∷ ms) s c rests l m =
      let (c', rests') = rest_after (client_send_data b c) rests in
      let (n, z, rn, rz) =
        send_messages-Counts ms (count_sent b s) c' rests' (omega arith) (omega arith) in
      (n ∙ omega arith, z ∙ omega (arith, length-append b (joined ms)), rn, rz)

  module _ (good : (k : K) (b : Bytes) → (net.write k b).2 ≡ none) (output : K → Bytes)
      (writes : Writes net output) where
    one_message :
        (m : Bytes) (o : Bool) (d : List K) (rests : ℕ) (ep : Endpoint K)
        → rest_after
            (client_send_data m (record { observed = o; endpoint = some ep; dropped = d }))
            rests
          ≡ (record { observed = o; endpoint = some (send_data m ep).1; dropped = d }, rests + 1)
    unfolding client_send_data
    one_message m o d rests ep = rw (send_data-all_sent good output writes m ep).0 refl

    -- The client has an endpoint, whose connection has put out the bytes, and rested so often.
    abbrev PutOut : Bytes → ℕ → Client K × ℕ → Type 0
    PutOut bytes rests (c, n) =
        (ep : Endpoint K) × (c.endpoint ≡ some ep) × (output ep.conn ≡ bytes) × (n ≡ rests)

    send_messages-PutOut :
        (ms : List Bytes) (s : EchoClient) (o : Bool) (d : List K) (rests : ℕ) (ep : Endpoint K)
        → let r =
            send_messages ms (s, record { observed = o; endpoint = some ep; dropped = d }, rests) in
          PutOut (output ep.conn ++ joined ms) (rests + length ms) (r.1, r.2)
    unfolding send_messages
    send_messages-PutOut [] s o d rests ep =
        (ep, refl, sym (append-nil (output ep.conn)), omega arith)
    send_messages-PutOut (m ∷ ms) s o d rests ep =
        let sent_one = (send_data-all_sent good output writes m ep).1 in
        let (last, here, out, n) =
          send_messages-PutOut ms (count_sent m s) o d (rests + 1) (send_data m ep).1 in
        subst
          (λ p.
            let r = send_messages ms (count_sent m s, p.0, p.1) in
            PutOut (output ep.conn ++ (m ++ joined ms)) (rests + suc (length ms)) (r.1, r.2))
          (sym (one_message m o d rests ep))
          (
            last,
            here,
            out ∙ ap (λ b. b ++ joined ms) sent_one ∙ append_assoc (output ep.conn) m (joined ms),
            n ∙ omega arith,
          )

    finish-PutOut :
        (decimal : ℕ → Bytes) (bytes : Bytes) (rests : ℕ) (t u : EchoClient) (c : Client K) (n : ℕ)
        → t ≡ u
        → ((k : K) → output (net.close k) ≡ output k)
        → PutOut bytes rests (c, n)
        → ((finish decimal (t, c, n)).0 ≡ some (dump decimal u))
          × ((ep : Endpoint K) × ((finish decimal (t, c, n)).1.endpoint ≡ some ep)
              × (output ep.conn ≡ bytes))
    unfolding client_close close_endpoint
    finish-PutOut decimal bytes rests t u c n same shuts (ep, here, out, _) = (
      ap (λ s. some (dump decimal s)) same,
      (close_endpoint ep, client_close_connected c ep here, shuts ep.conn ∙ out),
    )

    -- Over a connection that keeps the contract of net.Conn, whose writes do not fail and which
    -- closes without losing what was written: main of the client sends exactly the bytes of its
    -- messages, in order, and logs, where nothing was received, that it sent as many messages and
    -- bytes as there were, both in 64 bits.
    pub client_main-counted :
        (decimal : ℕ → Bytes) (k : K) (ms : List Bytes)
        → ((d : K) → output (net.close d) ≡ output d)
        → let r : Option Bytes × Client K = client_main decimal (ok k) ms in
          (r.0 ≡ some (dump decimal (counted ms)))
          × ((ep : Endpoint K) × (r.1.endpoint ≡ some ep)
              × (output ep.conn ≡ output k ++ joined ms))
    unfolding client_main connect new_client new_endpoint
    client_main-counted decimal k ms shuts =
        let c : Client K = record {
          observed = true;
          endpoint = some (new_endpoint k true);
          dropped = [];
        } in
        let r = send_messages ms (new_echo_client, c, 0) in
        let counts =
          Counts-counted ms r.0
            (send_messages-Counts ms new_echo_client c 0 (omega arith) (omega arith)) in
        finish-PutOut decimal (output k ++ joined ms) (0 + length ms) r.0 (counted ms) r.1 r.2
          counts shuts (send_messages-PutOut ms new_echo_client true [] 0 (new_endpoint k true))
