-- ===== src/Example/Echo/Returns.antt =====
-- example/tcp: what the echo server sends back.
use magic_engine.Common.{
  ℕ, zero, suc, ◌+◌, ◌%◌, ◌^◌, ◌<◌, ◌≡◌, refl, sym, ap, ◌∙◌, subst, ◌≢◌, Bool, true, false, Option,
  none, some, List, [], ◌∷◌, ◌++◌, append_assoc, append-nil, leb, length, drop, take, ◌≤◌, All,
  Bytes,
}
use magic_engine.NetHttp.{Error}
use magic_engine.Tcp.Endpoint.{
  Conn, Endpoint, Sent, sent, send_failed, send_out_of_fuel, send_step, send_loop, after_send,
  send_data, new_endpoint,
}
use magic_engine.Tcp.Endpoint.Send.{Writes, SendsAll, send_data-SendsAll}
use magic_engine.Tcp.Endpoint.Receive.{joined}
use magic_engine.Tcp.Manager.Buffer.{fill, recv_slices}
use magic_engine.Example.Echo.{
  new_echo, EchoServer, on_recv_data, Turn, reads, runs, Serving, turn, turns,
}

-- The number of some texts that are not empty
abbrev pub filled : List Bytes → ℕ
filled [] = 0
filled ([] ∷ bs) = filled bs
filled ((c ∷ b) ∷ bs) = suc (filled bs)

-- The sum of the sizes of slices
abbrev pub total : List ℕ → ℕ
total [] = 0
total (n ∷ ns) = n + total ns

take-append_self : (b rest : Bytes) → take (length b) (b ++ rest) ≡ b
take-append_self [] rest = refl
take-append_self (c ∷ b) rest = ap (λ r. c ∷ r) (take-append_self b rest)

module _ {K : Type 0} ⦃net : Conn K⦄ (good : (k : K) (b : Bytes) → (net.write k b).2 ≡ none) where
  send_step-sent :
      (again : K → Sent × K) (finished : Bool) (w : K × ℕ × Option Error) (e : Error)
      → w.2 ≡ none
      → ((k : K) → (again k).0 ≢ send_failed e)
      → (send_step again finished w).0 ≢ send_failed e
  send_step-sent again finished (k, n, some x) e none_ goes = absurd cc
  send_step-sent again true (k, n, none) e none_ goes = λ h. absurd cc
  send_step-sent again false (k, n, none) e none_ goes = goes k

  send_loop-sent :
      (fuel : ℕ) (bytes : Bytes) (off_set : ℕ) (k : K) (e : Error)
      → (send_loop fuel bytes off_set k).0 ≢ send_failed e
  unfolding send_loop
  send_loop-sent zero bytes off_set k e = λ h. absurd cc
  send_loop-sent (suc fuel) bytes off_set k e =
      let w = net.write k (drop off_set bytes) in
      send_step-sent (send_loop fuel bytes (off_set + w.1)) (leb (length bytes) (off_set + w.1)) w e
        (good k (drop off_set bytes)) (λ d. send_loop-sent fuel bytes (off_set + w.1) d e)

  after_send-sent :
      (ep : Endpoint K) (r : Sent × K) (e : Error)
      → r.0 ≢ send_failed e
      → (after_send ep r).0 ≢ send_failed e
  after_send-sent ep (sent, k) e h = h
  after_send-sent ep (send_failed x, k) e h = h
  after_send-sent ep (send_out_of_fuel, k) e h = h

  send_data-sent :
      (bytes : Bytes) (ep : Endpoint K) (e : Error) → (send_data bytes ep).0 ≢ send_failed e
  unfolding send_data
  send_data-sent bytes ep e =
      after_send-sent ep (send_loop (length bytes + 1) bytes 0 ep.conn) e
        (send_loop-sent (length bytes + 1) bytes 0 ep.conn e)

  module _ (output : K → Bytes) (writes : Writes net output) where
    all_sent :
        (bytes : Bytes) (ep : Endpoint K) (r : Sent × Endpoint K)
        → SendsAll output writes bytes ep r
        → ((e : Error) → r.0 ≢ send_failed e)
        → (r.0 ≡ sent) × (output r.1.conn ≡ output ep.conn ++ bytes)
    all_sent bytes ep (sent, ep') (o, ev) h = (refl, o)
    all_sent bytes ep (send_failed e, ep') o h = absurd (h e refl)
    all_sent bytes ep (send_out_of_fuel, ep') o h = absurd o

    -- A connection without failing writes takes all bytes of SendData.
    pub send_data-all_sent :
        (bytes : Bytes) (ep : Endpoint K)
        → ((send_data bytes ep).0 ≡ sent)
          × (output (send_data bytes ep).1.conn ≡ output ep.conn ++ bytes)
    send_data-all_sent bytes ep =
        all_sent bytes ep (send_data bytes ep) (send_data-SendsAll output writes bytes ep)
          (send_data-sent bytes ep)

    -- Every scheduled call has a slice of the buffer.
    abbrev Fits : Serving K → Type 0
    Fits s = All (λ n. n ≤ length s.buffer) s.waiting

    -- What one or more turns do that read these chunks: the counts, and the number of the bytes that
    -- went out, with those of the calls that wait
    pub record Balances (bs : List Bytes) (s t : Serving K) : Type 0 where
      pub fits : Fits t
      pub count : t.echo.recv_count < 2 ^ 64
      pub size : t.echo.recv_size < 2 ^ 64
      pub counts :
          (t.echo.recv_count + length t.waiting) % 2 ^ 64
          ≡ (s.echo.recv_count + length s.waiting + filled bs) % 2 ^ 64
      pub sizes :
          (t.echo.recv_size + total t.waiting) % 2 ^ 64
          ≡ (s.echo.recv_size + total s.waiting + length (joined bs)) % 2 ^ 64
      pub bytes_out :
          length (output t.endpoint.conn) + total t.waiting
          ≡ length (output s.endpoint.conn) + total s.waiting + length (joined bs)

    -- The chunks of some turns
    abbrev pub chunks_of : List Turn → List Bytes
    chunks_of [] = []
    chunks_of (reads b ∷ ts) = b ∷ chunks_of ts
    chunks_of (runs i ∷ ts) = chunks_of ts

    -- A connection whose reads are over buffer, with no call scheduled
    abbrev pub serving : Bytes → EchoServer × Endpoint K → Serving K
    serving buffer (echo, ep) = record { echo = echo; endpoint = ep; buffer = buffer; waiting = [] }

    -- The calls of some chunks are counted, and as many bytes went out behind those before.
    abbrev pub CountedBack : List Bytes → K → Serving K → Type 0
    CountedBack bs k t =
        (t.echo.recv_count ≡ filled bs % 2 ^ 64)
        × (t.echo.recv_size ≡ length (joined bs) % 2 ^ 64)
        × (length (output t.endpoint.conn) ≡ length (output k) + length (joined bs))

    -- Each call before the next read
    abbrev pub in_turn : List Bytes → List Turn
    in_turn [] = []
    in_turn (b ∷ bs) = reads b ∷ runs 0 ∷ in_turn bs

    -- Some bytes went out behind those before, and no call waits.
    abbrev pub SentBack : Bytes → K → Serving K → Type 0
    SentBack b k t = (output t.endpoint.conn ≡ output k ++ b) × (t.waiting ≡ [])

    turns-serving :
        (bs : List Bytes) (echo : EchoServer) (ep : Endpoint K) (buffer : Bytes)
        → SentBack (joined bs) ep.conn (turns (in_turn bs) (serving buffer (echo, ep)))
    unfolding turns turn recv_slices fill on_recv_data
    turns-serving [] echo ep buffer = (sym (append-nil (output ep.conn)), refl)
    turns-serving ([] ∷ bs) echo ep buffer = turns-serving bs echo ep buffer
    turns-serving ((c ∷ b) ∷ bs) echo ep buffer =
        let full = fill (c ∷ b) buffer in
        let after = on_recv_data (c ∷ b) (echo, ep) in
        let (out, idle) = turns-serving bs after.0 after.1 full in
        subst
          (λ view.
            SentBack (joined ((c ∷ b) ∷ bs)) ep.conn
              (turns (in_turn bs) (serving full (on_recv_data view (echo, ep)))))
          (sym (take-append_self (c ∷ b) (drop (length (c ∷ b)) buffer)))
          (
            out
                ∙ ap (λ o. o ++ joined bs) (send_data-all_sent (c ∷ b) ep).1
                ∙ append_assoc (output ep.conn) (c ∷ b) (joined bs),
            idle,
          )

    -- Over a connection that keeps the contract of net.Conn and whose writes do not fail: when the
    -- call of every chunk that is not empty runs before the next read, exactly the bytes that were
    -- read have been sent back, in order, and no call waits.
    pub turns-in_turn :
        (bs : List Bytes) (k : K) (buffer : Bytes)
        → SentBack
            (joined bs)
            k
            (turns (in_turn bs) (serving buffer (new_echo, new_endpoint k true)))
    unfolding new_endpoint
    turns-in_turn bs k buffer = turns-serving bs new_echo (new_endpoint k true) buffer
