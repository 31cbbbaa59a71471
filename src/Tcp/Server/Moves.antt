-- ===== src/Tcp/Server/Moves.antt =====
-- The steps of the connections and of the server, on the table of endpoints.
use magic_engine.Common.{
  Bool, false, set_at, set_at-cases, ℕ, ◌+◌, ◌≡◌, refl, sym, ap, ◌∙◌, subst, inl, inr, true, Option,
  none, some, List, [], ◌∷◌, if◌then◌else◌, length, Bytes, lookup,
}
use magic_engine.Tcp.Endpoint.{
  Conn, Event, on_disconnect, on_recv, Endpoint, Sent, sent, send_failed, send_out_of_fuel, Read,
  Received, eof, other, closed, recv_failed, notify, recv_data, endpoint_string, send_loop,
  close_endpoint,
}
use magic_engine.Tcp.Manager.{Manager, record_event, manager_event, manager_events}
use magic_engine.Tcp.Server.{
  Phase, reading, lost, ended, ConnPc, unused, pending, active, gone, Reads, owed, after_read,
  after_sent, Owes, while_lost, once_ended, clear, receive_round, send_writes, tell_failed, told,
  ConnMove, no_sink, no_observer, connect, receive, send, tell, close, shut, open_key, Server,
  new_server, Step, accept, accept_failed, run, Reach, here, next,
}
use magic_engine.Tcp.Server.Table.{Agrees, keep, Change-Agrees, new-Agrees}
use magic_engine.Tcp.Server.Live.{
  table, observes, FixedAddresses, live_key, owner_key, live_phase, owner_phase, owner_phase-some,
  Watched, live-open, endpoint_string-send_loop, endpoint_string-close, Moved, quiet-Moved,
  disconnect-Moved, closed-Moved, pending-Moved, connect-Moved,
}

-- The endpoint with these calls made
abbrev made : {K : Type 0} → Endpoint K → List Event → Endpoint K
made ep events = record ep { events = events }

Owes-live_phase : (p q : Phase) (key : Bytes) → Owes p q → live_phase q key ≡ none
Owes-live_phase _ _ key (while_lost n) = refl
Owes-live_phase _ _ key (once_ended n r) = refl

live_sent :
    (phase : Phase) (r : Sent) (key x : Bytes)
    → live_phase (after_sent phase r) key ≡ some x
    → live_phase phase key ≡ some x
live_sent reading sent key x h = h
live_sent reading (send_failed e) key x h = absurd cc
live_sent reading send_out_of_fuel key x h = h
live_sent (lost n) sent key x h = h
live_sent (lost n) (send_failed e) key x h = h
live_sent (lost n) send_out_of_fuel key x h = h
live_sent (ended n r) sent key x h = h
live_sent (ended n r) (send_failed e) key x h = h
live_sent (ended n r) send_out_of_fuel key x h = h

owner_sent :
    (phase : Phase) (r : Sent) (key x : Bytes)
    → owner_phase phase key ≡ some x
    → owner_phase (after_sent phase r) key ≡ some x
owner_sent reading sent key x h = h
owner_sent reading (send_failed e) key x h = h
owner_sent reading send_out_of_fuel key x h = h
owner_sent (lost n) sent key x h = h
owner_sent (lost n) (send_failed e) key x h = h
owner_sent (lost n) send_out_of_fuel key x h = h
owner_sent (ended n r) sent key x h = h
owner_sent (ended n r) (send_failed e) key x h = h
owner_sent (ended n r) send_out_of_fuel key x h = h

module _ {K : Type 0} ⦃net : Conn K⦄ (i : ℕ) (m : Manager) (o : m.observed ≡ true) where
  told-one :
      (ep : Endpoint K) (e : Event)
      → told i m (made ep (e ∷ [])) ≡ some (record_event (endpoint_string ep.conn) i e m)
  unfolding manager_events manager_event
  told-one ep e = ap (λ b. some (if b then record_event (endpoint_string ep.conn) i e m else m)) o

  notify-one :
      (ep : Endpoint K) (e : Event) → ep.observed ≡ true → notify e (clear ep) ≡ made ep (e ∷ [])
  notify-one ep e w = ap (λ b. record ep { events = if b then e ∷ [] else [] }) w

  -- A step of RecvData or SendData, by its calls on the observer
  abbrev Steps : (phase : Phase) (ep : Endpoint K) (phase' : Phase) (ep' : Endpoint K) → Type 0
  Steps phase ep phase' ep' =
      Moved i (some m) (active false phase ep) (told i m ep') (active false phase' ep')

  module _ (ep : Endpoint K) (w : ep.observed ≡ true) (phase : Phase) where
    silent :
        (phase' : Phase) (k : K)
        → endpoint_string k ≡ endpoint_string ep.conn
        → ((x : Bytes)
            → live_phase phase' (endpoint_string ep.conn) ≡ some x
            → live_phase phase (endpoint_string ep.conn) ≡ some x)
        → ((x : Bytes)
            → owner_phase phase (endpoint_string ep.conn) ≡ some x
            → owner_phase phase' (endpoint_string ep.conn) ≡ some x)
        → Steps phase ep phase' (clear (record ep { conn = k }))
    unfolding manager_events
    silent phase' k same l g =
        quiet-Moved i m ep (clear (record ep { conn = k })) same w o phase phase' m refl o l g

    heard : (b : Bytes) → Steps phase ep phase (notify (on_recv b) (clear ep))
    heard b = subst (Steps phase ep phase) (sym (notify-one ep (on_recv b) w)) (
        subst
          (λ t.
            Moved i (some m) (active false phase ep) t
              (active false phase (made ep (on_recv b ∷ []))))
          (sym (told-one ep (on_recv b)))
          (quiet-Moved i m ep (made ep (on_recv b ∷ [])) refl w o phase phase
            (record_event (endpoint_string ep.conn) i (on_recv b) m) refl o (λ x h. h) (λ x h. h)))

    disconnected :
        (phase' : Phase) (k : K)
        → endpoint_string k ≡ endpoint_string ep.conn
        → live_phase phase' (endpoint_string k) ≡ none
        → Steps phase ep phase' (notify on_disconnect (clear (record ep { conn = k })))
    disconnected phase' k same l =
        let left : Endpoint K = record ep { conn = k } in
        subst (Steps phase ep phase') (sym (notify-one left on_disconnect w)) (
          subst
            (λ t.
              Moved i (some m) (active false phase ep) t
                (active false phase' (made left (on_disconnect ∷ []))))
            (sym (told-one left on_disconnect))
            (disconnect-Moved i m ep (made left (on_disconnect ∷ [])) same w o phase phase' l))

    receive-Moved :
        (r : Read)
        → Reads phase
        → Steps phase ep (after_read phase (receive_round r ep).0) (receive_round r ep).1
    unfolding receive_round recv_data
    receive-Moved (b, some eof) h = disconnected (ended (owed phase) closed) ep.conn refl refl
    receive-Moved (b, some (other e)) h =
        silent (ended (owed phase) (recv_failed e)) ep.conn refl (λ x k. absurd cc)
          (λ x k. ap some (sym (owner_phase-some phase (endpoint_string ep.conn) x k)))
    receive-Moved ([], none) h = silent phase ep.conn refl (λ x h. h) (λ x h. h)
    receive-Moved (c ∷ b, none) h = heard (c ∷ b)

    tell-Moved : (phase' : Phase) → Owes phase phase' → Steps phase ep phase' (tell_failed ep)
    unfolding tell_failed
    tell-Moved phase' h =
        disconnected phase' ep.conn refl (Owes-live_phase phase phase' (endpoint_string ep.conn) h)

    send-Moved :
        FixedAddresses net
        → (b : Bytes)
        → Moved i
            (some m)
            (active false phase ep)
            (some m)
            (active false (after_sent phase (send_writes b ep).0) (send_writes b ep).1)
    unfolding send_writes
    send-Moved fixed b =
        let (result, conn) = send_loop (length b + 1) b 0 ep.conn in
        quiet-Moved i m ep (clear (record ep { conn = conn }))
          (endpoint_string-send_loop fixed (length b + 1) b 0 ep.conn) w o phase
          (after_sent phase result) m refl o (live_sent phase result (endpoint_string ep.conn))
          (owner_sent phase result (endpoint_string ep.conn))

  -- The steps of an endpoint that the user has closed make no calls.
  module _ (ep : Endpoint K) (w : ep.observed ≡ false) (phase : Phase) where
    notify-unheard : (e : Event) → notify e (clear ep) ≡ clear ep
    notify-unheard e = ap (λ b. record ep { events = if b then e ∷ [] else [] }) w

    unheard :
        (phase' : Phase)
        → Moved i
            (some m)
            (active true phase ep)
            (told i m (clear ep))
            (active true phase' (clear ep))
    unfolding manager_events
    unheard phase' = closed-Moved i m true phase phase' ep (clear ep) refl w o

    notify-Moved :
        (phase' : Phase) (e : Event)
        → let ep' : Endpoint K = notify e (clear ep) in
          Moved i (some m) (active true phase ep) (told i m ep') (active true phase' ep')
    notify-Moved phase' e =
        subst (λ t. Moved i (some m) (active true phase ep) (told i m t) (active true phase' t))
          (sym (notify-unheard e)) (unheard phase')

    receive_closed-Moved :
        (r : Read)
        → let ep' : Endpoint K = (receive_round r ep).1 in
          let phase' : Phase = after_read phase (receive_round r ep).0 in
          Moved i (some m) (active true phase ep) (told i m ep') (active true phase' ep')
    unfolding receive_round recv_data
    receive_closed-Moved (b, some eof) = notify-Moved (ended (owed phase) closed) on_disconnect
    receive_closed-Moved (b, some (other e)) = unheard (ended (owed phase) (recv_failed e))
    receive_closed-Moved ([], none) = unheard phase
    receive_closed-Moved (c ∷ b, none) = notify-Moved phase (on_recv (c ∷ b))

module _ {K : Type 0} ⦃net : Conn K⦄ where
  -- The table against the connections
  pub record IsConsistent (s : Server K) : Type 0 where
    pub agrees : Agrees open_key live_key owner_key s.pc s.count (table s.sink)
    pub watched : (i : ℕ) → Watched s.sink (s.pc i)

  Watched-observes :
      (s t : Option Manager) (p : ConnPc K) → observes t ≡ observes s → Watched s p → Watched t p
  Watched-observes s t unused e w = w
  Watched-observes s t (pending k) e w = w
  Watched-observes s t (active b phase ep) e (w, o) = (w, e ∙ o)
  Watched-observes s t (gone b r key k) e w = w

  set_at-Watched :
      (t : Option Manager) (pc : ℕ → ConnPc K) (i : ℕ) (q : ConnPc K)
      → ((j : ℕ) → Watched t (pc j))
      → Watched t q
      → (j : ℕ) → Watched t (set_at pc i q j)
  set_at-Watched t pc i q all w j = elim (set_at-cases pc i q j) [
    | inl (_, e) ↦ subst (Watched t) (sym e) w
    | inr (_, e) ↦ subst (Watched t) (sym e) (all j)
  ]

module _ {K : Type 0} ⦃net : Conn K⦄ (fixed : FixedAddresses net) where
  owner_shut :
      (b : Bool) (n : ℕ) (r : Received) (ep : Endpoint K) (x : Bytes)
      → owner_key (active b (ended n r) ep) ≡ some x
      → owner_key {K = K} (gone b (some r) (endpoint_string ep.conn) (close_endpoint ep).conn)
        ≡ some x
  owner_shut false n r ep x h = h
  owner_shut true n r ep x h = h

  ConnMove-Moved :
      (i : ℕ) {s t : Option Manager} {p q : ConnPc K}
      → ConnMove i s p t q
      → Watched s p
      → Moved i s p t q
  ConnMove-Moved i (no_sink k) w = pending-Moved i none k (net.close k)
  ConnMove-Moved i (no_observer k m o) w = pending-Moved i (some m) k (net.close k)
  ConnMove-Moved i (connect k m o) w = connect-Moved i k m o
  ConnMove-Moved i (receive false phase ep m r h) (w, o) = receive-Moved i m o ep w phase r h
  ConnMove-Moved i (receive true phase ep m r h) (w, o) = receive_closed-Moved i m o ep w phase r
  ConnMove-Moved i (send false phase ep m b) (w, o) = send-Moved i m o ep w phase fixed b
  ConnMove-Moved i (send true phase ep m b) (w, o) =
      closed-Moved i m true phase (after_sent phase (send_writes b ep).0) ep (send_writes b ep).1
        (unfold send_writes in endpoint_string-send_loop fixed (length b + 1) b 0 ep.conn)
        (unfold send_writes in w) o
  ConnMove-Moved i (tell false phase phase' ep m h) (w, o) = tell-Moved i m o ep w phase phase' h
  ConnMove-Moved i (tell true phase phase' ep m h) (w, o) =
      unfold tell_failed in notify-Moved i m o ep w phase phase' on_disconnect
  ConnMove-Moved i (close by_user phase ep m) (w, o) =
      closed-Moved i m by_user phase phase ep (close_endpoint ep)
        (unfold close_endpoint in endpoint_string-close fixed ep.conn)
        (unfold close_endpoint in refl) o
  ConnMove-Moved i (shut by_user n r ep m) (w, o) = record {
    key = endpoint_string ep.conn;
    opened = refl;
    stays_open = λ x h. absurd cc;
    change = keep (λ x h. absurd cc) (owner_shut by_user n r ep);
    observers = refl;
    watched = tt;
  }

  Step-IsConsistent : {s t : Server K} → Step s t → IsConsistent s → IsConsistent t
  Step-IsConsistent {s} (accept k fresh) v = record {
    agrees =
        new-Agrees open_key live_key owner_key s.pc s.count (table s.sink) v.agrees (pending k)
          (endpoint_string k) refl refl fresh;
    watched = set_at-Watched s.sink s.pc s.count (pending k) v.watched tt;
  }
  Step-IsConsistent (accept_failed e) v = v
  Step-IsConsistent {s} (run i {t} {p = q} move) v =
      let moved = ConnMove-Moved i move (v.watched i) in
      record {
        agrees =
            Change-Agrees open_key live_key owner_key live-open s.pc s.count i (table s.sink)
              v.agrees q (table t) moved.key moved.opened moved.stays_open moved.change;
        watched =
            set_at-Watched t s.pc i q
              (λ j. Watched-observes s.sink t (s.pc j) moved.observers (v.watched j)) moved.watched;
      }

  start-IsConsistent :
      (sink : Option Manager) → table sink ≡ [] → IsConsistent (new_server {K = K} sink)
  unfolding lookup
  start-IsConsistent sink e = record {
    agrees = record {
      later = λ j h. (refl, refl);
      distinct = λ i j k g h. absurd cc;
      listed = λ i k h. absurd cc;
      owned = λ i k h. let missing = ap (lookup k) (sym e) ∙ h in absurd cc;
    };
    watched = λ i. tt;
  }

  -- A server whose sink is nil or a manager with an empty table, over connections whose addresses do
  -- not change and differ until their OnNewConnect has ended: whatever it accepts and fails to
  -- accept, and however the rounds of RecvData, the writes of SendData, its tests of the observer
  -- after a failure (each with its OnDisConnect as one step), the calls of Close by the user and the
  -- deferred ones are interleaved, every connection that is being read, whose user has not called
  -- Close and of which no SendData has failed, is in the table of the manager under its addresses;
  -- and nothing else is there but connections that are still being read, those whose read failed,
  -- and those that the user has closed.
  pub Reach-IsConsistent :
      (sink : Option Manager) {s : Server K}
      → table sink ≡ []
      → Reach (new_server sink) s
      → IsConsistent s
  Reach-IsConsistent sink e here = start-IsConsistent sink e
  Reach-IsConsistent sink e (next r step) = Step-IsConsistent step (Reach-IsConsistent sink e r)
