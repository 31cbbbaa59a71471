-- ===== src/Tcp/Manager/Lifecycle.antt =====
-- The table of endpoints over the life of a connection.
use magic_engine.Common.{
  ℕ, ◌≡◌, refl, sym, ap, ◌∙◌, true, none, some, List, [], ◌∷◌, ◌++◌, append_assoc, append-nil,
  arith, if◌then◌else◌, Bytes, bytes_eq, lookup, assign, delete, lookup-assign, lookup-delete,
}
use magic_engine.NetHttp.{Error}
use magic_engine.Tcp.Endpoint.{
  Conn, Event, on_connect, on_disconnect, on_recv, eof, other, Read, new_endpoint, recv_data,
  endpoint_string,
}
use magic_engine.Tcp.Endpoint.Receive.{chunks, calls, recv_data-closed, recv_data-failed}
use magic_engine.Tcp.Manager.{Manager, record_event, manager_event, manager_events, on_new_connect}

-- The calls that the manager schedules for one endpoint
abbrev pub tagged : ℕ → List Event → List (ℕ × Event)
tagged id [] = []
tagged id (e ∷ es) = (id, e) ∷ tagged id es

-- The manager with more calls scheduled
abbrev scheduling : List (ℕ × Event) → Manager → Manager
scheduling more m = record m { scheduled = m.scheduled ++ more }

module _ (key : Bytes) (id : ℕ) where
  seen :
      (e : Event) (n : Manager)
      → n.observed ≡ true
      → manager_event key id e n ≡ record_event key id e n
  unfolding manager_event
  seen e n p = ap (λ x. if x then record_event key id e n else n) p

  -- The calls for received bytes leave the table alone.
  manager_events-calls :
      (bs : List Bytes) (es : List Event) (m : Manager)
      → m.observed ≡ true
      → manager_events key id (calls bs ++ es) m
        ≡ manager_events key id es (scheduling (tagged id (calls bs)) m)
  unfolding manager_events
  manager_events-calls [] es m o =
      ap (λ l. manager_events key id es (record m { scheduled = l })) (sym (append-nil m.scheduled))
  manager_events-calls ([] ∷ bs) es m o = manager_events-calls bs es m o
  manager_events-calls ((c ∷ b) ∷ bs) es m o =
      ap (manager_events key id (calls bs ++ es)) (seen (on_recv (c ∷ b)) m o)
      ∙ manager_events-calls bs es (record_event key id (on_recv (c ∷ b)) m) o
      ∙ ap (λ l. manager_events key id es (record m { scheduled = l }))
          (append_assoc m.scheduled ((id, on_recv (c ∷ b)) ∷ []) (tagged id (calls bs)))

  -- The manager after the calls of a connection that opened and sent these chunks
  abbrev opened : List Bytes → Manager → Manager
  opened bs m = record {
    observed = m.observed;
    endpoint_map = assign key id m.endpoint_map;
    scheduled = (m.scheduled ++ (id, on_connect) ∷ []) ++ tagged id (calls bs);
  }

  manager_events-opened :
      (bs : List Bytes) (es : List Event) (m : Manager)
      → m.observed ≡ true
      → manager_events key id (on_connect ∷ calls bs ++ es) m
        ≡ manager_events key id es (opened bs m)
  unfolding manager_events
  manager_events-opened bs es m o =
      ap (manager_events key id (calls bs ++ es)) (seen on_connect m o)
      ∙ manager_events-calls bs es (record_event key id on_connect m) o

  lookup-reopened :
      (j : Bytes) (m : List (Bytes × ℕ))
      → lookup j (delete key (assign key id m)) ≡ (if bytes_eq key j then none else lookup j m)
  lookup-reopened j m =
      ground (arith, lookup-delete key j (assign key id m), lookup-assign key j id m)

module _ {K : Type 0} ⦃net : Conn K⦄ where
  on_new_connect-manager :
      (conn : K) (id : ℕ) (reads : List Read) (m : Manager)
      → m.observed ≡ true
      → (on_new_connect conn id reads m).1
        ≡ manager_events
            (endpoint_string conn)
            id
            (recv_data reads (new_endpoint conn true)).1.events
            m
  unfolding on_new_connect
  on_new_connect-manager conn id reads m o = ground arith

module _ {K : Type 0} ⦃net : Conn K⦄ where
  module _ (conn : K) (id : ℕ) (bs : List Bytes) (last : Bytes) (later : List Read) (m : Manager)
      (observed : m.observed ≡ true) where
    manager_closed :
        (on_new_connect conn id (chunks bs ++ (last, some eof) ∷ later) m).1
        ≡ record_event
            (endpoint_string conn)
            id
            on_disconnect
            (opened (endpoint_string conn) id bs m)
    unfolding new_endpoint manager_events
    manager_closed =
        on_new_connect-manager conn id (chunks bs ++ (last, some eof) ∷ later) m observed
        ∙ ap (λ r. manager_events (endpoint_string conn) id r.1.events m)
            (recv_data-closed bs last later (new_endpoint conn true) refl).0
        ∙ manager_events-opened (endpoint_string conn) id bs (on_disconnect ∷ []) m observed
        ∙ seen (endpoint_string conn) id on_disconnect (opened (endpoint_string conn) id bs m)
            observed

    manager_failed :
        (e : Error)
        → (on_new_connect conn id (chunks bs ++ (last, some (other e)) ∷ later) m).1
          ≡ opened (endpoint_string conn) id bs m
    unfolding new_endpoint manager_events
    manager_failed e =
        on_new_connect-manager conn id (chunks bs ++ (last, some (other e)) ∷ later) m observed
        ∙ ap (λ r. manager_events (endpoint_string conn) id r.1.events m)
            (recv_data-failed bs last e later (new_endpoint conn true) refl).0
        ∙ ap (λ es. manager_events (endpoint_string conn) id (on_connect ∷ es) m)
            (sym (append-nil (calls bs)))
        ∙ manager_events-opened (endpoint_string conn) id bs [] m observed

    -- A connection that is read to the end of its stream: calls of the observer are
    -- scheduled for its start, for the bytes in their order, as they are when a call is scheduled,
    -- and for its end; and afterwards the table has no entry of its name and every other entry that
    -- it had.
    pub on_new_connect-closed :
        (j : Bytes)
        → ((on_new_connect conn id (chunks bs ++ (last, some eof) ∷ later) m).1.scheduled
            ≡ m.scheduled ++ (id, on_connect) ∷ tagged id (calls bs) ++ (id, on_disconnect) ∷ [])
          × (lookup j
                (on_new_connect conn id (chunks bs ++ (last, some eof) ∷ later) m).1.endpoint_map
              ≡ (if bytes_eq (endpoint_string conn) j then none else lookup j m.endpoint_map))
    on_new_connect-closed j = rw manager_closed (
      rw (← append_assoc m.scheduled ((id, on_connect) ∷ []) (tagged id (calls bs))),
      lookup-reopened (endpoint_string conn) id j m.endpoint_map,
    )

    -- A connection whose read fails: the observer is never scheduled to hear of its end, and the
    -- closed endpoint stays in the table.
    pub on_new_connect-failed :
        (e : Error) (j : Bytes)
        → ((on_new_connect conn id (chunks bs ++ (last, some (other e)) ∷ later) m).1.scheduled
            ≡ m.scheduled ++ (id, on_connect) ∷ tagged id (calls bs))
          × (lookup j
                (on_new_connect conn id
                  (chunks bs ++ (last, some (other e)) ∷ later)
                  m).1.endpoint_map
              ≡ (if bytes_eq (endpoint_string conn) j then some id else lookup j m.endpoint_map))
    on_new_connect-failed e j = rw (manager_failed e) (
      append_assoc m.scheduled ((id, on_connect) ∷ []) (tagged id (calls bs)),
      lookup-assign (endpoint_string conn) j id m.endpoint_map,
    )
