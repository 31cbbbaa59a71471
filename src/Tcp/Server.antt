-- ===== src/Tcp/Server.antt =====
-- tcp/server.go, serverImpl, with a nil sink or a SimpleEndpointManger as its sink, and the connections
-- that it accepts, interleaved in any order. The function that Run hands to execute.Run for a
-- connection starts at some later time; from then on a step is one round of RecvData; the
-- writes of a call of SendData by the program's user, or, if they failed, its test of the observer
-- with the call of OnDisConnect; a call of Close by the user; or the deferred Close.
pub mod Table
pub mod Live
pub mod Moves
use magic_engine.Common.{
  set_at, ℕ, suc, ◌+◌, ◌≡◌, ◌≢◌, Bool, true, false, length, Option, none, some, [], ◌∷◌, Bytes,
}
use magic_engine.NetHttp.{Error, Try, ok, err}
use magic_engine.Tcp.Endpoint.{
  Conn, Event, Endpoint, Sent, sent, send_failed, send_out_of_fuel, Read, Received, closed,
  recv_failed, new_endpoint, recv_data, close_endpoint, endpoint_string, send_loop, notify,
  on_disconnect,
}
use magic_engine.Tcp.Manager.{Manager, manager_events}

-- Where RecvData of a connection is: in its loop; in its loop after a SendData has failed; or
-- returned, with Close deferred. The number is that of the failed calls of SendData that have not
-- come to their `if err != nil && s.observer != nil { … }` yet.
pub data Phase : Type 0 where
  reading : Phase
  lost : ℕ → Phase
  ended : ℕ → Received → Phase

-- Where a connection is
pub data ConnPc (K : Type 0) : Type 0 where
  -- not accepted yet
  unused : ConnPc K
  -- accepted, and the function for it scheduled
  pending : K → ConnPc K
  -- in OnNewConnect; and whether the user has called Close of its endpoint
  active : Bool → Phase → Endpoint K → ConnPc K
  -- closed: whether the user had called Close, what RecvData returned, if it ran, the text of the
  -- addresses, and the connection
  gone : Bool → Option Received → Bytes → K → ConnPc K

-- RecvData has not returned.
abbrev pub Reads : Phase → Type 0
Reads reading = Unit
Reads (lost n) = Unit
Reads (ended n r) = ⊥

-- The failed calls of SendData that are still to test the observer
abbrev pub owed : Phase → ℕ
owed reading = 0
owed (lost n) = n
owed (ended n r) = n

abbrev pub after_read : Phase → Received → Phase
after_read phase Received.waiting = phase
after_read phase closed = ended (owed phase) closed
after_read phase (recv_failed e) = ended (owed phase) (recv_failed e)

abbrev pub after_sent : Phase → Sent → Phase
after_sent reading (send_failed e) = lost 1
after_sent (lost n) (send_failed e) = lost (n + 1)
after_sent (ended n r) (send_failed e) = ended (n + 1) r
after_sent phase sent = phase
after_sent phase send_out_of_fuel = phase

-- One of the failed calls has made its test.
pub data Owes : Phase → Phase → Type 0 where
  while_lost : (n : ℕ) → Owes (lost (suc n)) (lost n)
  once_ended : (n : ℕ) (r : Received) → Owes (ended (suc n) r) (ended n r)

-- An endpoint without the calls that it made so far
abbrev pub clear : {K : Type 0} → Endpoint K → Endpoint K
clear ep = record ep { events = [] }

module _ {K : Type 0} ⦃net : Conn K⦄ where
  -- A round of RecvData; it leaves the calls that it makes.
  unfoldable pub receive_round : Read → Endpoint K → Received × Endpoint K
  unfolding recv_data
  receive_round r ep = recv_data (r ∷ []) (clear ep)

  -- SendData up to its test of the observer
  unfoldable pub send_writes : Bytes → Endpoint K → Sent × Endpoint K
  unfolding send_loop
  send_writes bytes ep =
      let (result, conn) = send_loop (length bytes + 1) bytes 0 ep.conn in
      (result, record (clear ep) { conn = conn })

  -- `if err != nil && s.observer != nil { s.observer.OnDisConnect(s) }` of a call that failed
  unfoldable pub tell_failed : Endpoint K → Endpoint K
  tell_failed ep = notify on_disconnect (clear ep)

  -- The manager after the calls of an endpoint
  abbrev pub told : ℕ → Manager → Endpoint K → Option Manager
  told i m ep = some (manager_events (endpoint_string ep.conn) i ep.events m)

  -- A step of the connection with the number `i`
  pub data ConnMove (i : ℕ) : Option Manager → ConnPc K → Option Manager → ConnPc K → Type 0 where
    -- `if s.serverSink == nil { … }`
    no_sink :
        (k : K)
        → ConnMove i none (pending k) none (gone false none (endpoint_string k) (net.close k))
    -- `if s.observer == nil { … }` of OnNewConnect
    no_observer :
        (k : K) (m : Manager)
        → m.observed ≡ false
        → ConnMove i
            (some m)
            (pending k)
            (some m)
            (gone false none (endpoint_string k) (net.close k))
    connect :
        (k : K) (m : Manager)
        → m.observed ≡ true
        → ConnMove i
            (some m)
            (pending k)
            (told i m (new_endpoint k true))
            (active false reading (new_endpoint k true))
    receive :
        (by_user : Bool) (phase : Phase) (ep : Endpoint K) (m : Manager) (r : Read)
        → Reads phase
        → ConnMove i
            (some m)
            (active by_user phase ep)
            (told i m (receive_round r ep).1)
            (active by_user (after_read phase (receive_round r ep).0) (receive_round r ep).1)
    -- the writes of a call of SendData
    send :
        (by_user : Bool) (phase : Phase) (ep : Endpoint K) (m : Manager) (bytes : Bytes)
        → ConnMove i
            (some m)
            (active by_user phase ep)
            (some m)
            (active by_user (after_sent phase (send_writes bytes ep).0) (send_writes bytes ep).1)
    -- the end of one that failed
    tell :
        (by_user : Bool) (phase phase' : Phase) (ep : Endpoint K) (m : Manager)
        → Owes phase phase'
        → ConnMove i
            (some m)
            (active by_user phase ep)
            (told i m (tell_failed ep))
            (active by_user phase' (tell_failed ep))
    -- Close by the user
    close :
        (by_user : Bool) (phase : Phase) (ep : Endpoint K) (m : Manager)
        → ConnMove i
            (some m)
            (active by_user phase ep)
            (some m)
            (active true phase (close_endpoint ep))
    -- the deferred Close, behind which a call of SendData finds no observer
    shut :
        (by_user : Bool) (n : ℕ) (r : Received) (ep : Endpoint K) (m : Manager)
        → ConnMove i
            (some m)
            (active by_user (ended n r) ep)
            (some m)
            (gone by_user (some r) (endpoint_string ep.conn) (close_endpoint ep).conn)

  -- The addresses of a connection that is accepted, and whose OnNewConnect has not ended
  abbrev pub open_key : ConnPc K → Option Bytes
  open_key unused = none
  open_key (pending k) = some (endpoint_string k)
  open_key (active b phase ep) = some (endpoint_string ep.conn)
  open_key (gone b r key k) = none

-- serverImpl, how many connections it accepted, and where each of them is
pub record Server (K : Type 0) : Type 0 where
  pub sink : Option Manager
  pub count : ℕ
  pub pc : ℕ → ConnPc K

-- NewServer
abbrev pub new_server : {K : Type 0} → Option Manager → Server K
new_server sink = record { sink = sink; count = 0; pc = λ i. unused }

-- Run up to its loop, over what net.Listen returns: the error, or a server that accepts. The loop has
-- no end.
abbrev pub listen : {K : Type 0} → Option Error → Server K → Try (Server K)
listen (some e) s = err e
listen none s = ok s

module _ {K : Type 0} ⦃net : Conn K⦄ where
  -- A step of Run whose net.Listen went well, or of a connection. Two connections whose
  -- OnNewConnect has not ended differ in an address.
  pub data Step (s : Server K) : Server K → Type 0 where
    accept :
        (k : K)
        → ((j : ℕ) → open_key (s.pc j) ≢ some (endpoint_string k))
        → Step s (record s { count = s.count + 1; pc = set_at s.pc s.count (pending k) })
    accept_failed : Error → Step s s
    run :
        (i : ℕ) {t : Option Manager} {p : ConnPc K}
        → ConnMove i s.sink (s.pc i) t p
        → Step s (record s { sink = t; pc = set_at s.pc i p })

  pub data Reach (s : Server K) : Server K → Type 0 where
    here : Reach s s
    next : {t u : Server K} → Reach s t → Step t u → Reach s u
