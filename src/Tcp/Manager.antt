-- ===== src/Tcp/Manager.antt =====
-- tcp/endpoint.go, SimpleEndpointManger: the table of live endpoints and the calls that it passes on
-- to its observer. The calls are scheduled with execute.Run of magicCommon, which may run them later
-- and in any order: `scheduled` holds them in the order of scheduling, each with the bytes that its
-- slice holds at that time. The slice is a part of the buffer of RecvData, which the next read
-- overwrites; Tcp.Manager.Buffer models what a later call sees.
pub mod Lifecycle
pub mod Buffer
use magic_engine.Common.{
  ℕ, ◌+◌, ◌⊎◌, inl, inr, Bool, true, List, [], ◌∷◌, ◌++◌, if◌then◌else◌, Bytes, assign, delete,
}
use magic_engine.NetHttp.{Error, Try, ok, err}
use magic_engine.Tcp.Endpoint.{
  Conn, Event, on_connect, on_disconnect, on_recv, Endpoint, Read, Received, closed, notify,
  new_endpoint, recv_data, close_endpoint, endpoint_string,
}

-- SimpleEndpointManger. An endpoint in the table is known by a number of its own.
pub record Manager : Type 0 where
  pub observed : Bool
  pub endpoint_map : List (Bytes × ℕ)
  pub scheduled : List (ℕ × Event)

-- `s.executePtr.Run(func() { s.observer.… })`
abbrev pub schedule : ℕ → Event → Manager → Manager
schedule id e m = record m { scheduled = m.scheduled ++ (id, e) ∷ [] }

-- What OnConnect, OnDisConnect and OnRecvData do for an observer that is not nil
abbrev pub record_event : Bytes → ℕ → Event → Manager → Manager
record_event key id on_connect m =
    schedule id on_connect (record m { endpoint_map = assign key id m.endpoint_map })
record_event key id on_disconnect m =
    schedule id on_disconnect (record m { endpoint_map = delete key m.endpoint_map })
record_event key id (on_recv b) m = schedule id (on_recv b) m

-- OnConnect, OnDisConnect, OnRecvData
unfoldable pub manager_event : Bytes → ℕ → Event → Manager → Manager
manager_event key id e m = if m.observed then record_event key id e m else m

-- The calls of one endpoint, in their order
unfoldable pub manager_events : Bytes → ℕ → List Event → Manager → Manager
unfolding manager_event
manager_events key id [] m = m
manager_events key id (e ∷ es) m = manager_events key id es (manager_event key id e m)

module _ {K : Type 0} ⦃net : Conn K⦄ where
  -- OnNewConnect with the reads that its connection gives: a new endpoint whose observer is the
  -- manager, RecvData, and the deferred Close. Without an observer the connection is closed at once.
  unfoldable pub on_new_connect :
      K → ℕ → List Read → Manager → (K ⊎ (Received × Endpoint K)) × Manager
  unfolding new_endpoint recv_data close_endpoint endpoint_string
  on_new_connect conn id reads m =
      if m.observed
      then (let (r, ep) = recv_data reads (new_endpoint conn true) in
          (inr (r, close_endpoint ep), manager_events (endpoint_string conn) id ep.events m))
      else (inl (net.close conn), m)
