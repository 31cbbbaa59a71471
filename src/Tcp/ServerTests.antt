-- ===== src/Tcp/ServerTests.antt =====
-- The theorem on the server and its connections at a concrete run.
use magic_engine.Common.{
  ◌≡◌, refl, false, true, ◌∷◌, some, [], Bytes, codes, bytes_eq, lookup, assign, set_at,
}
use magic_engine.Tcp.Endpoint.{
  on_connect, eof, closed, new_endpoint, endpoint_string, close_endpoint, recv_data,
}
use magic_engine.Tcp.Manager.{Manager, manager_event, manager_events}
use magic_engine.Tcp.Server.{
  unused, pending, active, reading, ended, told, connect, receive, close, receive_round, Server,
  new_server, accept, run, Reach,
}
use magic_engine.Tcp.Server.Live.{FixedAddresses, table}
use magic_engine.Tcp.Server.Moves.{IsConsistent, Reach-IsConsistent}
use magic_engine.Tcp.Tests.{partial}

partial-FixedAddresses : FixedAddresses partial
partial-FixedAddresses = record {
  local = λ k b. refl;
  remote = λ k b. refl;
  closed_local = λ k. refl;
  closed_remote = λ k. refl;
}

abbrev empty_manager : Manager
empty_manager = record { observed = true; endpoint_map = []; scheduled = [] }

-- A server that has accepted a connection, and read from it
abbrev accepted : Server Bytes
accepted = record { sink = some empty_manager; count = 1; pc = set_at (λ i. unused) 0 (pending []) }

abbrev reads_on : Server Bytes
reads_on = record accepted {
  sink = told 0 empty_manager (new_endpoint {K = Bytes} [] true);
  pc = set_at accepted.pc 0 (active false reading (new_endpoint [] true));
}

reads_on-Reach : Reach (new_server (some empty_manager)) reads_on
unfolding set_at
reads_on-Reach =
    Reach.next (Reach.next Reach.here (accept [] (λ j e. absurd cc)))
      (run 0 (connect [] empty_manager refl))

abbrev told_manager : Manager
told_manager = manager_events (codes "local->remote") 0 (on_connect ∷ []) empty_manager

-- The user closes the endpoint, and then the read finds the end of the stream.
abbrev closed_by_user : Server Bytes
closed_by_user = record reads_on {
  pc = set_at reads_on.pc 0 (active true reading (close_endpoint (new_endpoint [] true)));
}

abbrev closed_end : Server Bytes
closed_end = record closed_by_user {
  pc = set_at closed_by_user.pc 0 (
      active true (ended 0 closed)
        (receive_round ([], some eof) (close_endpoint (new_endpoint [] true))).1);
}

closed_end-Reach : Reach (new_server (some empty_manager)) closed_end
unfolding set_at receive_round recv_data close_endpoint manager_events new_endpoint endpoint_string
closed_end-Reach =
    Reach.next
      (Reach.next reads_on-Reach
        (run 0 (close false reading (new_endpoint [] true) (told_manager))))
      (run 0 (
        receive true reading (close_endpoint (new_endpoint [] true)) told_manager ([], some eof)
          tt))

Reach-IsConsistent_example : IsConsistent closed_end
Reach-IsConsistent_example =
    Reach-IsConsistent partial-FixedAddresses (some empty_manager) refl closed_end-Reach

-- The table keeps the endpoint, whose observer is not told.
closed_end_table : lookup (codes "local->remote") (table closed_end.sink) ≡ some 0
unfolding endpoint_string manager_events manager_event new_endpoint assign lookup bytes_eq
closed_end_table = refl
