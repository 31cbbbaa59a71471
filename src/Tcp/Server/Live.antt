-- ===== src/Tcp/Server/Live.antt =====
-- The table of endpoints while connections come and go.
use magic_engine.Common.{
  ℕ, zero, suc, ◌+◌, ◌≡◌, refl, sym, ap, ap₂, ◌∙◌, subst, Bool, true, false, not, Option, none,
  some, List, [], ◌++◌, leb, if◌then◌else◌, length, drop, Bytes, codes,
}
use magic_engine.NetHttp.{Error}
use magic_engine.Tcp.Endpoint.{
  Conn, on_connect, on_disconnect, Endpoint, Sent, Received, closed, recv_failed, new_endpoint,
  endpoint_string, send_step, send_loop,
}
use magic_engine.Tcp.Manager.{Manager, record_event, manager_event, manager_events}
use magic_engine.Tcp.Server.{
  Phase, reading, lost, ended, ConnPc, unused, pending, active, gone, told, open_key,
}
use magic_engine.Tcp.Server.Table.{Change, keep, add, drop_key}

abbrev pub table : Option Manager → List (Bytes × ℕ)
table none = []
table (some m) = m.endpoint_map

-- The sink passes calls on.
abbrev pub observes : Option Manager → Bool
observes none = false
observes (some m) = m.observed

abbrev pub failed_key : Option Received → Bytes → Option Bytes
failed_key (some (recv_failed e)) key = some key
failed_key (some closed) key = none
failed_key (some Received.waiting) key = none
failed_key none key = none

-- The addresses of a connection that is being read, and no SendData of it has failed
abbrev pub live_phase : Phase → Bytes → Option Bytes
live_phase reading key = some key
live_phase (lost n) key = none
live_phase (ended n r) key = none

-- The addresses of a connection that is being read, or whose read failed
abbrev pub owner_phase : Phase → Bytes → Option Bytes
owner_phase reading key = some key
owner_phase (lost n) key = some key
owner_phase (ended n r) key = failed_key (some r) key

failed_key-some : (r : Option Received) (key x : Bytes) → failed_key r key ≡ some x → x ≡ key
failed_key-some (some (recv_failed e)) key x h = cc
failed_key-some (some closed) key x h = absurd cc
failed_key-some (some Received.waiting) key x h = absurd cc
failed_key-some none key x h = absurd cc

pub owner_phase-some : (phase : Phase) (key x : Bytes) → owner_phase phase key ≡ some x → x ≡ key
owner_phase-some reading key x h = cc
owner_phase-some (lost n) key x h = cc
owner_phase-some (ended n r) key x h = failed_key-some (some r) key x h

-- What net.Conn documents of its addresses: they are those of the connection, whatever it writes,
-- and when it is closed.
pub record FixedAddresses {K : Type 0} (net : Conn K) : Type 0 where
  pub local : (k : K) (b : Bytes) → net.local_addr (net.write k b).0 ≡ net.local_addr k
  pub remote : (k : K) (b : Bytes) → net.remote_addr (net.write k b).0 ≡ net.remote_addr k
  pub closed_local : (k : K) → net.local_addr (net.close k) ≡ net.local_addr k
  pub closed_remote : (k : K) → net.remote_addr (net.close k) ≡ net.remote_addr k

module _ {K : Type 0} ⦃net : Conn K⦄ where
  abbrev pub live_key : ConnPc K → Option Bytes
  live_key (active false phase ep) = live_phase phase (endpoint_string ep.conn)
  live_key (active true phase ep) = none
  live_key unused = none
  live_key (pending k) = none
  live_key (gone b r key k) = none

  abbrev pub owner_key : ConnPc K → Option Bytes
  owner_key (active false phase ep) = owner_phase phase (endpoint_string ep.conn)
  owner_key (active true phase ep) = some (endpoint_string ep.conn)
  owner_key unused = none
  owner_key (pending k) = none
  owner_key (gone false r key k) = failed_key r key
  owner_key (gone true r key k) = some key

  -- Between NewConnect and a Close the endpoint has its observer, and none after that.
  abbrev pub Watched : Option Manager → ConnPc K → Type 0
  Watched sink (active b phase ep) = (ep.observed ≡ not b) × (observes sink ≡ true)
  Watched sink unused = Unit
  Watched sink (pending k) = Unit
  Watched sink (gone b r key k) = Unit

  pub live-open : (p : ConnPc K) (x : Bytes) → live_key p ≡ some x → open_key p ≡ some x
  live-open (active true phase ep) x h = absurd cc
  live-open (active false reading ep) x h = h
  live-open (active false (lost n) ep) x h = absurd cc
  live-open (active false (ended n r) ep) x h = absurd cc
  live-open unused x h = absurd cc
  live-open (pending k) x h = absurd cc
  live-open (gone b r key k) x h = absurd cc

  module _ (fixed : FixedAddresses net) where
    endpoint_string-write :
        (k : K) (b : Bytes) → endpoint_string (net.write k b).0 ≡ endpoint_string k
    unfolding endpoint_string
    endpoint_string-write k b =
        ap₂ (λ l r. l ++ codes "->" ++ r) (fixed.local k b) (fixed.remote k b)

    endpoint_string-send_step :
        (again : K → Sent × K) (finished : Bool) (w : K × ℕ × Option Error)
        → ((k : K) → endpoint_string (again k).1 ≡ endpoint_string k)
        → endpoint_string (send_step again finished w).1 ≡ endpoint_string w.0
    endpoint_string-send_step again f (k, n, some e) h = refl
    endpoint_string-send_step again true (k, n, none) h = refl
    endpoint_string-send_step again false (k, n, none) h = h k

    pub endpoint_string-close : (k : K) → endpoint_string (net.close k) ≡ endpoint_string k
    unfolding endpoint_string
    endpoint_string-close k =
        ap₂ (λ l r. l ++ codes "->" ++ r) (fixed.closed_local k) (fixed.closed_remote k)

    pub endpoint_string-send_loop :
        (fuel : ℕ) (b : Bytes) (off_set : ℕ) (k : K)
        → endpoint_string (send_loop fuel b off_set k).1 ≡ endpoint_string k
    unfolding send_loop
    endpoint_string-send_loop zero b o k = refl
    endpoint_string-send_loop (suc fuel) b o k =
        let w = net.write k (drop o b) in
        endpoint_string-send_step (send_loop fuel b (o + w.1)) (leb (length b) (o + w.1)) w
          (endpoint_string-send_loop fuel b (o + w.1))
        ∙ endpoint_string-write k (drop o b)

  -- What a step does to the state of its connection and to the table
  pub record Moved (i : ℕ) (s : Option Manager) (p : ConnPc K) (t : Option Manager) (q : ConnPc K)
      : Type 0 where
    pub key : Bytes
    pub opened : open_key p ≡ some key
    pub stays_open : (x : Bytes) → open_key q ≡ some x → open_key p ≡ some x
    pub change : Change open_key live_key owner_key i p (table s) q (table t)
    pub observers : observes t ≡ observes s
    pub watched : Watched t q

  module _ (i : ℕ) (m : Manager) (ep ep' : Endpoint K)
      (same : endpoint_string ep'.conn ≡ endpoint_string ep.conn) (w : ep'.observed ≡ true)
      (o : m.observed ≡ true) (phase phase' : Phase) where
    -- A step without OnDisConnect
    pub quiet-Moved :
        (n : Manager)
        → n.endpoint_map ≡ m.endpoint_map
        → n.observed ≡ true
        → ((x : Bytes)
            → live_phase phase' (endpoint_string ep.conn) ≡ some x
            → live_phase phase (endpoint_string ep.conn) ≡ some x)
        → ((x : Bytes)
            → owner_phase phase (endpoint_string ep.conn) ≡ some x
            → owner_phase phase' (endpoint_string ep.conn) ≡ some x)
        → Moved i (some m) (active false phase ep) (some n) (active false phase' ep')
    quiet-Moved n t b l g = record {
      key = endpoint_string ep.conn;
      opened = refl;
      stays_open = λ x h. sym (ap some same) ∙ h;
      change =
          subst
            (Change open_key live_key owner_key i (active false phase ep) m.endpoint_map
              (active false phase' ep'))
            (sym t)
            (keep (λ x h. l x (sym (ap (live_phase phase') same) ∙ h))
              (λ x h. ap (owner_phase phase') same ∙ g x h));
      observers = b ∙ sym o;
      watched = (w, b);
    }

    -- A step with OnDisConnect
    pub disconnect-Moved :
        live_phase phase' (endpoint_string ep'.conn) ≡ none
        → Moved i
            (some m)
            (active false phase ep)
            (some (record_event (endpoint_string ep'.conn) i on_disconnect m))
            (active false phase' ep')
    disconnect-Moved l = record {
      key = endpoint_string ep.conn;
      opened = refl;
      stays_open = λ x h. sym (ap some same) ∙ h;
      change =
          drop_key (endpoint_string ep'.conn) (ap some (sym same)) l
            (λ x h. owner_phase-some phase (endpoint_string ep.conn) x h ∙ sym same);
      observers = refl;
      watched = (w, o);
    }

  -- A step of an endpoint that the user has closed, or the Close itself
  pub closed-Moved :
      (i : ℕ) (m : Manager) (by_user : Bool) (phase phase' : Phase) (ep ep' : Endpoint K)
      → endpoint_string ep'.conn ≡ endpoint_string ep.conn
      → ep'.observed ≡ false
      → m.observed ≡ true
      → Moved i (some m) (active by_user phase ep) (some m) (active true phase' ep')
  closed-Moved i m by_user phase phase' ep ep' same w o = record {
    key = endpoint_string ep.conn;
    opened = refl;
    stays_open = λ x h. sym (ap some same) ∙ h;
    change = keep (λ x h. absurd cc) (λ x h. ap some same ∙ owner_active by_user x h);
    observers = refl;
    watched = (w, o);
  }
    where
      owner_active :
          (b : Bool) (x : Bytes)
          → owner_key (active b phase ep) ≡ some x
          → some (endpoint_string ep.conn) ≡ some x
      owner_active false x h = ap some (sym (owner_phase-some phase (endpoint_string ep.conn) x h))
      owner_active true x h = h

  pub pending-Moved :
      (i : ℕ) (s : Option Manager) (k c : K)
      → Moved i s (pending k) s (gone false none (endpoint_string k) c)
  pending-Moved i s k c = record {
    key = endpoint_string k;
    opened = refl;
    stays_open = λ x h. absurd cc;
    change = keep (λ x h. absurd cc) (λ x h. absurd cc);
    observers = refl;
    watched = tt;
  }

  pub connect-Moved :
      (i : ℕ) (k : K) (m : Manager)
      → m.observed ≡ true
      → Moved i
          (some m)
          (pending k)
          (told i m (new_endpoint k true))
          (active false reading (new_endpoint k true))
  unfolding new_endpoint manager_events manager_event
  connect-Moved i k m o =
      subst
        (λ n. Moved i (some m) (pending k) (some n) (active false reading (new_endpoint k true)))
        (sym (ap (λ b. if b then record_event (endpoint_string k) i on_connect m else m) o))
        (record {
          key = endpoint_string k;
          opened = refl;
          stays_open = λ x h. h;
          change = add (endpoint_string k) refl refl (λ x h. cc) refl;
          observers = refl;
          watched = (refl, o);
        })
