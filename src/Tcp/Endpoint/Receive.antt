-- ===== src/Tcp/Endpoint/Receive.antt =====
-- RecvData: what the observer of an endpoint hears of the bytes that were read.
use magic_engine.Common.{
  ◌≡◌, refl, sym, ap, ◌∙◌, true, none, some, List, [], ◌∷◌, ◌++◌, append_assoc, append-nil,
  if◌then◌else◌, Bytes,
}
use magic_engine.NetHttp.{Error}
use magic_engine.Tcp.Endpoint.{
  Event, on_connect, on_disconnect, on_recv, Endpoint, eof, other, Read, closed, recv_failed,
  notify, recv_data,
}

-- Reads of bytes without an error
abbrev pub chunks : List Bytes → List Read
chunks [] = []
chunks (b ∷ bs) = (b, none) ∷ chunks bs

-- One call for each chunk that is not empty
abbrev pub calls : List Bytes → List Event
calls [] = []
calls ([] ∷ bs) = calls bs
calls ((c ∷ b) ∷ bs) = on_recv (c ∷ b) ∷ calls bs

-- The bytes that a list of calls carries
abbrev pub payload : List Event → Bytes
payload [] = []
payload (on_connect ∷ es) = payload es
payload (on_disconnect ∷ es) = payload es
payload (on_recv b ∷ es) = b ++ payload es

abbrev pub joined : List Bytes → Bytes
joined [] = []
joined (b ∷ bs) = b ++ joined bs

pub payload-calls : (bs : List Bytes) → payload (calls bs) ≡ joined bs
payload-calls [] = refl
payload-calls ([] ∷ bs) = payload-calls bs
payload-calls ((c ∷ b) ∷ bs) = ap (λ r. (c ∷ b) ++ r) (payload-calls bs)

module _ {K : Type 0} where
  -- The endpoint after calls to its observer
  abbrev pub heard : List Event → Endpoint K → Endpoint K
  heard es ep = record ep { events = ep.events ++ es }

  pub notify-heard :
      (e : Event) (ep : Endpoint K) → ep.observed ≡ true → notify e ep ≡ heard (e ∷ []) ep
  notify-heard e ep o =
      ap (λ b. record ep { events = if b then ep.events ++ e ∷ [] else ep.events }) o

  heard-heard :
      (es fs : List Event) (ep : Endpoint K) → heard fs (heard es ep) ≡ heard (es ++ fs) ep
  heard-heard es fs ep = ap (λ all. record ep { events = all }) (append_assoc ep.events es fs)

  recv_data-chunks :
      (bs : List Bytes) (reads : List Read) (ep : Endpoint K)
      → ep.observed ≡ true
      → recv_data (chunks bs ++ reads) ep ≡ recv_data reads (heard (calls bs) ep)
  unfolding recv_data
  recv_data-chunks [] reads ep o =
      ap (λ es. recv_data reads (record ep { events = es })) (sym (append-nil ep.events))
  recv_data-chunks ([] ∷ bs) reads ep o = recv_data-chunks bs reads ep o
  recv_data-chunks ((c ∷ b) ∷ bs) reads ep o =
      ap (recv_data (chunks bs ++ reads)) (notify-heard (on_recv (c ∷ b)) ep o)
      ∙ recv_data-chunks bs reads (heard (on_recv (c ∷ b) ∷ []) ep) o
      ∙ ap (recv_data reads) (heard-heard (on_recv (c ∷ b) ∷ []) (calls bs) ep)

  -- At the end of the stream: the observer has heard every byte that was read, in order, in calls
  -- that are not empty, and then once that the connection is gone.
  pub recv_data-closed :
      (bs : List Bytes) (last : Bytes) (later : List Read) (ep : Endpoint K)
      → ep.observed ≡ true
      → (recv_data (chunks bs ++ (last, some eof) ∷ later) ep
          ≡ (closed, heard (calls bs ++ on_disconnect ∷ []) ep))
        × (payload (calls bs) ≡ joined bs)
  unfolding recv_data
  recv_data-closed bs last later ep o = (
    recv_data-chunks bs ((last, some eof) ∷ later) ep o
        ∙ ap (λ p. (closed, p)) (notify-heard on_disconnect (heard (calls bs) ep) o)
        ∙ ap (λ p. (closed, p)) (heard-heard (calls bs) (on_disconnect ∷ []) ep),
    payload-calls bs,
  )

  -- At another error of a read: the observer has heard every byte that was read before, and is not
  -- told that the connection is gone.
  pub recv_data-failed :
      (bs : List Bytes) (last : Bytes) (e : Error) (later : List Read) (ep : Endpoint K)
      → ep.observed ≡ true
      → (recv_data (chunks bs ++ (last, some (other e)) ∷ later) ep
          ≡ (recv_failed e, heard (calls bs) ep))
        × (payload (calls bs) ≡ joined bs)
  unfolding recv_data
  recv_data-failed bs last e later ep o =
      (recv_data-chunks bs ((last, some (other e)) ∷ later) ep o, payload-calls bs)
