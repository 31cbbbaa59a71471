-- ===== src/Sse/RoundTrip/Serve.antt =====
-- A holder that writes to a response, and a client that reads the body of it.
use magic_engine.Common.{
  ℕ, ◌≡◌, refl, sym, ap, ◌∙◌, subst, Option, none, some, List, [], ◌∷◌, ◌++◌, append_assoc,
  append-nil, Bytes, codes,
}
use magic_engine.NetHttp.{Error, NetWriter}
use magic_engine.Sse.Server.{
  Holder, HolderRegistry, after_write, close_on_error, event_parts, ping_frame, write_parts,
  send_parts, on_recv, heartbeat, sse_stream,
}
use magic_engine.Sse.Client.{Client, recv_val}
use magic_engine.Sse.RoundTrip.{
  Item, message, ping, joined, frames, Plain, deliveries, id_after, recv_lines-frames,
}

module _ {W : Type 0} ⦃net : NetWriter W⦄ where
  abbrev kept : Option Error × Holder W × HolderRegistry → Holder W × HolderRegistry
  kept (e, h, registry) = (h, registry)

  -- The call for an item
  abbrev pub serve_item : ℕ → Item → Holder W → HolderRegistry → Holder W × HolderRegistry
  serve_item now (message event content) h registry = kept (on_recv now event content h registry)
  serve_item now ping h registry = kept (heartbeat now h registry)

  -- One call after the other, each with the time that it is made at
  unfoldable pub serve : List (ℕ × Item) → Holder W → HolderRegistry → Holder W × HolderRegistry
  serve [] h registry = (h, registry)
  serve ((now, item) ∷ items) h registry =
      let (h', registry') = serve_item now item h registry in serve items h' registry'

abbrev pub untimed : List (ℕ × Item) → List Item
untimed [] = []
untimed ((now, item) ∷ items) = item ∷ untimed items

-- A response whose body takes all that is written: Write appends its bytes and returns no error.
pub record Healthy {W : Type 0} (net : NetWriter W) (output : W → Bytes) : Type 0 where
  pub appends : (w : W) (b : Bytes) → output (net.write w b).0 ≡ output w ++ b
  pub succeeds : (w : W) (b : Bytes) → (net.write w b).2 ≡ none
  pub header_only :
      (w : W) (key : Bytes) (value : Option Bytes) → output (net.set_header w key value) ≡ output w

module _ {W : Type 0} ⦃net : NetWriter W⦄ where
  after_write-none :
      (rest : W → W × Option Error) (r : W × ℕ × Option Error)
      → r.2 ≡ none
      → after_write rest r ≡ rest r.0
  after_write-none rest (w, n, none) e = refl
  after_write-none rest (w, n, some x) e = absurd cc

  module _ (output : W → Bytes) (healthy : Healthy net output) where
    write_parts-Healthy :
        (parts : List Bytes) (w : W)
        → (output (write_parts parts w).0 ≡ output w ++ joined parts)
          × ((write_parts parts w).1 ≡ none)
    unfolding write_parts
    write_parts-Healthy [] w = (sym (append-nil (output w)), refl)
    write_parts-Healthy (part ∷ parts) w =
        let ih = write_parts-Healthy parts (net.write w part).0 in
        rw (after_write-none (write_parts parts) (net.write w part) (healthy.succeeds w part)) (
          ih.0
              ∙ ap (λ b. b ++ joined parts) (healthy.appends w part)
              ∙ append_assoc (output w) part (joined parts),
          ih.1,
        )

    close_on_error-none :
        (h : Holder W) (registry : HolderRegistry) (r : W × Option Error)
        → r.1 ≡ none
        → kept (close_on_error h registry r) ≡ (record h { writer = r.0 }, registry)
    close_on_error-none h registry (w, none) e = refl
    close_on_error-none h registry (w, some x) e = absurd cc

    -- A call of a healthy holder: its bytes are out, and the registry is as it was.
    Sends : Bytes → Holder W → HolderRegistry → Holder W × HolderRegistry → Type 0
    Sends b h registry (h', registry') =
        (output h'.writer ≡ output h.writer ++ b) × (registry' ≡ registry)

    send_parts-Sends :
        (now : ℕ) (parts : List Bytes) (h : Holder W) (registry : HolderRegistry)
        → Sends (joined parts) h registry (kept (send_parts now parts h registry))
    unfolding send_parts Sends
    send_parts-Sends now parts h registry =
        let opened = net.set_header h.writer (codes "Content-Type") (some sse_stream) in
        let w = write_parts-Healthy parts opened in
        subst (Sends (joined parts) h registry)
          (sym (
            close_on_error-none (record h { last_active = now }) registry (write_parts parts opened)
              w.1))
          (
            w.0
                ∙ ap (λ b. b ++ joined parts)
                    (healthy.header_only h.writer (codes "Content-Type") (some sse_stream)),
            refl,
          )

    Sends-trans :
        (b c : Bytes) (h : Holder W) (registry : HolderRegistry) (s t : Holder W × HolderRegistry)
        → Sends b h registry s
        → Sends c s.0 s.1 t
        → Sends (b ++ c) h registry t
    unfolding Sends
    Sends-trans b c h registry s t (o, r) (o', r') =
        (o' ∙ ap (λ x. x ++ c) o ∙ append_assoc (output h.writer) b c, r' ∙ r)

    serve-Sends :
        (items : List (ℕ × Item)) (h : Holder W) (registry : HolderRegistry)
        → Sends (frames (untimed items) []) h registry (serve items h registry)
    unfolding serve Sends frames on_recv heartbeat
    serve-Sends [] h registry = (sym (append-nil (output h.writer)), refl)
    serve-Sends ((now, message event content) ∷ items) h registry =
        let s = kept (on_recv now event content h registry) in
        Sends-trans (joined (event_parts event content)) (frames (untimed items) []) h registry s
          (serve items s.0 s.1) (send_parts-Sends now (event_parts event content) h registry)
          (serve-Sends items s.0 s.1)
    serve-Sends ((now, ping) ∷ items) h registry =
        let s = kept (heartbeat now h registry) in
        Sends-trans ping_frame (frames (untimed items) []) h registry s (serve items s.0 s.1)
          (send_parts-Sends now (ping_frame ∷ []) h registry) (serve-Sends items s.0 s.1)

    -- A client that reads the body which a holder wrote, events and pings, over a response that
    -- takes all writes: its sink gets every event in order, with the spaces around its name and its
    -- content cut off and a newline behind the content; pings are not seen; an event sets the last
    -- event id to the empty one; and the registry of the holder has not changed. Names and contents
    -- are without newlines, and the body was empty before.
    pub serve-recv_val :
        (parse_duration : Bytes → Option ℕ) (items : List (ℕ × Item)) (h : Holder W)
        (registry : HolderRegistry) (c : Client)
        → Plain (untimed items)
        → output h.writer ≡ []
        → (recv_val parse_duration (output (serve items h registry).0.writer) c ≡ record c {
          last_event_id = id_after (untimed items) c.last_event_id;
          received = c.received ++ deliveries (untimed items);
        })
          × ((serve items h registry).1 ≡ registry)
    unfolding recv_val Sends
    serve-recv_val parse_duration items h registry c p empty =
        let s = serve-Sends items h registry in
        let body : output (serve items h registry).0.writer ≡ frames (untimed items) [] =
          s.0 ∙ ap (λ b. b ++ frames (untimed items) []) empty in
        let lines = recv_lines-frames parse_duration (untimed items) c p in
        (ap (λ b. recv_val parse_duration b c) body ∙ ap (λ r. r.1) lines, s.1)
