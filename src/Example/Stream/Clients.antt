-- ===== src/Example/Stream/Clients.antt =====
-- The client of example/sse and the one of sse/client.go on the same bytes.
use magic_engine.Common.{
  ℕ, ◌≡◌, refl, sym, ap, ◌∙◌, subst, inl, inr, Option, none, some, List, [], ◌∷◌, ◌++◌, map, arith,
  Bool-cases, All, Bytes, codes, has_prefix, trim_prefix,
}
use magic_engine.Sse.Text.{trim_space, read_lines}
use magic_engine.Sse.Client.{
  Client, field, feed, recv_lines, recv_val, value_of, dispatch_event, append_data, set_retry,
}
use magic_engine.Sse.Client as Sse
use magic_engine.Example.Stream.{
  Event, Act, requested, emitted, slept, StreamClient, read_line, end_event, add_data,
  set_retry_wait, no_event, take_line, process_looks, process_stream,
}
use magic_engine.Example.Stream.Blocks.{has_prefix-other}

-- No space stands between the colon of a field and its value.
abbrev pub IsUnspaced : Bytes → Type 0
IsUnspaced line =
    (trim_space (trim_prefix line (codes "id:")) ≡ trim_prefix line (codes "id:"))
    × (trim_space (trim_prefix line (codes "data:")) ≡ trim_prefix line (codes "data:"))
    × (trim_space (trim_prefix line (codes "retry:")) ≡ trim_prefix line (codes "retry:"))

-- The data of the events among some acts, oldest first
abbrev pub emitted_data : List Act → List (Option Bytes)
emitted_data [] = []
emitted_data (requested r ∷ acts) = emitted_data acts
emitted_data (emitted ev ∷ acts) = emitted_data acts ++ ev.content ∷ []
emitted_data (slept wait ∷ acts) = emitted_data acts

abbrev pub received_data : List (Bytes × Bytes) → List (Option Bytes)
received_data [] = []
received_data ((name, b) ∷ events) = some b ∷ received_data events

-- The two clients have the same last event id and wait, and got the same data, in the same order.
abbrev pub Agree : StreamClient → Client → Type 0
Agree c d =
    (c.last_event_id ≡ d.last_event_id)
    × (c.retry_wait ≡ d.retry_wait)
    × (emitted_data c.acts ≡ received_data d.received)

received_data-append :
    (es : List (Bytes × Bytes)) (name b : Bytes)
    → received_data (es ++ (name, b) ∷ []) ≡ received_data es ++ some b ∷ []
received_data-append [] name b = refl
received_data-append ((n, x) ∷ es) name b = ap (λ r. some x ∷ r) (received_data-append es name b)

-- The event of the client of package sse, with a name
abbrev named : Bytes → Event → Sse.Event
named name ev = record { id = ev.id; name = name; content = ev.content }

append_data-add_data : (o : Option Bytes) (b : Bytes) → append_data o b ≡ add_data o b
append_data-add_data none b = refl
append_data-add_data (some x) b = refl

dispatch_event-Agree :
    (id name : Bytes) (o : Option Bytes) (c : StreamClient) (d : Client)
    → Agree c d
    → Agree
        (end_event o (record { id = id; content = o }) c)
        (dispatch_event o (record { id = id; name = name; content = o }) d)
dispatch_event-Agree id name none c d h = h
dispatch_event-Agree id name (some b) c d (i, w, e) =
    (refl, w, ap (λ r. r ++ some b ∷ []) e ∙ sym (received_data-append d.received name b))

set_retry-Agree :
    (o : Option ℕ) (c : StreamClient) (d : Client)
    → Agree c d
    → Agree (set_retry_wait o c) (set_retry o d)
set_retry-Agree none c d h = h
set_retry-Agree (some w) c d (i, _, e) = (i, refl, e)

module _ (parse_duration : Bytes → Option ℕ) where
  -- The clients after a line, with the same event but for its name
  abbrev AgreeOn : Event × StreamClient → Sse.Event × Client → Type 0
  AgreeOn r s = ((name : Bytes) × (s.0 ≡ named name r.0)) × Agree r.1 s.1

  by_AgreeOn :
      (line : Bytes) (ev : Event) (name : Bytes) (c : StreamClient) (d : Client)
      (r : Event × StreamClient) (s : Sse.Event × Client)
      → take_line parse_duration line ev c ≡ r
      → field parse_duration line (named name ev) d ≡ s
      → AgreeOn r s
      → AgreeOn (take_line parse_duration line ev c) (field parse_duration line (named name ev) d)
  by_AgreeOn line ev name c d r s p q h =
      subst (λ x. AgreeOn x (field parse_duration line (named name ev) d)) (sym p)
        (subst (λ y. AgreeOn r y) (sym q) h)

  field-AgreeOn :
      (b : ℕ) (line : Bytes) (ev : Event) (name : Bytes) (c : StreamClient) (d : Client)
      → IsUnspaced (b ∷ line)
      → Agree c d
      → AgreeOn
          (take_line parse_duration (b ∷ line) ev c)
          (field parse_duration (b ∷ line) (named name ev) d)
  unfolding take_line field
  field-AgreeOn b line ev name c d (i, v, w) h =
      let l : Bytes = b ∷ line in
      elim (Bool-cases (has_prefix l (codes "event:"))) [
        | inl e ↦
            let no_id =
              has_prefix-other l (codes "vent:") (codes "d:") b'e' b'i' (λ x. omega arith) e in
            let no_data =
              has_prefix-other l (codes "vent:") (codes "ata:") b'e' b'd' (λ x. omega arith) e in
            let no_retry =
              has_prefix-other l (codes "vent:") (codes "etry:") b'e' b'r' (λ x. omega arith) e in
            by_AgreeOn l ev name c d (ev, c) (named (value_of l (codes "event:")) ev, d)
              (rw (no_id, no_data, no_retry) refl) (rw e refl) ((_, refl), h)
        | inr e ↦ elim (Bool-cases (has_prefix l (codes "id:"))) [
          | inl x ↦
              let ev' : Event = record ev { id = trim_prefix l (codes "id:") } in
              let other : Bytes → Sse.Event × Client =
                λ id. (record { id = id; name = name; content = ev.content }, d) in
              let f : field parse_duration l (named name ev) d ≡ other (value_of l (codes "id:")) =
                rw (e, x) refl in
              by_AgreeOn l ev name c d (ev', c) (named name ev', d) (rw x refl) (f ∙ ap other i)
                ((name, refl), h)
          | inr x ↦ elim (Bool-cases (has_prefix l (codes "data:"))) [
            | inl y ↦
                let value = trim_prefix l (codes "data:") in
                let ev' : Event = record ev { content = some (add_data ev.content value) } in
                let other : Bytes → Sse.Event × Client =
                  λ b. (record { id = ev.id; name = name; content = some b }, d) in
                let f : field parse_duration l (named name ev) d
                    ≡ other (append_data ev.content (value_of l (codes "data:"))) =
                  rw (e, x, y) refl in
                by_AgreeOn l ev name c d (ev', c) (named name ev', d) (rw (x, y) refl)
                  (f
                    ∙ ap (λ t. other (append_data ev.content t)) v
                    ∙ ap other (append_data-add_data ev.content value))
                  ((name, refl), h)
            | inr y ↦ elim (Bool-cases (has_prefix l (codes "retry:"))) [
              | inl z ↦
                  let wait = parse_duration (trim_prefix l (codes "retry:")) in
                  let f : field parse_duration l (named name ev) d ≡ (
                    named name ev,
                    set_retry (parse_duration (value_of l (codes "retry:"))) d,
                  ) =
                    rw (e, x, y, z) refl in
                  by_AgreeOn l ev name c d (ev, set_retry_wait wait c)
                    (named name ev, set_retry wait d) (rw (x, y, z) refl)
                    (f ∙ ap (λ t. (named name ev, set_retry (parse_duration t) d)) w)
                    ((name, refl), set_retry-Agree wait c d h)
              | inr z ↦
                  by_AgreeOn l ev name c d (ev, c) (named name ev, d) (rw (x, y, z) refl)
                    (rw (e, x, y, z) refl) ((name, refl), h)
            ]
          ]
        ]
      ]

  feed-AgreeOn :
      (line : Bytes) (ev : Event) (name : Bytes) (c : StreamClient) (d : Client)
      → IsUnspaced line
      → Agree c d
      → AgreeOn (take_line parse_duration line ev c) (feed parse_duration line (named name ev) d)
  unfolding feed take_line
  feed-AgreeOn [] ev name c d u h = (([], refl), dispatch_event-Agree ev.id name ev.content c d h)
  feed-AgreeOn (b ∷ line) ev name c d u h = field-AgreeOn b line ev name c d u h

  recv_lines-Agree :
      (lines : List Bytes) (ev : Event) (name : Bytes) (c : StreamClient) (d : Client)
      → All (λ line. IsUnspaced (trim_space line)) lines
      → Agree c d
      → Agree
          (process_looks parse_duration (map read_line lines) ev c).1
          (recv_lines parse_duration lines (named name ev) d).1
  unfolding recv_lines process_looks
  recv_lines-Agree [] ev name c d us h = h
  recv_lines-Agree (line ∷ lines) ev name c d (u, us) h =
      let (ev', c') = take_line parse_duration (trim_space line) ev c in
      let s = feed parse_duration (trim_space line) (named name ev) d in
      let ((name', e), a) = feed-AgreeOn (trim_space line) ev name c d u h in
      subst
        (λ x.
          Agree (process_looks parse_duration (map read_line lines) ev' c').1
            (recv_lines parse_duration lines x s.1).1)
        (sym e) (recv_lines-Agree lines ev' name' c' s.1 us a)

  -- On the same bytes, every line of which has no space behind the colon of `id:`, `data:` or
  -- `retry:` (whatever the line is), processStream of the example and recvVal of sse/client.go do the
  -- same to clients that agree: they get events with the same data, in the same order, and are left
  -- with the same last event id and the same wait between retries.
  pub process_stream-recv_val :
      (body : Bytes) (c : StreamClient) (d : Client)
      → All (λ line. IsUnspaced (trim_space line)) (read_lines body)
      → Agree c d
      → Agree
          (process_stream parse_duration (map read_line (read_lines body)) c).1
          (recv_val parse_duration body d)
  unfolding process_stream recv_val
  process_stream-recv_val body c d us h = recv_lines-Agree (read_lines body) no_event [] c d us h
