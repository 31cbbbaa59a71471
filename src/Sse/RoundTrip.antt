-- ===== src/Sse/RoundTrip.antt =====
-- What the client makes of the frames that the server side writes.
pub mod Serve
use magic_engine.Common.{
  ℕ, ◌+◌, ◌-◌, ◌≡◌, refl, sym, ap, ◌∙◌, Option, none, List, [], ◌∷◌, ◌++◌, append_assoc, append-nil,
  Bytes, codes, has_prefix,
}
use magic_engine.Sse.Lines.{
  data_line, event_line, data_lines, event_lines, ping_lines, feed-data_line, feed-event_line,
}
use magic_engine.Sse.Text.{
  trim_right, trim_space, read_lines, OneLine, trim_space-trim_right, trim_space-field,
  read_lines-append,
}
use magic_engine.Sse.Server.{event_parts, ping_frame}
use magic_engine.Sse.Client.{Event, no_event, Client, value_of, field, feed, recv_lines, recv_val}

-- What a holder writes: an event of OnRecv, or a ping of the heartbeat.
pub data Item : Type 0 where
  message : Bytes → Bytes → Item
  ping : Item

abbrev joined : List Bytes → Bytes
joined [] = []
joined (b ∷ bs) = b ++ joined bs

-- The bytes of items, in front of what follows them
unfoldable pub frames : List Item → Bytes → Bytes
unfolding event_parts ping_frame
frames [] later = later
frames (message event content ∷ items) later =
    joined (event_parts event content) ++ frames items later
frames (ping ∷ items) later = ping_frame ++ frames items later

-- No event name and no content has a newline.
abbrev pub Plain : List Item → Type 0
Plain [] = Unit
Plain (message event content ∷ items) = (OneLine event × OneLine content) × Plain items
Plain (ping ∷ items) = Plain items

-- The calls of OnRecv that items lead to: the name and the content without the spaces around them,
-- the content with a newline behind it.
abbrev pub deliveries : List Item → List (Bytes × Bytes)
deliveries [] = []
deliveries (message event content ∷ items) =
    (trim_space event, trim_space content ++ 10 ∷ []) ∷ deliveries items
deliveries (ping ∷ items) = deliveries items

-- The client's last event id after items: no frame has an id, so an event clears it.
abbrev pub id_after : List Item → Bytes → Bytes
id_after [] id = id
id_after (message event content ∷ items) id = id_after items []
id_after (ping ∷ items) id = id_after items id

module _ (parse_duration : Bytes → Option ℕ) where
  -- The client after an event
  abbrev received_one : Bytes → Bytes → Client → Client
  received_one event content c = record c {
    last_event_id = [];
    received = c.received ++ (trim_space event, trim_space content ++ 10 ∷ []) ∷ [];
  }

  pub recv_lines-data :
      (content : Bytes) (name : Bytes) (lines : List Bytes) (c : Client)
      → recv_lines parse_duration
          ((data_line content ++ 10 ∷ []) ∷ (10 ∷ []) ∷ lines)
          (record { id = []; name = name; content = none })
          c
        ≡ recv_lines parse_duration lines no_event (record c {
          last_event_id = [];
          received = c.received ++ (name, trim_space content ++ 10 ∷ []) ∷ [];
        })
  unfolding recv_lines
  recv_lines-data content name lines c = rw (feed-data_line parse_duration content name c) refl

  recv_lines-message :
      (event content later : Bytes) (c : Client)
      → OneLine event
      → OneLine content
      → recv_lines parse_duration
          (read_lines (joined (event_parts event content) ++ later))
          no_event
          c
        ≡ recv_lines parse_duration (read_lines later) no_event (received_one event content c)
  unfolding event_parts recv_lines trim_space
  recv_lines-message [] content later c _ h =
      ap (λ b. recv_lines parse_duration (read_lines (b ++ later)) no_event c)
        (append-nil (codes "data: " ++ (content ++ codes "\n\n")))
      ∙ ap (λ ls. recv_lines parse_duration ls no_event c) (data_lines content later h)
      ∙ recv_lines-data content [] (read_lines later) c
  recv_lines-message (b ∷ event) content later c g h =
      let first = codes "event: " ++ ((b ∷ event) ++ codes "\n") in
      let second = codes "data: " ++ (content ++ codes "\n\n") in
      ap (λ r. recv_lines parse_duration (read_lines ((first ++ r) ++ later)) no_event c)
        (append-nil second)
      ∙ ap (λ r. recv_lines parse_duration (read_lines r) no_event c)
          (append_assoc first second later)
      ∙ ap (λ ls. recv_lines parse_duration ls no_event c)
          (event_lines (b ∷ event) (second ++ later) g)
      ∙ ap (λ ls. recv_lines parse_duration ((event_line (b ∷ event) ++ 10 ∷ []) ∷ ls) no_event c)
          (data_lines content later h)
      ∙ ap
          (λ r.
            recv_lines parse_duration
              ((data_line content ++ 10 ∷ []) ∷ (10 ∷ []) ∷ read_lines later) r.0 r.1)
          (feed-event_line parse_duration (b ∷ event) c)
      ∙ recv_lines-data content (trim_space (b ∷ event)) (read_lines later) c

  recv_lines-ping :
      (later : Bytes) (c : Client)
      → recv_lines parse_duration (read_lines (ping_frame ++ later)) no_event c
        ≡ recv_lines parse_duration (read_lines later) no_event c
  unfolding ping_frame recv_lines feed trim_space has_prefix
  recv_lines-ping later c = ap (λ ls. recv_lines parse_duration ls no_event c) (ping_lines later)

  pub recv_lines-frames :
      (items : List Item) (c : Client)
      → Plain items
      → recv_lines parse_duration (read_lines (frames items [])) no_event c ≡ (
        no_event,
        record c {
          last_event_id = id_after items c.last_event_id;
          received = c.received ++ deliveries items;
        },
      )
  unfolding frames recv_lines read_lines
  recv_lines-frames [] c p =
      ap (λ l. (no_event, record c { received = l })) (sym (append-nil c.received))
  recv_lines-frames (message event content ∷ items) c ((g, h), p) =
      recv_lines-message event content (frames items []) c g h
      ∙ recv_lines-frames items (received_one event content c) p
      ∙ ap (λ l. (no_event, record c { last_event_id = id_after items []; received = l }))
          (append_assoc c.received ((trim_space event, trim_space content ++ 10 ∷ []) ∷ [])
            (deliveries items))
  recv_lines-frames (ping ∷ items) c p =
      recv_lines-ping (frames items []) c ∙ recv_lines-frames items c p
