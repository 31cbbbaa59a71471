-- ===== src/Sse/Run/Torn.antt =====
-- A ping between the two writes of an event.
use magic_engine.Common.{
  ℕ, ◌+◌, ◌<◌, ◌≡◌, refl, sym, ap, ◌∙◌, subst, false, Option, none, some, List, [], ◌∷◌, ◌++◌,
  append_assoc, append-nil, Bytes, codes, has_prefix,
}
use magic_engine.NetHttp.{Error, NetWriter}
use magic_engine.Sse.Text.{trim_space, read_lines, OneLine}
use magic_engine.Sse.Server.{event_parts, ping_frame, sse_stream}
use magic_engine.Sse.Client.{Event, no_event, Client, feed, recv_lines, recv_val}
use magic_engine.Sse.Lines.{
  data_line, event_line, data_lines, event_lines, ping_lines, feed-event_line,
}
use magic_engine.Sse.RoundTrip.{recv_lines-data}
use magic_engine.Sse.RoundTrip.Serve.{Healthy}
use magic_engine.Sse.Run.{
  TaskPc, working, writing, BeatPc, ticking, pinging, start, checked, waiting, Shared, set_master,
  touch, after_part, write_part, write_ping, TaskMove, on_recv, BeatMove, idle, begin_ping, Move,
  look, mark, in_task, in_beat,
}
use magic_engine.Sse.Run.Ends.{Moves}

-- The two writes of OnRecv for an event with a name
abbrev first_part : Bytes → Bytes
first_part event = codes "event: " ++ (event ++ codes "\n")

abbrev second_part : Bytes → Bytes
second_part content = codes "data: " ++ (content ++ codes "\n\n")

abbrev pub torn_frame : Bytes → Bytes → Bytes
torn_frame event content = first_part event ++ (codes ": ping\n\n" ++ second_part content)

-- The lines of a torn frame: before its data, and after its event
abbrev before_data : Bytes → List Bytes
before_data event = (event_line event ++ 10 ∷ []) ∷ (codes ": ping" ++ 10 ∷ []) ∷ (10 ∷ []) ∷ []

abbrev after_event : Bytes → List Bytes
after_event content =
    (codes ": ping" ++ 10 ∷ []) ∷ (10 ∷ []) ∷ (data_line content ++ 10 ∷ []) ∷ (10 ∷ []) ∷ []

module _ (parse_duration : Bytes → Option ℕ) where
  recv_val-torn_frame :
      (event content : Bytes) (c : Client)
      → OneLine event
      → OneLine content
      → recv_val parse_duration (torn_frame event content) c ≡ record c {
        last_event_id = [];
        received = c.received ++ ([], trim_space content ++ 10 ∷ []) ∷ [];
      }
  unfolding recv_val recv_lines feed trim_space has_prefix read_lines
  recv_val-torn_frame event content c g h =
      ap (λ ls. (recv_lines parse_duration ls no_event c).1)
        (event_lines event (codes ": ping\n\n" ++ second_part content) g)
      ∙ ap (λ ls. (recv_lines parse_duration ((event_line event ++ 10 ∷ []) ∷ ls) no_event c).1)
          (ping_lines (second_part content))
      ∙ ap (λ b. (recv_lines parse_duration (before_data event ++ read_lines b) no_event c).1)
          (sym (append-nil (second_part content)))
      ∙ ap (λ ls. (recv_lines parse_duration (before_data event ++ ls) no_event c).1)
          (data_lines content [] h)
      ∙ ap (λ (r : Event × Client). (recv_lines parse_duration (after_event content) r.0 r.1).1)
          (feed-event_line parse_duration event c)
      ∙ ap (λ (r : Event × Client). r.1) (recv_lines-data parse_duration content [] [] c)

module _ {W : Type 0} ⦃net : NetWriter W⦄ where
  abbrev put : Shared W → W → Shared W
  put s w = record s { holder = record s.holder { writer = w } }

  after_part-none :
      {P : Type 0} (a b : P) (s : Shared W) (r : W × ℕ × Option Error)
      → r.2 ≡ none
      → after_part a b s r ≡ (put s r.0, a)
  after_part-none a b s (w, n, none) e = refl
  after_part-none a b s (w, n, some x) e = absurd cc

  module _ (output : W → Bytes) (healthy : Healthy net output) where
    part-TaskMove :
        (s : Shared W) (p : Bytes) (ps : List Bytes)
        → TaskMove s (writing (p ∷ ps)) (put s (net.write s.holder.writer p).0) (writing ps)
    unfolding write_part
    part-TaskMove s p ps =
        subst (λ (r : Shared W × TaskPc). TaskMove s (writing (p ∷ ps)) r.0 r.1)
          (after_part-none (writing ps) working s (net.write s.holder.writer p)
            (healthy.succeeds s.holder.writer p))
          (TaskMove.part p ps)

    write-BeatMove :
        (timeout : ℕ) (s : Shared W)
        → BeatMove timeout s pinging (put s (net.write s.holder.writer ping_frame).0) ticking
    unfolding write_ping
    write-BeatMove timeout s =
        subst (λ (r : Shared W × BeatPc). BeatMove timeout s pinging r.0 r.1)
          (after_part-none ticking ticking s (net.write s.holder.writer ping_frame)
            (healthy.succeeds s.holder.writer ping_frame))
          BeatMove.write

    -- The response after the two writes of an event with a ping between them
    abbrev torn_writes : ℕ → Bytes → Bytes → Shared W → Shared W
    torn_writes now event content s =
        let a = touch now (touch now (set_master s)) in
        let b = put a (net.write a.holder.writer (first_part event)).0 in
        let c = put b (net.write b.holder.writer ping_frame).0 in
        put c (net.write c.holder.writer (second_part content)).0

    torn_writes-Moves :
        (timeout now : ℕ) (x : ℕ) (event content : Bytes) (s : Shared W)
        → s.holder.master_flag ≡ false
        → s.holder.last_active + timeout < now
        → Moves timeout s start
            (torn_writes now (x ∷ event) content s)
            (waiting (writing []) ticking)
    unfolding event_parts
    torn_writes-Moves timeout now x event content s f h =
        let run = set_master s in
        let a = touch now (touch now run) in
        let first = first_part (x ∷ event) in
        let b = put a (net.write a.holder.writer first).0 in
        let c = put b (net.write b.holder.writer ping_frame).0 in
        let looked = subst (λ m. Move timeout s start s (checked m)) f look in
        Moves.move looked (
          Moves.move mark (
            Moves.move (in_beat (idle now h)) (
              Moves.move (in_task (on_recv now (x ∷ event) content)) (
                Moves.move (in_beat (begin_ping now)) (
                  Moves.move (in_task (part-TaskMove a first (second_part content ∷ []))) (
                    Moves.move (in_beat (write-BeatMove timeout b)) (
                      Moves.move (in_task (part-TaskMove c (second_part content) []))
                        Moves.rest)))))))

    torn_writes-output :
        (now : ℕ) (event content : Bytes) (s : Shared W)
        → output (torn_writes now event content s).holder.writer
          ≡ output s.holder.writer ++ torn_frame event content
    unfolding touch ping_frame
    torn_writes-output now event content s =
        let t = net.set_header s.holder.writer (codes "Content-Type") (some sse_stream) in
        let u = net.set_header t (codes "Content-Type") (some sse_stream) in
        let first = (net.write u (first_part event)).0 in
        let second = (net.write first ping_frame).0 in
        healthy.appends second (second_part content)
        ∙ ap (λ b. b ++ second_part content) (healthy.appends first ping_frame)
        ∙ ap (λ b. (b ++ ping_frame) ++ second_part content) (healthy.appends u (first_part event))
        ∙ ap (λ b. ((b ++ first_part event) ++ ping_frame) ++ second_part content)
            (healthy.header_only t _ _ ∙ healthy.header_only s.holder.writer _ _)
        ∙ append_assoc (output s.holder.writer ++ first_part event) ping_frame (second_part content)
        ∙ append_assoc (output s.holder.writer) (first_part event)
            (ping_frame ++ second_part content)

    -- A ping can come between the two writes of OnRecv, which no lock is held for. Over a response
    -- that takes all writes and was empty, where the flag of a holder is not set and it was idle for
    -- more than the timeout, a call of Run has steps that end with a named event written whole and a
    -- ping in the middle of it; a client that reads these bytes delivers the content of the event
    -- under the empty name. The name and the content are without newlines.
    pub Moves-torn_frame :
        (parse_duration : Bytes → Option ℕ) (timeout now : ℕ) (x : ℕ) (event content : Bytes)
        (s : Shared W) (c : Client)
        → OneLine (x ∷ event)
        → OneLine content
        → output s.holder.writer ≡ []
        → s.holder.master_flag ≡ false
        → s.holder.last_active + timeout < now
        → (t : Shared W) × Moves timeout s start t (waiting (writing []) ticking)
          × (output t.holder.writer ≡ torn_frame (x ∷ event) content)
          × (recv_val parse_duration (output t.holder.writer) c ≡ record c {
            last_event_id = [];
            received = c.received ++ ([], trim_space content ++ 10 ∷ []) ∷ [];
          })
    Moves-torn_frame parse_duration timeout now x event content s c g k empty f h =
        let out =
          torn_writes-output now (x ∷ event) content s
          ∙ ap (λ b. b ++ torn_frame (x ∷ event) content) empty in
        (
          torn_writes now (x ∷ event) content s,
          torn_writes-Moves timeout now x event content s f h,
          out,
          ap (λ b. recv_val parse_duration b c) out
              ∙ recv_val-torn_frame parse_duration (x ∷ event) content c g k,
        )
