-- ===== src/Sse/Server.antt =====
-- sse/server.go: a Holder writes event frames to its response and closes itself in its registry when a
-- write fails. The interface http.ResponseWriter is the parameter NetWriter; the flush changes
-- nothing that is modelled.
pub mod Closing
use magic_engine.Common.{
  ℕ, ◌-◌, Bool, true, false, Option, none, some, List, [], ◌∷◌, ◌++◌, ltb, if◌then◌else◌, Bytes,
  codes, bytes_eq, lookup, assign, delete,
}
use magic_engine.NetHttp.{Error, NetWriter, Request}

-- The Content-Type of a stream
abbrev pub sse_stream : Bytes
sse_stream = codes "text/event-stream"

-- IsSSE
unfoldable pub is_sse : Request → Bool
is_sse req = bytes_eq (req.header (codes "Accept")) sse_stream

-- HolderRegistry: the holders by their ids. A holder is known by a number of its own.
abbrev pub HolderRegistry : Type 0
HolderRegistry = List (Bytes × ℕ)

-- Holder. `registered` is `sinker != nil`; the only sinker is the registry of `NewHolder`.
pub record Holder (W : Type 0) : Type 0 where
  pub writer : W
  pub last_active : ℕ
  pub sse_id : Bytes
  pub registered : Bool
  pub master_flag : Bool

-- HolderRegistry.OnClose
unfoldable pub registry_on_close : Bytes → HolderRegistry → HolderRegistry
registry_on_close id registry = delete id registry

module _ {W : Type 0} where
  -- NewHolder, the function, with the random id
  unfoldable pub new_holder : W → Bytes → Holder W
  new_holder w id = record {
    writer = w;
    last_active = 0;
    sse_id = id;
    registered = false;
    master_flag = false;
  }

  -- HolderRegistry.NewHolder, with the random id
  unfoldable pub registry_new_holder : W → Bytes → ℕ → HolderRegistry → Holder W × HolderRegistry
  registry_new_holder w id pointer registry = (
    record { writer = w; last_active = 0; sse_id = id; registered = true; master_flag = false },
    assign id pointer registry,
  )

  -- Holder.OnClose
  unfoldable pub holder_on_close : Holder W → HolderRegistry → HolderRegistry
  holder_on_close h registry =
      if h.registered then registry_on_close h.sse_id registry else registry

-- HolderRegistry.GetHolder
unfoldable pub get_holder : Request → HolderRegistry → Option ℕ
get_holder req registry =
    let id = req.header (codes "X-SSE-ID") in if bytes_eq id [] then none else lookup id registry

-- The writes of OnRecv, in order
unfoldable pub event_parts : Bytes → Bytes → List Bytes
event_parts [] content = (codes "data: " ++ (content ++ codes "\n\n")) ∷ []
event_parts (c ∷ event) content =
    (codes "event: " ++ ((c ∷ event) ++ codes "\n"))
    ∷ (codes "data: " ++ (content ++ codes "\n\n"))
    ∷ []

-- The write of heartbeat
unfoldable pub ping_frame : Bytes
ping_frame = codes ": ping\n\n"

-- The write of EchoSSEID
unfoldable pub echo_frame : Bytes → Bytes
echo_frame id = codes "event: sseID\ndata: " ++ (id ++ codes "\n\n")

module _ {W : Type 0} ⦃net : NetWriter W⦄ where
  -- What follows a write: nothing more after an error
  abbrev pub after_write : (W → W × Option Error) → W × ℕ × Option Error → W × Option Error
  after_write rest (w, n, none) = rest w
  after_write rest (w, n, some e) = (w, some e)

  -- Writes one part after the other, up to the first error.
  unfoldable pub write_parts : List Bytes → W → W × Option Error
  write_parts [] w = (w, none)
  write_parts (part ∷ parts) w = after_write (write_parts parts) (net.write w part)

  -- The deferred function: `if err != nil && s.sinker != nil { s.sinker.OnClose(s.sseID) }`
  abbrev pub close_on_error :
      Holder W → HolderRegistry → W × Option Error → Option Error × Holder W × HolderRegistry
  close_on_error h registry (w, none) = (none, record h { writer = w }, registry)
  close_on_error h registry (w, some e) =
      (some e, record h { writer = w }, holder_on_close h registry)

  -- What OnRecv, heartbeat and EchoSSEID do with their writes at the time `now`
  unfoldable pub send_parts :
      ℕ → List Bytes → Holder W → HolderRegistry → Option Error × Holder W × HolderRegistry
  unfolding write_parts holder_on_close
  send_parts now parts h registry =
      close_on_error (record h { last_active = now }) registry
        (write_parts parts (net.set_header h.writer (codes "Content-Type") (some sse_stream)))

  -- Holder.OnRecv; it returns nothing, the error is the one that it logs.
  unfoldable pub on_recv :
      ℕ → Bytes → Bytes → Holder W → HolderRegistry → Option Error × Holder W × HolderRegistry
  unfolding send_parts event_parts
  on_recv now event content h registry = send_parts now (event_parts event content) h registry

  -- Holder.heartbeat
  unfoldable pub heartbeat :
      ℕ → Holder W → HolderRegistry → Option Error × Holder W × HolderRegistry
  unfolding send_parts ping_frame
  heartbeat now h registry = send_parts now (ping_frame ∷ []) h registry

  -- Holder.EchoSSEID
  unfoldable pub echo_sse_id :
      ℕ → Holder W → HolderRegistry → Option Error × Holder W × HolderRegistry
  unfolding send_parts echo_frame
  echo_sse_id now h registry = send_parts now (echo_frame h.sse_id ∷ []) h registry

  -- A tick of the heartbeat loop of Run: a ping if the holder was idle for more than timerTimeout.
  unfoldable pub tick : ℕ → ℕ → Holder W → HolderRegistry → Option Error × Holder W × HolderRegistry
  unfolding heartbeat
  tick timeout now h registry =
      if ltb timeout (now - h.last_active) then heartbeat now h registry else (none, h, registry)
