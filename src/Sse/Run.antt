-- ===== src/Sse/Run.antt =====
-- sse/server.go, Holder.Run: any number of calls of Run on one holder, each with its task and, if it
-- became the master, the goroutine of the heartbeat, interleaved in any order. A step is a part of the
-- code that holds the lock of the holder, one write to the response, or local to a call: OnRecv and
-- heartbeat take the lock for `lastActive` only, and write without it.
pub mod Master
pub mod Ends
pub mod Torn
use magic_engine.Common.{
  set_at, ℕ, ◌+◌, ◌-◌, ◌≤◌, ◌<◌, Bool, true, false, Option, none, some, List, [], ◌∷◌, Bytes, codes,
}
use magic_engine.NetHttp.{Error, NetWriter}
use magic_engine.Sse.Server.{
  Holder, HolderRegistry, sse_stream, event_parts, ping_frame, holder_on_close,
}

-- Where the task of a call is: in code of its own, in OnRecv with these writes left, or ended
pub data TaskPc : Type 0 where
  working : TaskPc
  writing : List Bytes → TaskPc
  ended : Option Error → TaskPc

-- Where the goroutine of the heartbeat is: at its select, behind a tick that found the holder idle, in
-- heartbeat before its write, or returned
pub data BeatPc : Type 0 where
  ticking : BeatPc
  due : BeatPc
  pinging : BeatPc
  stopped : BeatPc

-- Where a call of Run is
pub data RunPc : Type 0 where
  -- before the lock is taken for `curMasterFlag = s.masterFlag`
  start : RunPc
  -- with the value of `curMasterFlag`
  checked : Bool → RunPc
  -- in `return taskFunc()`
  direct : TaskPc → RunPc
  -- in `wg.Wait()`; `done` is closed when the task has ended
  waiting : TaskPc → BeatPc → RunPc
  finished : Option Error → RunPc

-- What the calls share
pub record Shared (W : Type 0) : Type 0 where
  pub holder : Holder W
  pub registry : HolderRegistry

abbrev pub set_master : {W : Type 0} → Shared W → Shared W
set_master s = record s { holder = record s.holder { master_flag = true } }

module _ {W : Type 0} ⦃net : NetWriter W⦄ where
  -- The lines of OnRecv and heartbeat before their writes
  unfoldable pub touch : ℕ → Shared W → Shared W
  touch now s = record s {
    holder = record s.holder {
      last_active = now;
      writer = net.set_header s.holder.writer (codes "Content-Type") (some sse_stream);
    };
  }

  -- What follows a write: after an error the deferred function, and nothing more of this call
  abbrev pub after_part : {P : Type 0} → P → P → Shared W → W × ℕ × Option Error → Shared W × P
  after_part go_on give_up s (w, n, none) =
      (record s { holder = record s.holder { writer = w } }, go_on)
  after_part go_on give_up s (w, n, some e) = (
    record {
      holder = record s.holder { writer = w };
      registry = holder_on_close s.holder s.registry;
    },
    give_up,
  )

  -- One write of OnRecv
  unfoldable pub write_part : Bytes → List Bytes → Shared W → Shared W × TaskPc
  unfolding holder_on_close
  write_part part parts s = after_part (writing parts) working s (net.write s.holder.writer part)

  -- The write of heartbeat
  unfoldable pub write_ping : Shared W → Shared W × BeatPc
  unfolding holder_on_close ping_frame
  write_ping s = after_part ticking ticking s (net.write s.holder.writer ping_frame)

  pub data TaskMove (s : Shared W) : TaskPc → Shared W → TaskPc → Type 0 where
    on_recv :
        (now : ℕ) (event content : Bytes)
        → TaskMove s working (touch now s) (writing (event_parts event content))
    part :
        (p : Bytes) (ps : List Bytes)
        → TaskMove s (writing (p ∷ ps)) (write_part p ps s).0 (write_part p ps s).1
    flush : TaskMove s (writing []) s working
    end_task : (e : Option Error) → TaskMove s working s (ended e)

  -- The goroutine of the heartbeat; `timeout` is timerTimeout.
  pub data BeatMove (timeout : ℕ) (s : Shared W) : BeatPc → Shared W → BeatPc → Type 0 where
    busy : (now : ℕ) → now ≤ s.holder.last_active + timeout → BeatMove timeout s ticking s ticking
    idle : (now : ℕ) → s.holder.last_active + timeout < now → BeatMove timeout s ticking s due
    begin_ping : (now : ℕ) → BeatMove timeout s due (touch now s) pinging
    write : BeatMove timeout s pinging (write_ping s).0 (write_ping s).1

  -- A step of a call of Run with a task that is not nil
  pub data Move (timeout : ℕ) (s : Shared W) : RunPc → Shared W → RunPc → Type 0 where
    look : Move timeout s start s (checked s.holder.master_flag)
    second : Move timeout s (checked true) s (direct working)
    mark : Move timeout s (checked false) (set_master s) (waiting working ticking)
    in_direct :
        {t : Shared W} {p q : TaskPc} → TaskMove s p t q → Move timeout s (direct p) t (direct q)
    end_direct : {e : Option Error} → Move timeout s (direct (ended e)) s (finished e)
    in_task :
        {t : Shared W} {p q : TaskPc} {b : BeatPc}
        → TaskMove s p t q
        → Move timeout s (waiting p b) t (waiting q b)
    in_beat :
        {t : Shared W} {p : TaskPc} {b c : BeatPc}
        → BeatMove timeout s b t c
        → Move timeout s (waiting p b) t (waiting p c)
    -- `case <-done`; a tick may also be taken when `done` is closed already
    stop :
        {e : Option Error}
        → Move timeout s (waiting (ended e) ticking) s (waiting (ended e) stopped)
    join : {e : Option Error} → Move timeout s (waiting (ended e) stopped) s (finished e)

-- The calls of Run by their numbers
pub record System (W : Type 0) : Type 0 where
  pub shared : Shared W
  pub pc : ℕ → RunPc

module _ {W : Type 0} ⦃net : NetWriter W⦄ (timeout : ℕ) where
  pub data Step (s : System W) : System W → Type 0 where
    pick :
        (i : ℕ) {t : Shared W} {p : RunPc}
        → Move timeout s.shared (s.pc i) t p
        → Step s (record { shared = t; pc = set_at s.pc i p })

  pub data Reach (s : System W) : System W → Type 0 where
    here : Reach s s
    next : {t u : System W} → Reach s t → Step t u → Reach s u
