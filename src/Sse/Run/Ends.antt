-- ===== src/Sse/Run/Ends.antt =====
-- How calls of Run end.
use magic_engine.Common.{
  ℕ, ◌≡◌, refl, sym, subst, ◌⊎◌, inl, inr, Bool, true, false, Option, none, some, List, [], ◌∷◌,
  Bytes,
}
use magic_engine.NetHttp.{Error, NetWriter}
use magic_engine.Sse.Server.{ping_frame}
use magic_engine.Sse.Run.{
  TaskPc, working, writing, ended, BeatPc, ticking, due, pinging, stopped, RunPc, start, checked,
  direct, waiting, finished, Shared, set_master, touch, after_part, write_part, write_ping,
  TaskMove, on_recv, part, flush, end_task, begin_ping, write, Move, look, second, mark, in_direct,
  end_direct, in_task, in_beat, stop, join,
}

-- Where the task of the call has ended, it ended with this error.
abbrev pub Agrees : RunPc → Option Error → Type 0
Agrees start e = Unit
Agrees (checked m) e = Unit
Agrees (direct working) e = Unit
Agrees (direct (writing ps)) e = Unit
Agrees (direct (ended x)) e = x ≡ e
Agrees (waiting working b) e = Unit
Agrees (waiting (writing ps) b) e = Unit
Agrees (waiting (ended x) b) e = x ≡ e
Agrees (finished x) e = x ≡ e

module _ {W : Type 0} ⦃net : NetWriter W⦄ where
  -- The steps of one call, with nothing in between
  pub data Moves (timeout : ℕ) : Shared W → RunPc → Shared W → RunPc → Type 0 where
    rest : {s : Shared W} {p : RunPc} → Moves timeout s p s p
    move :
        {s t u : Shared W} {p q r : RunPc}
        → Move timeout s p t q
        → Moves timeout t q u r
        → Moves timeout s p u r

  data TaskMoves : Shared W → TaskPc → Shared W → TaskPc → Type 0 where
    rest : {s : Shared W} {p : TaskPc} → TaskMoves s p s p
    move :
        {s t u : Shared W} {p q r : TaskPc}
        → TaskMove s p t q
        → TaskMoves t q u r
        → TaskMoves s p u r

  abbrev TaskEnds : Shared W → TaskPc → Type 0
  TaskEnds s p = (t : Shared W) × (e : Option Error) × TaskMoves s p t (ended e)

  after_part-cases :
      {P : Type 0} (a b : P) (s : Shared W) (r : W × ℕ × Option Error)
      → ((after_part a b s r).1 ≡ a) ⊎ ((after_part a b s r).1 ≡ b)
  after_part-cases a b s (w, n, none) = inl refl
  after_part-cases a b s (w, n, some e) = inr refl

  working-TaskEnds : (s : Shared W) → TaskEnds s working
  working-TaskEnds s = (s, none, TaskMoves.move (end_task none) TaskMoves.rest)

  writing-TaskEnds : (s : Shared W) (ps : List Bytes) → TaskEnds s (writing ps)
  unfolding write_part
  writing-TaskEnds s [] =
      (s, none, TaskMoves.move flush (TaskMoves.move (end_task none) TaskMoves.rest))
  writing-TaskEnds s (p ∷ ps) =
      let next = write_part p ps s in
      let after : TaskEnds next.0 next.1 =
        elim (after_part-cases (writing ps) working s (net.write s.holder.writer p)) [
          | inl on ↦ subst (TaskEnds next.0) (sym on) (writing-TaskEnds next.0 ps)
          | inr back ↦ subst (TaskEnds next.0) (sym back) (working-TaskEnds next.0)
        ] in
      let (t, e, ms) = after in (t, e, TaskMoves.move (part p ps) ms)

  task_ends : (s : Shared W) (p : TaskPc) → TaskEnds s p
  task_ends s working = working-TaskEnds s
  task_ends s (writing ps) = writing-TaskEnds s ps
  task_ends s (ended e) = (s, e, TaskMoves.rest)

  module _ (timeout : ℕ) where
    direct-TaskMoves :
        {s t u : Shared W} {p q : TaskPc} {r : RunPc}
        → TaskMoves s p t q
        → Moves timeout t (direct q) u r
        → Moves timeout s (direct p) u r
    direct-TaskMoves TaskMoves.rest k = k
    direct-TaskMoves (TaskMoves.move m ms) k = Moves.move (in_direct m) (direct-TaskMoves ms k)

    waiting-TaskMoves :
        {s t u : Shared W} {p q : TaskPc} {b : BeatPc} {r : RunPc}
        → TaskMoves s p t q
        → Moves timeout t (waiting q b) u r
        → Moves timeout s (waiting p b) u r
    waiting-TaskMoves TaskMoves.rest k = k
    waiting-TaskMoves (TaskMoves.move m ms) k = Moves.move (in_task m) (waiting-TaskMoves ms k)

    abbrev Finishes : Shared W → RunPc → Type 0
    Finishes s p = (t : Shared W) × (e : Option Error) × Moves timeout s p t (finished e)

    direct-Finishes : (s : Shared W) (p : TaskPc) → Finishes s (direct p)
    direct-Finishes s p =
        let (t, e, ms) = task_ends s p in
        (t, e, direct-TaskMoves ms (Moves.move end_direct Moves.rest))

    stopped-Finishes : (s : Shared W) (e : Option Error) → Finishes s (waiting (ended e) stopped)
    stopped-Finishes s e = (s, e, Moves.move join Moves.rest)

    ticking-Finishes : (s : Shared W) (e : Option Error) → Finishes s (waiting (ended e) ticking)
    ticking-Finishes s e = (s, e, Moves.move stop (Moves.move join Moves.rest))

    pinging-Finishes : (s : Shared W) (e : Option Error) → Finishes s (waiting (ended e) pinging)
    unfolding write_ping
    pinging-Finishes s e =
        let next = write_ping s in
        let back : next.1 ≡ ticking =
          elim (after_part-cases ticking ticking s (net.write s.holder.writer ping_frame)) [
            | inl e ↦ e
            | inr e ↦ e
          ] in
        let (t, e', ms) =
          subst (λ b. Finishes next.0 (waiting (ended e) b)) (sym back)
            (ticking-Finishes next.0 e) in
        (t, e', Moves.move (in_beat write) ms)

    ended-Finishes :
        (s : Shared W) (e : Option Error) (b : BeatPc) → Finishes s (waiting (ended e) b)
    ended-Finishes s e ticking = ticking-Finishes s e
    ended-Finishes s e stopped = stopped-Finishes s e
    ended-Finishes s e pinging = pinging-Finishes s e
    ended-Finishes s e due =
        let (t, e', ms) = pinging-Finishes (touch 0 s) e in
        (t, e', Moves.move (in_beat (begin_ping 0)) ms)

    waiting-Finishes : (s : Shared W) (p : TaskPc) (b : BeatPc) → Finishes s (waiting p b)
    waiting-Finishes s p b =
        let (t, e, ms) = task_ends s p in
        let (u, e', ns) = ended-Finishes t e b in (u, e', waiting-TaskMoves ms ns)

    checked-Finishes : (s : Shared W) (m : Bool) → Finishes s (checked m)
    checked-Finishes s true =
        let (t, e, ms) = direct-Finishes s working in (t, e, Moves.move second ms)
    checked-Finishes s false =
        let (t, e, ms) = waiting-Finishes (set_master s) working ticking in
        (t, e, Moves.move mark ms)

    finishes : (s : Shared W) (p : RunPc) → Finishes s p
    finishes s start =
        let (t, e, ms) = checked-Finishes s s.holder.master_flag in (t, e, Moves.move look ms)
    finishes s (checked m) = checked-Finishes s m
    finishes s (direct p) = direct-Finishes s p
    finishes s (waiting p b) = waiting-Finishes s p b
    finishes s (finished e) = (s, e, Moves.rest)

    Move-Agrees :
        {s t : Shared W} {p q : RunPc} (e : Option Error)
        → Move timeout s p t q
        → Agrees q e
        → Agrees p e
    Move-Agrees e look h = tt
    Move-Agrees e second h = tt
    Move-Agrees e mark h = tt
    Move-Agrees e (in_direct (on_recv now event content)) h = tt
    Move-Agrees e (in_direct (part p ps)) h = tt
    Move-Agrees e (in_direct flush) h = tt
    Move-Agrees e (in_direct (end_task x)) h = tt
    Move-Agrees e end_direct h = h
    Move-Agrees e (in_task (on_recv now event content)) h = tt
    Move-Agrees e (in_task (part p ps)) h = tt
    Move-Agrees e (in_task flush) h = tt
    Move-Agrees e (in_task (end_task x)) h = tt
    Move-Agrees e (in_beat {p = ended x} m) h = h
    Move-Agrees e (in_beat {p = working} m) h = tt
    Move-Agrees e (in_beat {p = writing ps} m) h = tt
    Move-Agrees e stop h = h
    Move-Agrees e join h = h

    Moves-Agrees :
        {s t : Shared W} {p q : RunPc} (e : Option Error)
        → Moves timeout s p t q
        → Agrees q e
        → Agrees p e
    Moves-Agrees e Moves.rest h = h
    Moves-Agrees e (Moves.move m ms) h = Move-Agrees e m (Moves-Agrees e ms h)

  -- A call of Run is never stuck: after any steps of it, from any place to any other, it has further
  -- steps that end it, whatever the writes give. The error that it then returns is that of its task,
  -- where the task had ended at either place.
  pub Moves-finished :
      (timeout : ℕ) {s t : Shared W} {p q : RunPc}
      → Moves timeout s p t q
      → (u : Shared W) × (e : Option Error) × Moves timeout t q u (finished e)
        × Agrees p e
        × Agrees q e
  Moves-finished timeout {t} {q} ms =
      let (u, e, ns) = finishes timeout t q in
      let now : Agrees q e = Moves-Agrees timeout e ns refl in
      (u, e, ns, Moves-Agrees timeout e ms now, now)
