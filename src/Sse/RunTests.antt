-- ===== src/Sse/RunTests.antt =====
-- The theorems on the calls of Holder.Run at concrete inputs.
use magic_engine.Common.{
  set_at, ℕ, ◌≡◌, refl, true, false, Option, none, some, [], ◌∷◌, arith, Bytes, codes,
}
use magic_engine.NetHttp.{Error}
use magic_engine.Sse.Text.{trim_space}
use magic_engine.Sse.Client.{recv_val}
use magic_engine.Sse.Run.{
  working, writing, ended, ticking, start, checked, waiting, finished, Shared, end_task, in_task,
  look, mark, stop, join, stopped, set_master, Reach, System, pick, here, next,
}
use magic_engine.Sse.Run.Master.{Quiet, IsMaster, Reach-after_master}
use magic_engine.Sse.Run.Ends.{Moves, Agrees, Moves-finished}
use magic_engine.Sse.Run.Torn.{Moves-torn_frame}
use magic_engine.Sse.Tests.{
  body_writer, body_writer-Healthy, no_duration, holder, client, has_newline, has_newline-OneLine,
}

abbrev idle_holder : Shared Bytes
idle_holder = record { holder = holder; registry = (codes "a1", 4) ∷ [] }

-- No call of Run has begun; then call 0 is a master; then it has finished.
abbrev unbegun : System Bytes
unbegun = record { shared = idle_holder; pc = λ i. start }

abbrev with_master : System Bytes
with_master = record {
  shared = set_master idle_holder;
  pc = set_at (set_at (λ i. start) 0 (checked false)) 0 (waiting working ticking);
}

abbrev after_master : System Bytes
after_master = record {
  shared = set_master idle_holder;
  pc =
      set_at
        (set_at (set_at with_master.pc 0 (waiting (ended none) ticking)) 0
          (waiting (ended none) stopped))
        0 (finished none);
}

mastered : Reach 3 unbegun with_master
unfolding set_at
mastered = next (next here (pick 0 look)) (pick 0 mark)

finished_after : Reach 3 with_master after_master
unfolding set_at
finished_after =
    next (next (next here (pick 0 (in_task (end_task none)))) (pick 0 stop)) (pick 0 join)

IsMaster-first : IsMaster (with_master.pc 0)
unfolding set_at
IsMaster-first = tt

Reach-after_master_example :
    (after_master.shared.holder.master_flag ≡ true)
    × ((j : ℕ) → with_master.pc j ≡ start → Quiet (after_master.pc j))
Reach-after_master_example = Reach-after_master 0 (λ j. refl) mastered IsMaster-first finished_after

-- A task that ends with an error
abbrev ends :
    Moves 3 idle_holder
      (waiting working ticking)
      idle_holder
      (waiting (ended (some (codes "lost"))) ticking)
ends = Moves.move (in_task (end_task (some (codes "lost")))) Moves.rest

Moves-finished_example :
    (u : Shared Bytes) × (e : Option Error) × Moves 3 idle_holder
      (waiting (ended (some (codes "lost"))) ticking)
      u
      (finished e)
    × Agrees (waiting working ticking) e
    × Agrees (waiting (ended (some (codes "lost"))) ticking) e
Moves-finished_example = Moves-finished 3 ends

Moves-torn_frame_example :
    (t : Shared Bytes) × Moves 3 idle_holder start t (waiting (writing []) ticking)
    × (t.holder.writer ≡ codes "event: e\n: ping\n\ndata: d\n\n")
    × (recv_val no_duration t.holder.writer client
        ≡ record client { last_event_id = []; received = ([], codes "d\n") ∷ [] })
unfolding has_newline trim_space
Moves-torn_frame_example =
    Moves-torn_frame (λ w. w) body_writer-Healthy no_duration 3 9 b'e' [] (codes "d") idle_holder
      client (has_newline-OneLine (codes "e") refl) (has_newline-OneLine (codes "d") refl) refl refl
      (omega arith)
