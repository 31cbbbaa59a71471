-- ===== src/Sse/Run/Master.antt =====
-- The flag of the master.
use magic_engine.Common.{
  subst, sym, arith, set_at, ℕ, ◌≡◌, refl, ◌∙◌, inl, inr, true, Option, none, some, ◌==◌,
  Bool-cases,
}
use magic_engine.NetHttp.{Error, NetWriter}
use magic_engine.Sse.Server.{ping_frame}
use magic_engine.Sse.Run.{
  TaskPc, BeatPc, BeatMove, busy, idle, begin_ping, write, write_ping, RunPc, start, checked,
  direct, waiting, finished, Shared, touch, after_part, write_part, TaskMove, on_recv, part, flush,
  end_task, Move, look, second, mark, in_direct, end_direct, in_task, in_beat, stop, join, System,
  Step, pick, Reach, here, next,
}

-- A call that has no heartbeat and will have none
abbrev pub Quiet : RunPc → Type 0
Quiet start = Unit
Quiet (checked m) = m ≡ true
Quiet (direct t) = Unit
Quiet (waiting t b) = ⊥
Quiet (finished e) = Unit

-- A call that waits for its task, with its heartbeat
abbrev pub IsMaster : RunPc → Type 0
IsMaster start = ⊥
IsMaster (checked m) = ⊥
IsMaster (direct t) = ⊥
IsMaster (waiting t b) = Unit
IsMaster (finished e) = ⊥

module _ {W : Type 0} ⦃net : NetWriter W⦄ where
  after_part-master_flag :
      {P : Type 0} (a b : P) (s : Shared W) (r : W × ℕ × Option Error)
      → (after_part a b s r).0.holder.master_flag ≡ s.holder.master_flag
  after_part-master_flag a b s (w, n, none) = refl
  after_part-master_flag a b s (w, n, some e) = refl

  TaskMove-master_flag :
      {s t : Shared W} {p q : TaskPc}
      → TaskMove s p t q
      → t.holder.master_flag ≡ s.holder.master_flag
  unfolding touch write_part
  TaskMove-master_flag (on_recv now event content) = refl
  TaskMove-master_flag {s} (part p ps) =
      after_part-master_flag (TaskPc.writing ps) TaskPc.working s (net.write s.holder.writer p)
  TaskMove-master_flag flush = refl
  TaskMove-master_flag (end_task e) = refl

  BeatMove-master_flag :
      {timeout : ℕ} {s t : Shared W} {p q : BeatPc}
      → BeatMove timeout s p t q
      → t.holder.master_flag ≡ s.holder.master_flag
  unfolding touch write_ping
  BeatMove-master_flag (busy now l) = refl
  BeatMove-master_flag (idle now l) = refl
  BeatMove-master_flag (begin_ping now) = refl
  BeatMove-master_flag {s} write =
      after_part-master_flag BeatPc.ticking BeatPc.ticking s (net.write s.holder.writer ping_frame)

  -- No step resets the flag.
  Move-marked :
      {timeout : ℕ} {s t : Shared W} {p q : RunPc}
      → Move timeout s p t q
      → s.holder.master_flag ≡ true
      → t.holder.master_flag ≡ true
  Move-marked look f = f
  Move-marked second f = f
  Move-marked mark f = refl
  Move-marked (in_direct m) f = TaskMove-master_flag m ∙ f
  Move-marked end_direct f = f
  Move-marked (in_task m) f = TaskMove-master_flag m ∙ f
  Move-marked (in_beat m) f = BeatMove-master_flag m ∙ f
  Move-marked stop f = f
  Move-marked join f = f

  -- A master has set the flag.
  Move-IsMaster :
      {timeout : ℕ} {s t : Shared W} {p q : RunPc}
      → Move timeout s p t q
      → (IsMaster p → s.holder.master_flag ≡ true)
      → IsMaster q
      → t.holder.master_flag ≡ true
  Move-IsMaster look f h = absurd h
  Move-IsMaster second f h = absurd h
  Move-IsMaster mark f h = refl
  Move-IsMaster (in_direct m) f h = absurd h
  Move-IsMaster end_direct f h = absurd h
  Move-IsMaster (in_task m) f h = TaskMove-master_flag m ∙ f tt
  Move-IsMaster (in_beat m) f h = BeatMove-master_flag m ∙ f tt
  Move-IsMaster stop f h = f tt
  Move-IsMaster join f h = absurd h

  Move-Quiet :
      {timeout : ℕ} {s t : Shared W} {p q : RunPc}
      → Move timeout s p t q
      → s.holder.master_flag ≡ true
      → Quiet p
      → Quiet q
  Move-Quiet look f h = f
  Move-Quiet second f h = tt
  Move-Quiet mark f h = cc
  Move-Quiet (in_direct m) f h = tt
  Move-Quiet end_direct f h = tt
  Move-Quiet (in_task m) f h = absurd h
  Move-Quiet (in_beat m) f h = absurd h
  Move-Quiet stop f h = absurd h
  Move-Quiet join f h = absurd h

  -- The flag is set where a call is a master.
  abbrev Marked : System W → Type 0
  Marked s = (i : ℕ) → IsMaster (s.pc i) → s.shared.holder.master_flag ≡ true

  Step-Marked : {timeout : ℕ} {s t : System W} → Step timeout s t → Marked s → Marked t
  unfolding set_at
  Step-Marked {s} (pick i {t} {p} m) v j = elim (Bool-cases (i == j)) [
    | inl here_ ↦ rw here_ (λ h. Move-IsMaster m (v i) h)
    | inr there ↦ rw there (λ h. Move-marked m (v j h))
  ]

  Reach-Marked : {timeout : ℕ} {s t : System W} → Marked s → Reach timeout s t → Marked t
  Reach-Marked v here = v
  Reach-Marked v (next r st) = Step-Marked st (Reach-Marked v r)

  Step-marked :
      {timeout : ℕ} {s t : System W}
      → Step timeout s t
      → s.shared.holder.master_flag ≡ true
      → t.shared.holder.master_flag ≡ true
  Step-marked (pick i m) f = Move-marked m f

  Reach-marked :
      {timeout : ℕ} {s t : System W}
      → s.shared.holder.master_flag ≡ true
      → Reach timeout s t
      → t.shared.holder.master_flag ≡ true
  Reach-marked f here = f
  Reach-marked f (next r st) = Step-marked st (Reach-marked f r)

  Step-Quiet :
      {timeout : ℕ} {s t : System W} (j : ℕ)
      → Step timeout s t
      → s.shared.holder.master_flag ≡ true
      → Quiet (s.pc j)
      → Quiet (t.pc j)
  unfolding set_at
  Step-Quiet {s} j (pick i m) f q = elim (Bool-cases (i == j)) [
    | inl here_ ↦
        let same : i ≡ j = ground arith in
        rw here_ (Move-Quiet m f (subst (λ k. Quiet (s.pc k)) (sym same) q))
    | inr there ↦ rw there q
  ]

  Reach-Quiet :
      {timeout : ℕ} {s t : System W} (j : ℕ)
      → Reach timeout s t
      → s.shared.holder.master_flag ≡ true
      → Quiet (s.pc j)
      → Quiet (t.pc j)
  Reach-Quiet j here f q = q
  Reach-Quiet j (next r st) f q = Step-Quiet j st (Reach-marked f r) (Reach-Quiet j r f q)

  -- From a holder on which no call of Run has begun, whatever its flag: once some call has been a
  -- master, the flag of the holder is set at every later time, also when that call and all others
  -- have finished; and a call that had not begun when the master was there never gets a heartbeat, nor
  -- is about to get one, whatever the calls do and in whatever order.
  pub Reach-after_master :
      {timeout : ℕ} {s t u : System W} (i : ℕ)
      → ((j : ℕ) → s.pc j ≡ start)
      → Reach timeout s t
      → IsMaster (t.pc i)
      → Reach timeout t u
      → (u.shared.holder.master_flag ≡ true) × ((j : ℕ) → t.pc j ≡ start → Quiet (u.pc j))
  Reach-after_master {s = s} i fresh r h r' =
      let first : Marked s = λ j m. absurd (subst IsMaster (fresh j) m) in
      let f = Reach-Marked first r i h in
      (Reach-marked f r', λ j e. Reach-Quiet j r' f (subst Quiet (sym e) tt))
