-- ===== src/Sse/Client/Cancel.antt =====
-- sse/client.go: Client.Close beside a call of Get or Post, interleaved in any order. The field
-- cancelFunc cancels the context of the attempt that set it; what the network and the body give to an
-- attempt, cancelled or not, is a choice of the step.
use magic_engine.Common.{ℕ, ◌+◌, Bool, true, false, Option, none, some, leb, if◌then◌else◌}
use magic_engine.NetHttp.{Error}

-- Where the call is; an attempt has the flag of its context, and the retry count
pub data GetPc : Type 0 where
  -- at the select of the loop
  selecting : ℕ → GetPc
  -- in actionFunc, with cancelFunc set, before the response
  attempting : Bool → ℕ → GetPc
  -- at the select of recvVal
  reading : Bool → ℕ → GetPc
  -- in ReadBytes
  blocked : Bool → ℕ → GetPc
  -- in the sleep of handleRetry
  retrying : ℕ → GetPc
  returned : Option Error → GetPc

-- `set` is `cancelFunc != nil`.
pub record GetState : Type 0 where
  pub set : Bool
  pub pc : GetPc

abbrev pub at : GetPc → Bool → GetState
at pc set = record { set = set; pc = pc }

-- The context of the attempt is cancelled.
abbrev pub cancelled_at : GetPc → GetPc
cancelled_at (attempting c n) = attempting true n
cancelled_at (reading c n) = reading true n
cancelled_at (blocked c n) = blocked true n
cancelled_at (selecting n) = selecting n
cancelled_at (retrying n) = retrying n
cancelled_at (returned e) = returned e

-- Client.Close
unfoldable pub close_client : GetState → GetState
close_client s = if s.set then record s { pc = cancelled_at s.pc } else s

-- The loop after an attempt with an error, and the decision of handleRetry
abbrev pub after_error : ℕ → ℕ → Error → GetPc
after_error max_retries n e = if leb max_retries n then returned (some e) else retrying n

module _ (max_retries : ℕ) where
  -- A step of Get or Post
  pub data GetStep : GetState → GetState → Type 0 where
    context_done :
        {b : Bool} {n : ℕ} (e : Error) → GetStep (at (selecting n) b) (at (returned (some e)) b)
    begin : {b : Bool} {n : ℕ} → GetStep (at (selecting n) b) (at (attempting false n) true)
    -- no request, no response, or another status than 200
    refused :
        {b c : Bool} {n : ℕ} (e : Error)
        → GetStep (at (attempting c n) b) (at (after_error max_retries n e) false)
    opened : {b c : Bool} {n : ℕ} → GetStep (at (attempting c n) b) (at (reading c n) b)
    -- `case <-ctx.Done()` of recvVal
    stop : {b : Bool} {n : ℕ} → GetStep (at (reading true n) b) (at (returned none) b)
    await : {b : Bool} {n : ℕ} → GetStep (at (reading false n) b) (at (blocked false n) b)
    line : {b c : Bool} {n : ℕ} → GetStep (at (blocked c n) b) (at (reading c n) b)
    body_end : {b c : Bool} {n : ℕ} → GetStep (at (blocked c n) b) (at (returned none) b)
    read_failed :
        {b c : Bool} {n : ℕ} (e : Error)
        → GetStep (at (blocked c n) b) (at (after_error max_retries n e) false)
    slept : {b : Bool} {n : ℕ} → GetStep (at (retrying n) b) (at (selecting (n + 2)) b)

  pub data GetSteps : GetState → GetState → Type 0 where
    here : {s : GetState} → GetSteps s s
    then : {s t u : GetState} → GetStep s t → GetSteps t u → GetSteps s u
