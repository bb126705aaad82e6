-- ===== src/Process/Init/Refusal.antt =====
-- Which calls a state refuses, stated apart from the code of the states.
use runm.Base.{◌≡◌, true, arith}
use runm.Base.Errors.{Error}
use runm.Base.Go.{Outcome, Done, ok, err, is_err}
use runm.Process.Host.{Host}
use runm.Process.Init.{
  InitState, created, created_checkpoint, running, paused, stopped, deleted, Init,
}
use runm.Process.Init.Frame.{
  start_self, delete_self, kill_self, update_self, checkpoint_self, restore-Same, set_exited-state,
}
use runm.Process.Init.States.{
  Call, starts, deletes, pauses, resumes, kills_all, kills, exits, updates, checkpoints, execs,
  resizes, step, start_init, delete_init, pause_init, resume_init, kill_all, kill_init, exit_init,
  update_init, checkpoint_init, exec_init, resize_init,
}

pub data Verdict : Type 0 where
  acts refuses ignores : Verdict

-- The table of the calls: a column of it for each call.
abbrev pub verdict : Call → InitState → Verdict
verdict starts created = acts
verdict starts (created_checkpoint o) = acts
verdict starts _ = refuses
verdict deletes running = refuses
verdict deletes paused = refuses
verdict deletes deleted = refuses
verdict deletes _ = acts
verdict pauses running = acts
verdict pauses _ = refuses
verdict resumes paused = acts
verdict resumes _ = refuses
verdict kills_all _ = acts
verdict (kills signal all) deleted = refuses
verdict (kills signal all) _ = acts
verdict (exits n) stopped = ignores
verdict (exits n) deleted = ignores
verdict (exits n) _ = acts
verdict (updates r) stopped = refuses
verdict (updates r) deleted = refuses
verdict (updates r) _ = acts
verdict (checkpoints r) running = acts
verdict (checkpoints r) paused = acts
verdict (checkpoints r) _ = refuses
verdict (execs path r) created = acts
verdict (execs path r) running = acts
verdict (execs path r) _ = refuses
verdict (resizes width height) _ = acts

-- What a verdict says of a call from `s` that came to `r` and `t`.
abbrev pub Follows : {S : Type 0} → Verdict → S → Outcome Done → S → Type 0
Follows acts s r t = Unit
Follows refuses s r t = (is_err r ≡ true) × (t ≡ s)
Follows ignores s r t = (r ≡ ok tt) × (t ≡ s)

module _ {W : Type 0} (h : Host W) where
  -- A call that the state refuses returns an error, asks nothing of the host and changes nothing;
  -- an exit that comes to a stopped or deleted process changes nothing either.
  pub step_refused :
      (c : Call) (s : Init × W) → Follows (verdict c s.0.state) s (step h c s).0 (step h c s).1
  unfolding step start_init delete_init pause_init resume_init kill_all kill_init exit_init
      update_init checkpoint_init exec_init resize_init
  step_refused starts s = ground arith
  step_refused deletes s = ground arith
  step_refused pauses s = ground arith
  step_refused resumes s = ground arith
  step_refused kills_all s = ground arith
  step_refused (kills signal all) s = ground arith
  step_refused (exits n) s = ground arith
  step_refused (updates r) s = ground arith
  step_refused (checkpoints r) s = ground arith
  step_refused (execs path r) s = ground arith
  step_refused (resizes width height) s = ground arith

  -- A call that returns an error leaves the state as it was.
  pub step_error_state :
      (c : Call) (s : Init × W) {e : Error}
      → (step h c s).0 ≡ err e
      → (step h c s).1.0.state ≡ s.0.state
  unfolding step start_init delete_init pause_init resume_init kill_all kill_init exit_init
      update_init checkpoint_init exec_init resize_init
  step_error_state starts s f = grind (arith, start_self h, restore-Same h)
  step_error_state deletes s f = grind (arith, delete_self h)
  step_error_state pauses s f = ground arith
  step_error_state resumes s f = ground arith
  step_error_state kills_all s f = ground arith
  step_error_state (kills signal all) s f = ground (arith, kill_self h signal all s)
  step_error_state (exits n) s f = ground (arith, set_exited-state h n s)
  step_error_state (updates r) s f = ground (arith, update_self h r s)
  step_error_state (checkpoints r) s f = ground (arith, checkpoint_self h r s)
  step_error_state (execs path r) s f = ground arith
  step_error_state (resizes width height) s f = ground arith
