-- ===== src/Process/Init/Graph.antt =====
-- The state diagram of the init process.
use runm.Base.{ℤ, arith}
use runm.Process.Host.{Host, RestoreOpts}
use runm.Process.Init.{
  InitState, created, created_checkpoint, running, paused, stopped, deleted, Init,
}
use runm.Process.Init.Frame.{
  set_exited-state, start_self, delete_self, kill_self, update_self, checkpoint_self, restore-Same,
}
use runm.Process.Init.States.{
  Call, starts, deletes, pauses, resumes, kills_all, kills, exits, updates, checkpoints, execs,
  resizes, step, start_init, delete_init, pause_init, resume_init, kill_all, kill_init, exit_init,
  update_init, checkpoint_init, exec_init, resize_init,
}

pub data IsCreated : InitState → Type 0 where
  fresh : IsCreated created
  restored : (o : RestoreOpts) → IsCreated (created_checkpoint o)

-- An edge that a call takes; every other call leaves the state alone.
pub data Edge : Call → InitState → InitState → Type 0 where
  stay : {c : Call} {s : InitState} → Edge c s s
  run : {s : InitState} → IsCreated s → Edge starts s running
  pause : Edge pauses running paused
  resume : Edge resumes paused running
  drop : {s : InitState} → IsCreated s → Edge deletes s deleted
  bury : Edge deletes stopped deleted
  exit_created : {s : InitState} {n : ℤ} → IsCreated s → Edge (exits n) s stopped
  exit_running : {n : ℤ} → Edge (exits n) running stopped
  exit_paused : {n : ℤ} → Edge (exits n) paused stopped

ruleset edges =
    (stay, run, pause, resume, drop, bury, exit_created, exit_running, exit_paused, fresh, restored)

module _ {W : Type 0} (h : Host W) where
  -- Every call, on every way out, leaves the state of the init process alone or takes an edge of
  -- the diagram that is this call's.
  pub step-Edge : (c : Call) (s : Init × W) → Edge c s.0.state (step h c s).1.0.state
  unfolding step start_init delete_init pause_init resume_init kill_all kill_init exit_init
      update_init checkpoint_init exec_init resize_init
  step-Edge starts s = grind (arith, edges, restore-Same h, start_self h)
  step-Edge deletes s = grind (arith, edges, delete_self h)
  step-Edge pauses s = grind (arith, edges)
  step-Edge resumes s = grind (arith, edges)
  step-Edge kills_all s = grind (arith, edges)
  step-Edge (kills signal all) s = grind (arith, edges, kill_self h signal all s)
  step-Edge (exits status) s = grind (arith, edges, set_exited-state h status s)
  step-Edge (updates r) s = grind (arith, edges, update_self h r s)
  step-Edge (checkpoints r) s = grind (arith, edges, checkpoint_self h r s)
  step-Edge (execs path r) s = grind (arith, edges)
  step-Edge (resizes width height) s = grind (arith, edges)
