-- ===== src/Process/Init/Exit.antt =====
-- The end of the init process: SetExited, the channel that waiters block on, and what Wait returns.
use runm.Base.{
  ℕ, ◌≡◌, ◌≢◌, ◌⊎◌, Bool, true, false, Option, some, is_some, List, [], ◌∷◌, String, ℤ, arith,
}
use runm.Base.Go.{Go, Done, ok, panic, skip, ignore, ◌>>◌}
use runm.Process.Host.{Host}
use runm.Process.Init.{InitState, stopped, deleted, Init, set_exited}
use runm.Process.Init.Frame.{
  start_self, delete_self, kill_self, update_self, checkpoint_self, restore-Same, set_exited-state,
}
use runm.Process.Init.States.{
  Call, starts, deletes, pauses, resumes, kills_all, kills, exits, updates, checkpoints, execs,
  resizes, step, start_init, delete_init, pause_init, resume_init, kill_all, kill_init, exit_init,
  update_init, checkpoint_init, exec_init, resize_init,
}

abbrev pub is_live : InitState → Bool
is_live stopped = false
is_live deleted = false
is_live _ = true

-- What holds between two calls: waiters are held until the exit is recorded, and only then let go.
pub record IsConsistent (p : Init) : Type 0 where
  pub waiting : is_live p.state ≡ true → p.wait_closed ≡ false
  pub released : p.state ≡ stopped → p.wait_closed ≡ true
  pub recorded : p.wait_closed ≡ is_some p.exited
  pub settled : p.pausing ≡ false

module _ {W : Type 0} (h : Host W) where
  -- A run of calls. An error does not end it, a panic does.
  unfoldable pub run : List Call → Go (Init × W) Done
  run [] = skip
  run (c ∷ cs) = ignore (step h c) >> run cs

  -- setExited panics, or has recorded the exit and let the waiters go.
  set_exited_cases :
      (n : ℤ) (s : Init × W)
      → ((set_exited h n s).0 ≡ panic)
        ⊎ (((set_exited h n s).0 ≡ ok tt)
            × ((set_exited h n s).1.0.wait_closed ≡ true)
            × ((set_exited h n s).1.0.status ≡ n)
            × (is_some (set_exited h n s).1.0.exited ≡ true)
            × ((set_exited h n s).1.0.pausing ≡ s.0.pausing))
  unfolding set_exited
  set_exited_cases n s = ground arith

  pub step-IsConsistent :
      (c : Call) (s : Init × W)
      → (step h c s).0 ≢ panic
      → IsConsistent s.0
      → IsConsistent (step h c s).1.0
  unfolding step start_init delete_init pause_init resume_init kill_all kill_init exit_init
      update_init checkpoint_init exec_init resize_init
  step-IsConsistent starts s q v = grind (arith, start_self h, restore-Same h)
  step-IsConsistent deletes s q v = grind (arith, delete_self h)
  step-IsConsistent pauses s q v = ground arith
  step-IsConsistent resumes s q v = ground arith
  step-IsConsistent kills_all s q v = ground arith
  step-IsConsistent (kills signal all) s q v = ground (arith, kill_self h signal all s)
  step-IsConsistent (exits n) s q v = ground (arith, set_exited-state h n s, set_exited_cases n s)
  step-IsConsistent (updates r) s q v = ground (arith, update_self h r s)
  step-IsConsistent (checkpoints r) s q v = ground (arith, checkpoint_self h r s)
  step-IsConsistent (execs path r) s q v = ground arith
  step-IsConsistent (resizes width height) s q v = ground arith

  -- After any run of calls on a process that was in order, and that did not panic, waiters are held
  -- while the process lives, are released when it is stopped, exactly when its exit is recorded,
  -- and no pause is in progress.
  pub run-IsConsistent :
      (cs : List Call) (s : Init × W)
      → (run cs s).0 ≢ panic
      → IsConsistent s.0
      → IsConsistent (run cs s).1.0
  unfolding run
  run-IsConsistent [] s q v = v
  run-IsConsistent (c ∷ cs) s q v =
      grind (arith, step-IsConsistent c s, run-IsConsistent cs (step h c s).1)

  -- The host's part in an exit: it does not panic.
  pub record IsQuiet : Type 0 where
    pub shutdown_console : (c : Option ℕ) (w : W) → (h.shutdown_console c w).0 ≢ panic
    pub runtime_resume : (id : String) (w : W) → (h.runtime_resume id w).0 ≢ panic

  -- On a live process in order, with a host that does not panic, SetExited returns and closes no
  -- channel twice: the process is stopped with the status and the time given, and its waiters are
  -- let go.
  pub exit_init_lem :
      (n : ℤ) (s : Init × W)
      → IsQuiet
      → IsConsistent s.0
      → is_live s.0.state ≡ true
      → let (r, t) = exit_init h n s in
        (r ≡ ok tt)
        × (t.0.state ≡ stopped)
        × (t.0.status ≡ n)
        × (t.0.wait_closed ≡ true)
        × (t.0.exited ≡ some (h.now s.1).0)
  unfolding exit_init set_exited
  exit_init_lem n s quiet v l = ground (
    arith,
    quiet.shutdown_console s.0.console (h.now s.1).1,
    quiet.runtime_resume s.0.id (h.shutdown_console s.0.console (h.now s.1).1).1,
  )

  -- Once the exit is recorded, no call changes what waiters read.
  pub step_keeps_exit :
      (c : Call) (s : Init × W)
      → IsConsistent s.0
      → s.0.wait_closed ≡ true
      → let p = (step h c s).1.0 in
        (p.status ≡ s.0.status) × (p.exited ≡ s.0.exited) × (p.wait_closed ≡ true)
  unfolding step start_init delete_init pause_init resume_init kill_all kill_init exit_init
      update_init checkpoint_init exec_init resize_init
  step_keeps_exit starts s v e = grind (arith, start_self h, restore-Same h)
  step_keeps_exit deletes s v e = grind (arith, delete_self h)
  step_keeps_exit pauses s v e = ground arith
  step_keeps_exit resumes s v e = ground arith
  step_keeps_exit kills_all s v e = ground arith
  step_keeps_exit (kills signal all) s v e = ground (arith, kill_self h signal all s)
  step_keeps_exit (exits n) s v e = ground arith
  step_keeps_exit (updates r) s v e = ground (arith, update_self h r s)
  step_keeps_exit (checkpoints r) s v e = ground (arith, checkpoint_self h r s)
  step_keeps_exit (execs path r) s v e = ground arith
  step_keeps_exit (resizes width height) s v e = ground arith
