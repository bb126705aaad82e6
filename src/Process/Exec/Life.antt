-- ===== src/Process/Exec/Life.antt =====
-- The life of an exec process: its diagram, its exit, and a start that fails.
use runm.Base.{
  ℕ, String, ◌≡◌, ◌≢◌, ◌⊎◌, inl, inr, true, false, Option, none, some, is_some, ℤ, pos, arith,
}
use runm.Base.Errors.{Error, wrap}
use runm.Base.Go.{Go, Done, ok, err, panic, is_err}
use runm.Process.Host.{Host, ExecOpts}
use runm.Process.Init.{Init}
use runm.Process.Init.States.{get_status}
use runm.Process.Exec.{
  ExecState, exec_created, exec_running, exec_stopped, exec_deleted, Exec, prepare_exec_io,
  open_exec_stdin, copy_exec_io, before_exec, runtime_exec, start_process, set_exec_exited,
  delete_process, kill_process, start_exec, delete_exec, kill_exec, exit_exec, resize_exec,
  get_exec_status,
}

pub data ExecCall : Type 0 where
  starts deletes : ExecCall
  kills : ℕ → ExecCall
  exits : ℤ → ExecCall
  resizes : ℕ → ℕ → ExecCall

-- An edge of the diagram.
pub data ExecEdge : ExecCall → ExecState → ExecState → Type 0 where
  stay : {c : ExecCall} {s : ExecState} → ExecEdge c s s
  run : ExecEdge starts exec_created exec_running
  drop : ExecEdge deletes exec_created exec_deleted
  bury : ExecEdge deletes exec_stopped exec_deleted
  exit_created : {n : ℤ} → ExecEdge (exits n) exec_created exec_stopped
  exit_running : {n : ℤ} → ExecEdge (exits n) exec_running exec_stopped

ruleset exec_edges = (stay, run, drop, bury, exit_created, exit_running)

-- `q` is in the same stage of its life as `p`.
record SameExec (p q : Exec) : Type 0 where
  state : q.state ≡ p.state
  wait_closed : q.wait_closed ≡ p.wait_closed
  exited : q.exited ≡ p.exited
  status : q.status ≡ p.status

module _ {W : Type 0} (h : Host W) (parent : Init) where
  unfoldable pub exec_step : ExecCall → Go (Exec × W) Done
  exec_step starts = start_exec h parent
  exec_step deletes = delete_exec h parent
  exec_step (kills signal) = kill_exec h parent signal
  exec_step (exits status) = exit_exec h parent status
  exec_step (resizes width height) = resize_exec h parent width height

  prepare_exec_io-Same : (s : Exec × W) → SameExec s.0 (prepare_exec_io h parent s).1.0
  unfolding prepare_exec_io
  prepare_exec_io-Same s = ground arith

  open_exec_stdin-Same :
      (path : String) (s : Exec × W) → SameExec s.0 (open_exec_stdin h parent path s).1.0
  unfolding open_exec_stdin
  open_exec_stdin-Same path s = ground arith

  copy_exec_io-Same : (c : Option ℕ) (s : Exec × W) → SameExec s.0 (copy_exec_io h parent c s).1.0
  unfolding copy_exec_io
  copy_exec_io-Same (some c) s = ground arith
  copy_exec_io-Same none s = ground arith

  before_exec-Same : (s : Exec × W) → SameExec s.0 (before_exec h parent s).1.0
  unfolding before_exec
  before_exec-Same s = grind (arith, prepare_exec_io-Same, open_exec_stdin-Same, copy_exec_io-Same)

  kill_process_self : (signal : ℕ) (s : Exec × W) → (kill_process h parent signal s).1.0 ≡ s.0
  unfolding kill_process
  kill_process_self signal s = ground arith

  delete_process_self : (s : Exec × W) → (delete_process h parent s).1.0 ≡ s.0
  unfolding delete_process
  delete_process_self s = ground arith

  start_process-state : (s : Exec × W) → (start_process h parent s).1.0.state ≡ s.0.state
  unfolding start_process
  start_process-state s = ground (arith, before_exec-Same s)

  set_exec_exited-state :
      (n : ℤ) (s : Exec × W) → (set_exec_exited h parent n s).1.0.state ≡ s.0.state
  unfolding set_exec_exited
  set_exec_exited-state n s = ground arith

  -- Every call, on every way out, leaves the state alone or takes an edge of the diagram.
  pub exec_step-ExecEdge :
      (c : ExecCall) (s : Exec × W) → ExecEdge c s.0.state (exec_step c s).1.0.state
  unfolding exec_step start_exec delete_exec kill_exec exit_exec resize_exec
  exec_step-ExecEdge starts s = grind (arith, exec_edges, start_process-state s)
  exec_step-ExecEdge deletes s = grind (arith, exec_edges, delete_process_self s)
  exec_step-ExecEdge (kills signal) s = grind (arith, exec_edges, kill_process_self signal s)
  exec_step-ExecEdge (exits n) s = grind (arith, exec_edges, set_exec_exited-state n s)
  exec_step-ExecEdge (resizes width height) s = grind (arith, exec_edges)

  pub start_exec_refused :
      (s : Exec × W)
      → s.0.state ≢ exec_created
      → (is_err (start_exec h parent s).0 ≡ true) × ((start_exec h parent s).1 ≡ s)
  unfolding start_exec
  start_exec_refused s g = ground (arith, g)

  -- A start whose pipes open and whose call of the runtime fails returns that error, leaves the
  -- process created and lets its waiters go, although it has not exited.
  start_exec_failed :
      (s t : Exec × W) (opts : ExecOpts) (x : Error) {w : W}
      → s.0.state ≡ exec_created
      → s.0.wait_closed ≡ false
      → before_exec h parent s ≡ (ok opts, t)
      → h.runtime_exec parent.id t.0.spec opts t.1 ≡ (err x, w)
      → let (r, u) = start_exec h parent s in
        (r ≡ err (wrap "OCI runtime exec failed" x))
        × (u.0.state ≡ exec_created)
        × (u.0.wait_closed ≡ true)
        × (u.0.exited ≡ s.0.exited)
  unfolding start_exec start_process runtime_exec
  start_exec_failed s t opts x c o e f = ground (arith, before_exec-Same s)

  -- Where the waiters were let go by a start that failed, a second start that fails in the same
  -- place closes the channel twice, the panic is recovered, and the caller is told that the process
  -- has started: there is no error, and the process is still created.
  pub start_exec_false :
      (s t : Exec × W) (opts : ExecOpts) (x : Error) {w : W}
      → s.0.state ≡ exec_created
      → s.0.wait_closed ≡ true
      → before_exec h parent s ≡ (ok opts, t)
      → h.runtime_exec parent.id t.0.spec opts t.1 ≡ (err x, w)
      → ((start_exec h parent s).0 ≡ ok tt) × ((start_exec h parent s).1.0.state ≡ exec_created)
  unfolding start_exec start_process runtime_exec
  start_exec_false s t opts x c o e f = ground (arith, before_exec-Same s)

  -- Where the waiters were let go while the process is created or running, the exit panics: the
  -- channel would be closed a second time.
  exit_exec_panics :
      (n : ℤ) (s : Exec × W)
      → (s.0.state ≡ exec_created) ⊎ (s.0.state ≡ exec_running)
      → s.0.wait_closed ≡ true
      → (exit_exec h parent n s).0 ≡ panic
  unfolding exit_exec set_exec_exited
  exit_exec_panics n s l o = ground arith

  -- While the waiters are held and the console does not panic, an exit is recorded once: a created
  -- or running process is stopped with the status given, and its waiters are let go.
  exit_exec_lem :
      (n : ℤ) (s : Exec × W)
      → ((c : Option ℕ) (w : W) → (h.shutdown_console c w).0 ≢ panic)
      → (s.0.state ≡ exec_created) ⊎ (s.0.state ≡ exec_running)
      → s.0.wait_closed ≡ false
      → let (r, t) = exit_exec h parent n s in
        (r ≡ ok tt)
        × (t.0.state ≡ exec_stopped)
        × (t.0.status ≡ n)
        × (t.0.wait_closed ≡ true)
        × (t.0.exited ≡ some (h.now s.1).0)
  unfolding exit_exec set_exec_exited
  exit_exec_lem n s quiet l o = ground (arith, quiet s.0.console (h.now s.1).1)

  -- A process that has no pid yet, that has exited or that is deleted is not signalled: the kill is
  -- an error and changes nothing.
  kill_exec_refused :
      (signal : ℕ) (s : Exec × W)
      → (s.0.pid ≡ pos 0) ⊎ ((is_some s.0.exited ≡ true) ⊎ (s.0.state ≡ exec_deleted))
      → (is_err (kill_exec h parent signal s).0 ≡ true) × ((kill_exec h parent signal s).1 ≡ s)
  unfolding kill_exec kill_process
  kill_exec_refused signal s l = ground arith

  -- A process of a container that is pausing or paused is reported so, whatever its own state.
  get_exec_status_paused :
      (e : Exec)
      → (get_status h parent ≡ "paused") ⊎ (get_status h parent ≡ "pausing")
      → get_exec_status h parent e ≡ get_status h parent
  unfolding get_exec_status
  get_exec_status_paused e (inl p) = rw p
  get_exec_status_paused e (inr p) = rw p
