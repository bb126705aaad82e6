-- ===== src/Process/Init/States.antt =====
-- process/init_state.go and deleted_state.go: what each state does with each call, and the public
-- methods of init.go, which hold `mu` and ask the state. `wrap` is the method's own prefix.
use runm.Base.{ℕ, String, Bool, true, false, Option, none, some, ℤ, if◌then◌else◌}
use runm.Base.Errors.{new, wrap, sentinel, err_not_found}
use runm.Base.Go.{
  Go, Done, pure, fail, skip, ignore, map_err, or_panic, finally, call, update, self, defer_call,
  ◌>>=◌, ◌>>◌,
}
use runm.Process.Host.{Host, Handle, Stdio, RestoreOpts, Spec}
use runm.Process.Init.{
  InitState, created, created_checkpoint, running, paused, stopped, deleted, Init, CheckpointConfig,
  set_state, start, set_exited, delete, kill, update_resources, checkpoint,
}
use runm.Process.Init.Create.{open_stdin_if, copy_io}

-- The names that `transition` is called with.
pub data Target : Type 0 where
  to_running to_stopped to_paused to_deleted : Target

-- The five `transition` methods, and deletedState, which has none.
unfoldable pub target : InitState → Target → Option InitState
target created to_running = some running
target created to_stopped = some stopped
target created to_deleted = some deleted
target (created_checkpoint o) to_running = some running
target (created_checkpoint o) to_stopped = some stopped
target (created_checkpoint o) to_deleted = some deleted
target running to_stopped = some stopped
target running to_paused = some paused
target paused to_running = some running
target paused to_stopped = some stopped
target stopped to_deleted = some deleted
target _ _ = none

-- core/runc/process/types.go: ExecConfig
pub record ExecConfig : Type 0 where
  pub id : String
  pub stdio : Stdio
  pub spec : Option Spec

-- The exec process that `exec` builds, before it is an execProcess of exec.go.
pub record NewExec : Type 0 where
  pub id : String
  pub path : String
  pub stdio : Stdio
  pub spec : Spec

-- The interface initState. `status` is the text that Status returns.
pub record StateMethods (W : Type 0) : Type 0 where
  pub on_start : Go (Init × W) Done
  pub on_delete : Go (Init × W) Done
  pub on_pause : Go (Init × W) Done
  pub on_resume : Go (Init × W) Done
  pub on_update : String → Go (Init × W) Done
  pub on_checkpoint : CheckpointConfig → Go (Init × W) Done
  pub on_exec : String → ExecConfig → Go (Init × W) NewExec
  pub on_kill : ℕ → Bool → Go (Init × W) Done
  pub on_exited : ℤ → Go (Init × W) Done
  pub status : String

module _ {W : Type 0} where
  -- transition
  unfoldable pub transition : InitState → Target → Go (Init × W) Done
  unfolding target
  transition st t = elim (target st t) [
    | none ↦ fail (new "invalid state transition")
    | some st' ↦ update (set_state st')
  ]

module _ {W : Type 0} (h : Host W) where
  -- createdCheckpointState.Start after runtime.Restore.
  unfoldable pub after_restore : RestoreOpts → Option Handle → Stdio → Go (Init × W) Done
  after_restore opts socket stdio = do
    open_stdin_if h stdio.stdin
    q ← self
    copy_io h socket q.io stdio
    pid ← call (
        map_err (wrap "failed to retrieve OCI runtime container pid")
          (h.gorunc_read_pid_file opts.pid_file))
    update (λ q. record q { pid = pid })

  -- createdCheckpointState.Start after the socket. The source also leaves the socket in the
  -- state's options, where the next Start overwrites it.
  unfoldable pub restore_with : RestoreOpts → Option Handle → Go (Init × W) Done
  restore_with opts socket = do
    p ← self
    _ ← call (
        map_err (wrap "OCI runtime restore failed")
          (h.runtime_restore p.id p.bundle (record opts { console_socket = socket })))
    after_restore opts socket p.stdio

  -- createdCheckpointState.Start: the socket is closed again on every way out.
  unfoldable pub restore : RestoreOpts → Bool → Go (Init × W) Done
  restore opts true = do
    socket ←
        call
          (map_err (wrap "failed to create OCI runtime console socket") h.new_temp_console_socket)
    defer_call (restore_with opts (some socket)) (call (h.close socket))
  restore opts false = restore_with opts none

  -- exec
  unfoldable pub exec : String → ExecConfig → Go (Init × W) NewExec
  exec path r = elim r.spec [
    | none ↦ fail (new "spec is nil")
    | some spec ↦ pure (record {
      id = r.id;
      path = path;
      stdio = r.stdio;
      spec = record spec { terminal = r.stdio.terminal };
    })
  ]

  -- createdState
  created_state : StateMethods W
  unfolding transition exec
  created_state = record {
    on_start = map_err (wrap "start - %T") (start h) >> transition created to_running;
    on_delete = delete h >> transition created to_deleted;
    on_pause = fail (new "cannot pause task in created state");
    on_resume = fail (new "cannot resume task in created state");
    on_update = update_resources h;
    on_checkpoint = λ r. fail (new "cannot checkpoint a task in created state");
    on_exec = exec;
    on_kill = kill h;
    on_exited = λ status. set_exited h status >> or_panic (transition created to_stopped);
    status = "created";
  }

  -- createdCheckpointState
  created_checkpoint_state : RestoreOpts → StateMethods W
  unfolding transition
  created_checkpoint_state o = record {
    on_start = do
      p ← self
      restore o p.stdio.terminal
      transition (created_checkpoint o) to_running;
    on_delete = delete h >> transition (created_checkpoint o) to_deleted;
    on_pause = fail (new "cannot pause task in created state");
    on_resume = fail (new "cannot resume task in created state");
    on_update = update_resources h;
    on_checkpoint = λ r. fail (new "cannot checkpoint a task in created state");
    on_exec = λ path r. fail (new "cannot exec in a created state");
    on_kill = kill h;
    on_exited =
        λ status. set_exited h status >> or_panic (transition (created_checkpoint o) to_stopped);
    status = "created";
  }

  -- runningState.Pause: the flag `pausing` stands while the runtime pauses, and falls on every way
  -- out.
  running_pause : Go (Init × W) Done
  unfolding transition
  running_pause =
      finally
        (do
          update (λ p. record p { pausing = true })
          p ← self
          call (map_err (wrap "OCI runtime pause failed") (h.runtime_pause p.id))
          transition running to_paused)
        (λ s. (record s.0 { pausing = false }, s.1))

  -- runningState
  running_state : StateMethods W
  unfolding transition running_pause exec
  running_state = record {
    on_start = fail (new "cannot start a running process");
    on_delete = fail (new "cannot delete a running process");
    on_pause = running_pause;
    on_resume = fail (new "cannot resume a running process");
    on_update = update_resources h;
    on_checkpoint = checkpoint h;
    on_exec = exec;
    on_kill = kill h;
    on_exited = λ status. set_exited h status >> or_panic (transition running to_stopped);
    status = "running";
  }

  -- pausedState.Resume
  paused_resume : Go (Init × W) Done
  unfolding transition
  paused_resume = do
    p ← self
    call (map_err (wrap "OCI runtime resume failed") (h.runtime_resume p.id))
    transition paused to_running

  -- pausedState.SetExited: the container is resumed, and an error of that is logged.
  paused_exited : ℤ → Go (Init × W) Done
  unfolding transition
  paused_exited status = do
    set_exited h status
    p ← self
    ignore (call (h.runtime_resume p.id))
    or_panic (transition paused to_stopped)

  -- pausedState
  paused_state : StateMethods W
  unfolding paused_resume paused_exited
  paused_state = record {
    on_start = fail (new "cannot start a paused process");
    on_delete = fail (new "cannot delete a paused process");
    on_pause = fail (new "cannot pause a paused container");
    on_resume = paused_resume;
    on_update = update_resources h;
    on_checkpoint = checkpoint h;
    on_exec = λ path r. fail (new "cannot exec in a paused state");
    on_kill = kill h;
    on_exited = paused_exited;
    status = "paused";
  }

  -- stoppedState
  stopped_state : StateMethods W
  unfolding transition
  stopped_state = record {
    on_start = fail (new "cannot start a stopped process");
    on_delete = delete h >> transition stopped to_deleted;
    on_pause = fail (new "cannot pause a stopped container");
    on_resume = fail (new "cannot resume a stopped container");
    on_update = λ r. fail (new "cannot update a stopped container");
    on_checkpoint = λ r. fail (new "cannot checkpoint a stopped container");
    on_exec = λ path r. fail (new "cannot exec in a stopped state");
    on_kill = kill h;
    on_exited = λ status. skip;
    status = "stopped";
  }

  -- deletedState
  deleted_state : StateMethods W
  deleted_state = record {
    on_start = fail (new "cannot start a deleted process");
    on_delete = fail (wrap "deleting already deleted process" (sentinel err_not_found));
    on_pause = fail (new "cannot pause a deleted process");
    on_resume = fail (new "cannot resume a deleted process");
    on_update = λ r. fail (new "cannot update a deleted process");
    on_checkpoint = λ r. fail (new "cannot checkpoint a deleted process");
    on_exec = λ path r. fail (new "cannot exec in a deleted state");
    on_kill = λ signal all. fail (wrap "killing deleted process" (sentinel err_not_found));
    on_exited = λ status. skip;
    status = "stopped";
  }

  -- The state object behind a tag.
  unfoldable pub methods : InitState → StateMethods W
  unfolding created_state created_checkpoint_state running_state paused_state stopped_state
      deleted_state
  methods created = created_state
  methods (created_checkpoint o) = created_checkpoint_state o
  methods running = running_state
  methods paused = paused_state
  methods stopped = stopped_state
  methods deleted = deleted_state

-- The public methods.
pub data Call : Type 0 where
  starts deletes pauses resumes kills_all : Call
  kills : ℕ → Bool → Call
  exits : ℤ → Call
  updates : String → Call
  checkpoints : CheckpointConfig → Call
  execs : String → ExecConfig → Call
  resizes : ℕ → ℕ → Call

module _ {W : Type 0} (h : Host W) where
  unfoldable pub start_init : Go (Init × W) Done
  unfolding methods
  start_init = do p ← self; (methods h p.state).on_start

  unfoldable pub delete_init : Go (Init × W) Done
  unfolding methods
  delete_init = do p ← self; map_err (wrap "deleting init process") (methods h p.state).on_delete

  unfoldable pub pause_init : Go (Init × W) Done
  unfolding methods
  pause_init = do p ← self; map_err (wrap "pausing init process") (methods h p.state).on_pause

  unfoldable pub resume_init : Go (Init × W) Done
  unfolding methods
  resume_init = do p ← self; map_err (wrap "resuming init process") (methods h p.state).on_resume

  unfoldable pub kill_init : ℕ → Bool → Go (Init × W) Done
  unfolding methods
  kill_init signal all = do
    p ← self
    map_err (wrap "killing init process") ((methods h p.state).on_kill signal all)

  -- KillAll asks no state. 9 is SIGKILL.
  unfoldable pub kill_all : Go (Init × W) Done
  kill_all = do p ← self; call (map_err (wrap "killing all processes") (h.runtime_kill p.id 9 true))

  -- SetExited
  unfoldable pub exit_init : ℤ → Go (Init × W) Done
  unfolding methods
  exit_init status = do p ← self; (methods h p.state).on_exited status

  unfoldable pub update_init : String → Go (Init × W) Done
  unfolding methods
  update_init r = do
    p ← self
    map_err (wrap "updating init process") ((methods h p.state).on_update r)

  unfoldable pub checkpoint_init : CheckpointConfig → Go (Init × W) Done
  unfolding methods
  checkpoint_init r = do
    p ← self
    map_err (wrap "checkpointing init process") ((methods h p.state).on_checkpoint r)

  unfoldable pub exec_init : String → ExecConfig → Go (Init × W) NewExec
  unfolding methods
  exec_init path r = do
    p ← self
    map_err (wrap "executing init process") ((methods h p.state).on_exec path r)

  -- Resize asks no state.
  unfoldable pub resize_init : ℕ → ℕ → Go (Init × W) Done
  resize_init width height = do
    p ← self
    elim p.console [ none ↦ skip | some c ↦ call (h.resize_console c width height) ]

  -- Status: the pausing flag is read first, without `mu`.
  unfoldable pub get_status : Init → String
  unfolding methods
  get_status p = if p.pausing then "pausing" else (methods h p.state).status

  -- One call on the process; what Exec builds is dropped.
  unfoldable pub step : Call → Go (Init × W) Done
  step starts = start_init
  step deletes = delete_init
  step pauses = pause_init
  step resumes = resume_init
  step kills_all = kill_all
  step (kills signal all) = kill_init signal all
  step (exits status) = exit_init status
  step (updates r) = update_init r
  step (checkpoints r) = checkpoint_init r
  step (execs path r) = exec_init path r >>= λ _. skip
  step (resizes width height) = resize_init width height
