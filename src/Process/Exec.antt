-- ===== src/Process/Exec.antt =====
-- process/exec.go and exec_state.go: an additional process of a container. `parent` is the init
-- process, which these methods read and never write. `mu` and the lock of the pid are held from end
-- to end, so each method is one step on the store.
pub mod Life
use runm.Base.{
  ℕ, String, Bool, true, false, ◌||◌, Option, none, some, is_some, List, [], ◌∷◌, ◌++◌, ℤ, pos,
  is_zero, ◌==◌, if◌then◌else◌,
}
use runm.Base.Errors.{Error, new, wrap, sentinel, err_not_found, err_failed_precondition}
use runm.Base.Go.{
  Go, Outcome, Done, ok, err, panic, pure, fail, skip, ignore, map_err, or_panic, recover, ask,
  call, update, self, ◌>>=◌, ◌>>◌,
}
use runm.Process.Host.{Host, Handle, FilePath, Stdio, Spec, ExecOpts}
use runm.Process.Io.{ProcessIo, create_io, io_copy, io_close}
use runm.Process.Kill.{check_kill_error}
use runm.Process.Init.{Init, close_all}
use runm.Process.Init.Create.{io_handle}
use runm.Process.Init.States.{
  Target, to_running, to_stopped, to_paused, to_deleted, NewExec, get_status,
}

-- deletedState serves both machines.
pub data ExecState : Type 0 where
  exec_created exec_running exec_stopped exec_deleted : ExecState

pub record Exec : Type 0 where
  pub state : ExecState
  pub wait_closed : Bool
  pub id : String
  pub console : Option Handle
  pub io : Option ProcessIo
  pub status : ℤ
  pub exited : Option ℕ
  pub pid : ℤ
  pub closers : List Handle
  pub stdin : Option Handle
  pub stdio : Stdio
  pub path : String
  pub spec : Spec

-- The execProcess that Init.exec returns.
abbrev pub new_exec : NewExec → Exec
new_exec n = record {
  state = exec_created;
  wait_closed = false;
  id = n.id;
  console = none;
  io = none;
  status = pos 0;
  exited = none;
  pid = pos 0;
  closers = [];
  stdin = none;
  stdio = n.stdio;
  path = n.path;
  spec = n.spec;
}

-- The three `transition` methods.
unfoldable pub exec_target : ExecState → Target → Option ExecState
exec_target exec_created to_running = some exec_running
exec_target exec_created to_stopped = some exec_stopped
exec_target exec_created to_deleted = some exec_deleted
exec_target exec_running to_stopped = some exec_stopped
exec_target exec_stopped to_deleted = some exec_deleted
exec_target _ _ = none

-- newExecPidFile, and the file that delete removes; the name is given as the id before ".pid".
abbrev pub exec_pid_file : Exec → FilePath
exec_pid_file e = record { dir = e.path; name = e.id }

-- The interface execState. `kill` drops the flag `all`, which the public Kill sets to false.
pub record ExecMethods (W : Type 0) : Type 0 where
  pub on_resize : ℕ → ℕ → Go (Exec × W) Done
  pub on_start : Go (Exec × W) Done
  pub on_delete : Go (Exec × W) Done
  pub on_kill : ℕ → Go (Exec × W) Done
  pub on_exited : ℤ → Go (Exec × W) Done
  pub status : String

module _ {W : Type 0} where
  unfoldable pub exec_transition : ExecState → Target → Go (Exec × W) Done
  unfolding exec_target
  exec_transition st t = elim (exec_target st t) [
    | none ↦ fail (new "transitioning state")
    | some st' ↦ update (λ e. record e { state = st' })
  ]

  -- `close(e.waitBlock)`
  unfoldable pub close_exec_wait : Go (Exec × W) Done
  close_exec_wait s =
      if s.0.wait_closed then (panic, s) else (ok tt, (record s.0 { wait_closed = true }, s.1))

module _ {W : Type 0} (h : Host W) (parent : Init) where
  -- CloseIO
  unfoldable pub close_exec_io : Go (Exec × W) Done
  close_exec_io = do e ← self; ignore (call (io_close h e.io))

  -- openStdin
  unfoldable pub open_exec_stdin : String → Go (Exec × W) Done
  open_exec_stdin path = if path == "" then skip else (do
    sc ← call (map_err (wrap "failed to open stdin fifo") (h.open_fifo path))
    update (λ e. record e { stdin = some sc; closers = e.closers ++ sc ∷ [] }))

  -- A console socket for a terminal, pipes otherwise.
  unfoldable pub prepare_exec_io : Go (Exec × W) (Option Handle)
  prepare_exec_io = do
    e ← self
    if e.stdio.terminal
        then (do
          socket ←
              call (map_err (wrap "failed to create runc console socket") h.new_temp_console_socket)
          update (λ e'. record e' { closers = e'.closers ++ socket ∷ [] })
          pure (some socket))
        else (do
          pio ← call (
              map_err (wrap "failed to create init process I/O")
                (create_io h e.id parent.io_uid parent.io_gid e.stdio))
          update (λ e'. record e' { io = some pio })
          pure none)

  -- Copy on a nil *processIO would panic; without a socket `io` is set.
  unfoldable pub copy_exec_io : Option Handle → Go (Exec × W) Done
  copy_exec_io (some socket) = do
    e ← self
    master ← call (map_err (wrap "failed to retrieve console master") (h.receive_master socket))
    console ←
        call (map_err (wrap "failed to start console copy") (h.copy_console master e.id e.stdio))
    update (λ e'. record e' { console = some console })
  copy_exec_io none = do
    e ← self
    elim e.io [
      | none ↦ (λ s. (panic, s))
      | some pio ↦ call (map_err (wrap "failed to start io pipe copy") (io_copy h pio))
    ]

  -- The part of start before the call of the runtime: the options of that call.
  unfoldable pub before_exec : Go (Exec × W) ExecOpts
  before_exec = do
    socket ← prepare_exec_io
    e ← self
    open_exec_stdin e.stdio.stdin
    copy_exec_io socket
    pure (record {
      pid_file = exec_pid_file e;
      detach = true;
      io = io_handle (elim socket [ none ↦ e.io | some c ↦ none ]);
      console_socket = socket;
    })

  -- A failed call of the runtime lets the waiters go.
  unfoldable pub runtime_exec : ExecOpts → Go (Exec × W) Done
  unfolding close_exec_wait
  runtime_exec opts s =
      let (r, w) = h.runtime_exec parent.id s.0.spec opts s.1 in
      elim r [
        | ok a ↦ (ok tt, (s.0, w))
        | err x ↦ (close_exec_wait >> fail (wrap "OCI runtime exec failed" x)) (s.0, w)
        | panic ↦ (panic, (s.0, w))
      ]

  -- start
  unfoldable pub start_process : Go (Exec × W) Done
  unfolding runtime_exec
  start_process = do
    opts ← before_exec
    runtime_exec opts
    pid ← call (
        map_err (wrap "failed to retrieve OCI runtime exec pid")
          (h.runtime_read_pid_file opts.pid_file))
    update (λ e. record e { pid = pid })

  -- setExited
  unfoldable pub set_exec_exited : ℤ → Go (Exec × W) Done
  unfolding close_exec_wait
  set_exec_exited status = do
    update (λ e. record e { status = status })
    t ← ask h.now
    update (λ e. record e { exited = some t })
    e ← self
    ignore (call (h.shutdown_console e.console))
    close_exec_wait

  -- delete: it has no error to return.
  unfoldable pub delete_process : Go (Exec × W) Done
  unfolding close_all
  delete_process = do
    ignore (call h.wait_timeout)
    e ← self
    elim e.io [
      | none ↦ skip
      | some io ↦ call (close_all h.close e.closers) >> ignore (call (io_close h e.io))
    ]
    ignore (call (h.remove (exec_pid_file e)))

  -- kill
  unfoldable pub kill_process : ℕ → Go (Exec × W) Done
  kill_process signal = do
    e ← self
    if is_zero e.pid
        then fail (wrap "process not created" (sentinel err_failed_precondition))
        else (if is_some e.exited
            then fail (wrap "process already finished" (sentinel err_not_found))
            else call (
                map_err (λ x. wrap "exec kill error" (check_kill_error h.sentinel_text x))
                  (h.unix_kill e.pid signal)))

  resize_process : ℕ → ℕ → Go (Exec × W) Done
  resize_process width height = do
    e ← self
    elim e.console [ none ↦ skip | some c ↦ call (h.resize_console c width height) ]

  -- execCreatedState. Start recovers from a panic and then returns nil.
  exec_created_state : ExecMethods W
  unfolding exec_transition resize_process
  exec_created_state = record {
    on_resize = resize_process;
    on_start = recover (start_process >> exec_transition exec_created to_running);
    on_delete = delete_process >> exec_transition exec_created to_deleted;
    on_kill = kill_process;
    on_exited =
        λ status. set_exec_exited status >> or_panic (exec_transition exec_created to_stopped);
    status = "created";
  }

  -- execRunningState
  exec_running_state : ExecMethods W
  unfolding exec_transition resize_process
  exec_running_state = record {
    on_resize = resize_process;
    on_start = fail (new "cannot start a running process");
    on_delete = fail (new "cannot delete a running process");
    on_kill = kill_process;
    on_exited =
        λ status. set_exec_exited status >> or_panic (exec_transition exec_running to_stopped);
    status = "running";
  }

  -- execStoppedState
  exec_stopped_state : ExecMethods W
  unfolding exec_transition
  exec_stopped_state = record {
    on_resize = λ width height. fail (new "cannot resize a stopped container");
    on_start = fail (new "cannot start a stopped process");
    on_delete = delete_process >> exec_transition exec_stopped to_deleted;
    on_kill = kill_process;
    on_exited = λ status. skip;
    status = "stopped";
  }

  -- deletedState
  exec_deleted_state : ExecMethods W
  exec_deleted_state = record {
    on_resize = λ width height. fail (new "cannot resize a deleted process");
    on_start = fail (new "cannot start a deleted process");
    on_delete = fail (wrap "deleting already deleted process" (sentinel err_not_found));
    on_kill = λ signal. fail (wrap "killing deleted process" (sentinel err_not_found));
    on_exited = λ status. skip;
    status = "stopped";
  }

  -- The state object behind a tag.
  unfoldable pub exec_methods : ExecState → ExecMethods W
  unfolding exec_created_state exec_running_state exec_stopped_state exec_deleted_state
  exec_methods exec_created = exec_created_state
  exec_methods exec_running = exec_running_state
  exec_methods exec_stopped = exec_stopped_state
  exec_methods exec_deleted = exec_deleted_state

  -- The public methods.
  unfoldable pub start_exec : Go (Exec × W) Done
  unfolding exec_methods
  start_exec = do e ← self; (exec_methods e.state).on_start

  unfoldable pub delete_exec : Go (Exec × W) Done
  unfolding exec_methods
  delete_exec = do e ← self; (exec_methods e.state).on_delete

  unfoldable pub kill_exec : ℕ → Go (Exec × W) Done
  unfolding exec_methods
  kill_exec signal = do e ← self; (exec_methods e.state).on_kill signal

  unfoldable pub exit_exec : ℤ → Go (Exec × W) Done
  unfolding exec_methods
  exit_exec status = do e ← self; (exec_methods e.state).on_exited status

  unfoldable pub resize_exec : ℕ → ℕ → Go (Exec × W) Done
  unfolding exec_methods
  resize_exec width height = do e ← self; (exec_methods e.state).on_resize width height

  -- Status: a container that is pausing or paused speaks for its processes.
  unfoldable pub get_exec_status : Exec → String
  unfolding exec_methods
  get_exec_status e =
      let s = get_status h parent in
      if s == "paused" || s == "pausing" then s else (exec_methods e.state).status
