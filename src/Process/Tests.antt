-- ===== src/Process/Tests.antt =====
-- A host that answers everything with success, runs on it, and the theorems at such inputs.
use runm.Base.{ℕ, suc, ◌≡◌, refl, true, false, none, some, [], ◌∷◌, pos}
use runm.Base.Text.{codes}
use runm.Base.Errors.{new, wrap}
use runm.Base.Go.{Go, ok, err}
use runm.Process.Host.{Host, Handle, Stdio, ExecOpts}
use runm.Process.Init.{created, stopped, Init, new_init, start, set_exited}
use runm.Process.Init.States.{
  pause_init, starts, pauses, exits, step, start_init, delete_init, exit_init,
}
use runm.Process.Init.Exit.{IsConsistent, run, run-IsConsistent, exit_init_lem, step_keeps_exit}
use runm.Process.Init.Graph.{Edge, step-Edge}
use runm.Process.Init.Refusal.{Follows, refuses, step_refused, step_error_state}
use runm.Process.Init.Cleanup.{answering, delete_error_lost}
use runm.Process.Io.{create_io, io_copy}
use runm.Process.Exec.{
  exec_pid_file, prepare_exec_io, open_exec_stdin, copy_exec_io, Exec, exec_created, new_exec,
  start_exec, before_exec,
}
use runm.Process.Exec.Life.{ExecCall, ExecEdge, exec_step, exec_step-ExecEdge, start_exec_false}

-- The world counts the calls, and its count is the clock and the next handle.
abbrev tick : {A : Type 0} → A → Go ℕ A
tick a w = (ok a, suc w)

abbrev fresh : Go ℕ Handle
fresh w = (ok w, suc w)

abbrev pub host : Host ℕ
host = record {
  sentinel_text = λ s. codes "not found";
  runtime_create = λ id b o. tick tt;
  runtime_start = λ id. tick tt;
  runtime_restore = λ id b o. tick (pos 7);
  runtime_exec = λ id s o. tick tt;
  runtime_delete = λ id. tick tt;
  runtime_close = tick tt;
  runtime_pause = λ id. tick tt;
  runtime_resume = λ id. tick tt;
  runtime_kill = λ id s a. tick tt;
  runtime_update = λ id r. tick tt;
  runtime_checkpoint = λ id o. tick tt;
  runtime_read_pid_file = λ f. tick (pos 42);
  new_null_io = fresh;
  new_pipe_io = λ u g s. fresh;
  new_binary_io = λ id u. fresh;
  wrap_binary_io = λ l u g. fresh;
  new_temp_console_socket = fresh;
  receive_master = λ c. fresh;
  close = λ c. tick tt;
  copy_pipes = λ c s. tick tt;
  stdio_is_null = λ s. true;
  copy_console = λ c id s. fresh;
  shutdown_console = λ c. tick tt;
  resize_console = λ c x y. tick tt;
  gorunc_read_pid_file = λ f. tick (pos 7);
  open_fifo = λ p. fresh;
  make_parent_dir = λ p. tick tt;
  touch_file = λ p. tick tt;
  remove = λ f. tick tt;
  remove_all = λ f. tick tt;
  copy_dump_log = λ f d. tick tt;
  unix_kill = λ p s. tick tt;
  wait_timeout = tick tt;
  now = λ w. (w, suc w);
  unmarshal_resources = λ r. tick r;
  parse_url = λ u. tick (record { scheme = ""; path = u });
}

-- The same host with a runtime that cannot exec.
abbrev broken : Host ℕ
broken = record host { runtime_exec = λ id s o w. (err (new "no exec"), suc w) }

abbrev no_stdio : Stdio
no_stdio = record { stdin = ""; stdout = ""; stderr = ""; terminal = false }

abbrev pub fresh_init : Init
fresh_init = new_init "c1" no_stdio "/b" "/w" (pos 0) (pos 0) false false ""

fresh_init-IsConsistent : IsConsistent fresh_init
fresh_init-IsConsistent = record {
  waiting = λ l. refl;
  released = λ e. cc;
  recorded = refl;
  settled = refl;
}

-- Started, paused and killed by a signal: the process is stopped.
life : (run host (starts ∷ pauses ∷ exits (pos 137) ∷ []) (fresh_init, 0)).1.0.state ≡ stopped
unfolding run step start_init pause_init exit_init start set_exited
life = refl

-- An exec process of that container.
abbrev pub fresh_exec : Exec
fresh_exec = new_exec (record {
  id = "e1";
  path = "/b";
  stdio = no_stdio;
  spec = record { terminal = false; body = "sh" };
})

-- The same after a start that the runtime refused.
abbrev let_go : Exec
let_go = record fresh_exec { wait_closed = true }

abbrev fresh_opts : ExecOpts
fresh_opts = record {
  pid_file = exec_pid_file fresh_exec;
  detach = true;
  io = some 0;
  console_socket = none;
}

abbrev with_io : Exec → Exec
with_io e = record e { io = some (record { io = 0; uri = none; copy = false; stdio = no_stdio }) }

before_fresh :
    before_exec broken fresh_init (fresh_exec, 0) ≡ (ok fresh_opts, (with_io fresh_exec, 1))
unfolding before_exec prepare_exec_io open_exec_stdin copy_exec_io create_io io_copy
before_fresh = refl

before_let_go : before_exec broken fresh_init (let_go, 0) ≡ (ok fresh_opts, (with_io let_go, 1))
unfolding before_exec prepare_exec_io open_exec_stdin copy_exec_io create_io io_copy
before_let_go = refl

run-IsConsistent_example :
    IsConsistent (run host (starts ∷ pauses ∷ exits (pos 137) ∷ []) (fresh_init, 0)).1.0
unfolding run step start_init pause_init exit_init start set_exited
run-IsConsistent_example =
    run-IsConsistent host (starts ∷ pauses ∷ exits (pos 137) ∷ []) (fresh_init, 0) (λ e. cc)
      fresh_init-IsConsistent

exit_init_lem_example : (exit_init host (pos 3) (fresh_init, 0)).1.0.exited ≡ some 0
exit_init_lem_example =
    (exit_init_lem host (pos 3) (fresh_init, 0)
      (record { shutdown_console = λ c w e. cc; runtime_resume = λ id w e. cc })
      fresh_init-IsConsistent refl).4

abbrev gone_init : Init
gone_init = record fresh_init {
  state = stopped;
  wait_closed = true;
  exited = some 9;
  status = pos 3;
}

step_keeps_exit_example : (step host (exits (pos 5)) (gone_init, 10)).1.0.status ≡ pos 3
step_keeps_exit_example =
    (step_keeps_exit host (exits (pos 5)) (gone_init, 10)
      (record { waiting = λ l. cc; released = λ e. refl; recorded = refl; settled = refl }) refl).0

step-Edge_example : Edge starts created (step host starts (fresh_init, 0)).1.0.state
step-Edge_example = step-Edge host starts (fresh_init, 0)

step_refused_example :
    Follows refuses
      (gone_init, 10)
      (step host pauses (gone_init, 10)).0
      (step host pauses (gone_init, 10)).1
step_refused_example = step_refused host pauses (gone_init, 10)

abbrev stuck : Host ℕ
stuck = record host { runtime_start = λ id w. (err (new "no start"), suc w) }

step_error_state_example : (step stuck starts (fresh_init, 0)).1.0.state ≡ created
unfolding step start_init start
step_error_state_example =
    step_error_state stuck starts (fresh_init, 0)
      {e = wrap "start - %T" (wrap "starting init process" (new "no start"))} refl

delete_error_lost_example :
    delete_init (answering host (err (new "busy"))) (gone_init, 10)
    ≡ delete_init (answering host (ok tt)) (gone_init, 10)
delete_error_lost_example = delete_error_lost host (new "busy") (gone_init, 10)

exec_step-ExecEdge_example :
    ExecEdge ExecCall.starts exec_created
      (exec_step host fresh_init ExecCall.starts (fresh_exec, 0)).1.0.state
exec_step-ExecEdge_example = exec_step-ExecEdge host fresh_init ExecCall.starts (fresh_exec, 0)

start_exec_false_example : (start_exec broken fresh_init (let_go, 0)).0 ≡ ok tt
start_exec_false_example =
    (start_exec_false broken fresh_init (let_go, 0) (with_io let_go, 1) fresh_opts (new "no exec")
      refl refl before_let_go refl).0
