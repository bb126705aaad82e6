-- ===== src/Service/Tests.antt =====
-- A container with its init process 0 and the exec process 1, and the theorems at such inputs.
use runm.Base.{length, ℕ, suc, ◌+◌, ◌≡◌, refl, true, none, some, [], ◌∷◌, pos, nat_eq}
use runm.Base.Go.{ok}
use runm.Service.Maps.{ContainerPid}
use runm.Service.Lifecycle.{
  Exit, ReaperExit, ContainerProcess, Waiter, Service, Processes, process_exit, fail_start,
  begin_start, int_pred,
}
use runm.Service.Restart.{restarted_exits_twice}
use runm.Service.Counts.{IsQuiet}

-- Process p has the pid 100 + p; the world is the number of calls.
abbrev pub processes : Processes ℕ
processes = record {
  container_id = λ c. "c";
  container_pid = λ c t. pos 100;
  is_init = λ p. nat_eq p 0;
  process_id = λ p. "p";
  process_pid = λ p t. pos (100 + p);
  exited_at = λ p t. some t;
  set_exited = λ p n t. (ok tt, suc t);
  close_io = λ p t. (ok tt, suc t);
  kill_all = λ p t. (ok tt, suc t);
  should_kill_all_on_exit = λ c t. true;
  toggle_controllers = λ p t. (ok tt, t);
}

pub processes-IsQuiet : IsQuiet processes
processes-IsQuiet = record { set_exited = λ p n t. refl; close_io = λ p t. refl }

abbrev pub init_entry : ContainerPid × ContainerProcess
init_entry = (record { pid = pos 100; container_id = "c" }, record { container = 5; process = 0 })

abbrev exec_process : ContainerProcess
exec_process = record { container = 5; process = 1 }

abbrev exec_key : ContainerPid
exec_key = record { pid = pos 101; container_id = "c" }

abbrev pub idle : Service
idle = record {
  running = init_entry ∷ [];
  running_execs = λ c. pos 0;
  exec_count_subscribers = λ c. none;
  container_init_exit = λ c. none;
  exit_subscribers = [];
  next_address = 0;
  waiters = [];
  events = [];
}

abbrev one_exec : Service
one_exec = record idle { running_execs = λ c. pos 1 }

abbrev pub exec_exit : Exit
exec_exit = record { pid = pos 101; status = pos 3 }

abbrev pub init_exit : Exit
init_exit = record { pid = pos 100; status = pos 137 }

abbrev pub reaped : ReaperExit
reaped = record { container_id = "c"; exit = exec_exit }

abbrev informed : Service × ℕ
informed = (
  record idle {
    exit_subscribers = record { address = 0; exits = (exec_key, exec_exit) ∷ [] } ∷ [];
    next_address = 1;
  },
  0,
)

abbrev pub waiting : Waiter
waiting = record { exit = init_exit; container = 5; process = 0 }

-- The exec runs, and its Start is refused.
abbrev entered : Service
entered = record one_exec { running = init_entry ∷ (exec_key, exec_process) ∷ [] }

abbrev refused : Service × ℕ
refused = (fail_start processes true 5 0 (some 1) (begin_start processes true 5 (entered, 0)).1).1

restarted_exits_twice_example :
    let (r, v) = process_exit processes reaped refused in
    (r ≡ ok tt)
    × (v.0.running_execs 5 ≡ int_pred (int_pred (pos 1)))
    × (length v.0.events ≡ length refused.0.events + 2)
restarted_exits_twice_example =
    restarted_exits_twice processes reaped 5 1 entered 0 processes-IsQuiet refl refl refl refl refl
      refl
