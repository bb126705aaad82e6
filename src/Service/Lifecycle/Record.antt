-- ===== src/Service/Lifecycle/Record.antt =====
-- task/service.go: the fields of `service` that the life of processes uses, the writes on them, and
-- what the service calls on containers and processes. The maps of the source are multimaps, and a
-- counter that is missing is 0.
use runm.Base.{
  put, ℕ, suc, ◌-◌, ◌%◌, ◌^◌, Bool, ◌&&◌, String, Option, none, some, List, [], ◌∷◌, ◌++◌, ℤ, pos,
  negsuc, nat_eq, if◌then◌else◌,
}
use runm.Base.Go.{Go, Done}
use runm.Service.Maps.{ContainerPid, same_pid}

-- uint32(i)
abbrev pub to_u32 : ℤ → ℕ
to_u32 (pos n) = n % 2 ^ 32
to_u32 (negsuc n) = 2 ^ 32 - 1 - n % 2 ^ 32

abbrev pub int_suc : ℤ → ℤ
int_suc (pos n) = pos (suc n)
int_suc (negsuc ℕ.zero) = pos 0
int_suc (negsuc (suc n)) = negsuc n

abbrev pub int_pred : ℤ → ℤ
int_pred (pos ℕ.zero) = negsuc 0
int_pred (pos (suc n)) = pos n
int_pred (negsuc n) = negsuc (suc n)

-- gorunc.Exit, without its timestamp, which the service does not read.
pub record Exit : Type 0 where
  pub pid : ℤ
  pub status : ℤ

-- containerReaperExit
pub record ReaperExit : Type 0 where
  pub container_id : String
  pub exit : Exit

-- containerProcess
pub record ContainerProcess : Type 0 where
  pub container : ℕ
  pub process : ℕ

-- The events that the service sends, with the container's and the process's id.
pub data Event : Type 0 where
  task_exit : String → String → ℕ → ℕ → Option ℕ → Event
  task_start : String → ℕ → Event
  task_exec_started : String → String → ℕ → Event
  task_create : String → String → ℕ → Event
  task_delete : String → ℕ → ℕ → Option ℕ → Event
  task_exec_added : String → String → Event
  task_paused task_resumed : String → Event

-- A goroutine of handleInitExit: it holds the init exit until the counter that it is told is 0.
pub record Waiter : Type 0 where
  pub exit : Exit
  pub container : ℕ
  pub process : ℕ

-- A subscription is a map that processExits fills, under the number that stands for its address.
pub record Subscription : Type 0 where
  pub address : ℕ
  pub exits : List (ContainerPid × Exit)

pub record Service : Type 0 where
  pub running : List (ContainerPid × ContainerProcess)
  pub running_execs : ℕ → ℤ
  -- container -> the channel of its waiter: the numbers sent and not yet received
  pub exec_count_subscribers : ℕ → Option (List ℤ)
  pub container_init_exit : ℕ → Option Exit
  pub exit_subscribers : List Subscription
  pub next_address : ℕ
  pub waiters : List Waiter
  pub events : List Event

-- What the service calls on containers (runm.Container) and processes (process.Process).
pub record Processes (S : Type 0) : Type 0 where
  pub container_id : ℕ → String
  pub container_pid : ℕ → S → ℤ
  pub is_init : ℕ → Bool
  pub process_id : ℕ → String
  pub process_pid : ℕ → S → ℤ
  pub exited_at : ℕ → S → Option ℕ
  pub set_exited : ℕ → ℤ → Go S Done
  pub close_io : ℕ → Go S Done
  pub kill_all : ℕ → Go S Done
  pub should_kill_all_on_exit : ℕ → S → Bool
  pub toggle_controllers : ℕ → Go S Done

abbrev pub exit_key : ReaperExit → ContainerPid
exit_key ce = record { pid = ce.exit.pid; container_id = ce.container_id }

-- `(*subscriber)[pidz] = append((*subscriber)[pidz], ce.exit)` for every subscriber
abbrev pub inform : ReaperExit → List Subscription → List Subscription
inform ce [] = []
inform ce (u ∷ us) = record u { exits = u.exits ++ (exit_key ce, ce.exit) ∷ [] } ∷ inform ce us

abbrev pub exits_of : ℕ → List Subscription → List (ContainerPid × Exit)
exits_of a [] = []
exits_of a (u ∷ us) = let rest = exits_of a us in if nat_eq u.address a then u.exits else rest

abbrev pub unsubscribe : ℕ → List Subscription → List Subscription
unsubscribe a [] = []
unsubscribe a (u ∷ us) =
    let rest = unsubscribe a us in if nat_eq u.address a then rest else u ∷ rest

-- The processes at a pid that are not of container `c`: what preStart keeps.
abbrev pub drop_container :
    ContainerPid
    → ℕ
    → List (ContainerPid × ContainerProcess)
    → List (ContainerPid × ContainerProcess)
drop_container k c [] = []
drop_container k c ((j, cp) ∷ m) =
    let rest = drop_container k c m in
    if same_pid j k && nat_eq cp.container c then rest else (j, cp) ∷ rest

-- The two writes of `send` and of the exec counter.
abbrev pub send : Event → Service → Service
send ev s = record s { events = s.events ++ ev ∷ [] }

abbrev pub set_count : ℕ → ℤ → Service → Service
set_count c n s = record s { running_execs = put c n s.running_execs }

abbrev pub notify : ℕ → ℤ → Service → Service
notify c n s = elim (s.exec_count_subscribers c) [
  | none ↦ s
  | some ch ↦ record s {
    exec_count_subscribers = put c (some (ch ++ n ∷ [])) s.exec_count_subscribers;
  }
]

-- `s.runningExecs[c]--`, and the new number to the container's subscriber.
unfoldable pub exec_done : ℕ → Service → Service
exec_done c s = let n = int_pred (s.running_execs c) in notify c n (set_count c n s)

-- A receive from the container's channel, which leaves `ch` in it.
abbrev pub receive : ℕ → List ℤ → Service → Service
receive c ch s = record s { exec_count_subscribers = put c (some ch) s.exec_count_subscribers }

-- `delete(s.execCountSubscribers, c)` and `delete(s.runningExecs, c)`
abbrev pub forget : ℕ → Service → Service
forget c s = record s {
  exec_count_subscribers = put c none s.exec_count_subscribers;
  running_execs = put c (pos 0) s.running_execs;
}
