-- ===== src/Service/Api.antt =====
-- cmd/containerd-shim-runm-v2/task/service.go: the record of the shim's service as its API sees it,
-- what the API calls, and what it answers. `errgrpc.ToGRPC` is of containerd; what it makes of an
-- error is `to_grpc`.
pub mod Handlers
pub mod Calls
pub mod Table
pub mod Known
pub mod Refines
pub mod Single
mod Tests
use runm.Base.{ℕ, String, Bool, Option, none, some, List, [], ◌∷◌, ℤ, ◌==◌, if◌then◌else◌}
use runm.Base.Errors.{Error}
use runm.Base.Go.{Go, Outcome, Done}
use runm.Service.Lifecycle.{Service, Processes}

-- `containers` is the list of its entries, one for a key. `stopping` is that a call of Shutdown has
-- sent for the end of the shim, `callbacks` how many callbacks it has to run then.
pub record Shim : Type 0 where
  pub service : Service
  pub primary_container_id : String
  pub containers : List (String × ℕ)
  pub callbacks : ℕ
  pub stopping : Bool

pub record CreateRequest : Type 0 where
  pub id : String
  pub bundle : String

-- The requests of the API, with the fields that the service reads: the id of the container, the id
-- of the exec process (empty for the init process), and what it hands on.
pub data Request : Type 0 where
  create : CreateRequest → Request
  start delete exec state wait close_io : String → String → Request
  resize_pty : String → String → ℕ → ℕ → Request
  kill : String → String → ℕ → Bool → Request
  pause resume pids connect stats : String → Request
  checkpoint update_task : String → String → Request
  shutdown : Bool → Request

-- task.Status
pub data TaskStatus : Type 0 where
  unknown created running stopped paused pausing : TaskStatus

-- The responses, without the bundle and the paths of the standard streams that State hands back.
pub data Answer : Type 0 where
  empty : Answer
  create_response start_response : ℕ → Answer
  delete_response : ℕ → Option ℕ → ℕ → Answer
  state_response : String → ℕ → TaskStatus → ℕ → Option ℕ → Answer
  pids_response : List (ℕ × Option String) → Answer
  wait_response : ℕ → Option ℕ → Answer
  connect_response : ℕ → ℕ → Answer
  stats_response : String → Answer

-- runm.NewContainer, the methods of a runm.Container, and those of a process.Process that only the
-- API calls. `start` hands back the process that it found, with the outcome.
pub record Containers (S : Type 0) : Type 0 where
  pub processes : Processes S
  pub to_grpc : Error → Error
  pub serve_grpc : String → Go S Done
  pub read_spec : String → Go S Done
  pub new_container : CreateRequest → Go S ℕ
  pub find : ℕ → String → Go S ℕ
  pub start : ℕ → String → S → (Option ℕ × Outcome Done) × S
  pub delete : ℕ → String → Go S ℕ
  pub reserve : ℕ → String → Go S Bool
  pub release : ℕ → String → S → S
  pub exec : ℕ → String → Go S ℕ
  pub resize_pty : ℕ → String → ℕ → ℕ → Go S Done
  pub pause : ℕ → Go S Done
  pub resume : ℕ → Go S Done
  pub kill : ℕ → String → ℕ → Bool → Go S Done
  pub close_io : ℕ → String → Go S Done
  pub checkpoint : ℕ → String → Go S Done
  pub update : ℕ → String → Go S Done
  pub status : ℕ → Go S String
  pub wait : ℕ → Go S Done
  pub exit_status : ℕ → S → ℤ
  -- Runtime().Ps of the init process
  pub ps : ℕ → Go S (List ℤ)
  pub execd_processes : ℕ → S → List ℕ
  -- Stat of the container's cgroup, if it has one
  pub stat : ℕ → Option (Go S String)
  -- os.Getpid
  pub shim_pid : ℤ

-- `s.containers[id]`, `s.containers[id] = c` and `delete(s.containers, id)`
abbrev pub lookup : String → List (String × ℕ) → Option ℕ
lookup id [] = none
lookup id ((k, c) ∷ m) = let rest = lookup id m in if k == id then some c else rest

abbrev pub insert : String → ℕ → List (String × ℕ) → List (String × ℕ)
insert id c [] = (id, c) ∷ []
insert id c ((k, d) ∷ m) = let rest = insert id c m in if k == id then (k, c) ∷ m else (k, d) ∷ rest

abbrev pub remove : String → List (String × ℕ) → List (String × ℕ)
remove id [] = []
remove id ((k, d) ∷ m) = let rest = remove id m in if k == id then rest else (k, d) ∷ rest
