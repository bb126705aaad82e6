-- ===== src/Service/Api/Tests.antt =====
-- A shim without a container and one with the container "a", and the theorems at such inputs.
use runm.Base.{
  not, ◌||◌, ℕ, suc, ◌≡◌, refl, true, false, none, some, [], ◌∷◌, pos, arith, eq_iff, ◌≢◌,
}
use runm.Base.Go.{ok, err, panic}
use runm.Service.Tests.{processes, processes-IsQuiet, idle}
use runm.Service.Lifecycle.{pre_start, handle_started, claim, claim_exits, handle_exits}
use runm.Service.Api.{Shim, CreateRequest, Containers, create, delete, kill, create_response}
use runm.Service.Api.Handlers.{
  not_created, create_handler, create_container, admit_container, announce, get_container,
  delete_handler, forget_container,
}
use runm.Service.Api.Calls.{serve, serve_all}
use runm.Container.{Calls}
use runm.Service.Api.Known.{known, unknown_refused}
use runm.Service.Api.Refines.{after, serve-after}
use runm.Service.Api.Single.{Single, no_container, create_once, is_ok, serve_all-Single}

-- The world is the number of calls; a call of the container succeeds.
abbrev containers : Containers ℕ
containers = record {
  processes = processes;
  to_grpc = λ e. e;
  serve_grpc = λ b t. (ok tt, suc t);
  read_spec = λ b t. (ok tt, suc t);
  new_container = λ r t. (ok 7, suc t);
  find = λ c e t. (ok 1, suc t);
  start = λ c e t. ((some 1, ok tt), suc t);
  delete = λ c e t. (ok 1, suc t);
  reserve = λ c e t. (ok true, suc t);
  release = λ c e t. t;
  exec = λ c e t. (ok 2, suc t);
  resize_pty = λ c e w g t. (ok tt, suc t);
  pause = λ c t. (ok tt, suc t);
  resume = λ c t. (ok tt, suc t);
  kill = λ c e n all t. (ok tt, suc t);
  close_io = λ c e t. (ok tt, suc t);
  checkpoint = λ c r t. (ok tt, suc t);
  update = λ c r t. (ok tt, suc t);
  status = λ p t. (ok "running", suc t);
  wait = λ p t. (ok tt, suc t);
  exit_status = λ p t. pos 0;
  ps = λ p t. (ok (pos 101 ∷ []), suc t);
  execd_processes = λ c t. 1 ∷ [];
  stat = λ c. none;
  shim_pid = pos 42;
}

abbrev fresh : Shim
fresh = record {
  service = idle;
  primary_container_id = "";
  containers = [];
  callbacks = 3;
  stopping = false;
}

abbrev taken : Shim
taken = record fresh { primary_container_id = "a"; containers = ("a", 7) ∷ [] }

abbrev first : CreateRequest
first = record { id = "a"; bundle = "/b" }

abbrev second : CreateRequest
second = record { id = "b"; bundle = "/c" }

create-first : (serve containers (create first) (fresh, 0)).0 ≡ ok (create_response 100)
unfolding serve create_handler create_container admit_container announce pre_start handle_started
    claim claim_exits handle_exits
create-first = refl

taken_primary : taken.primary_container_id ≢ ""
taken_primary e = ground (arith, eq_iff "a" "")

unknown_refused_example :
    serve containers (kill "x" "" 9 true) (taken, 0) ≡ (err not_created, (taken, 0))
unknown_refused_example = unknown_refused containers (kill "x" "" 9 true) "x" taken 0 refl refl

serve_all-Single_example :
    Single (serve_all containers (create first ∷ create second ∷ delete "a" "" ∷ []) (fresh, 0)).0
serve_all-Single_example =
    serve_all-Single containers (create first ∷ create second ∷ delete "a" "" ∷ []) fresh 0 refl
      (no_container refl)

create_once_example :
    let (h', t') = serve_all containers (delete "a" "" ∷ []) (taken, 0) in
    (is_ok (create_handler containers second (h', t')).0 ≡ false)
    × ((not (known "a" h'.containers) || known "a" taken.containers) ≡ true)
create_once_example = create_once containers (delete "a" "" ∷ []) second "a" taken 0 taken_primary

delete_answered : (serve containers (delete "a" "") (taken, 0)).0 ≢ panic
unfolding serve delete_handler forget_container get_container
delete_answered e = ground (arith, e)

serve-after_example :
    let (o, (h', t')) = serve containers (delete "a" "") (taken, 0) in
    known "a" h'.containers ≡ after (delete "a" "") o "a" (known "a" taken.containers)
serve-after_example =
    serve-after containers (delete "a" "") "a" taken 0 processes-IsQuiet delete_answered

-- The same containers, but for a container of runm/container.go in the world.
abbrev init_calls : Calls ℕ
init_calls = record {
  start = λ p t. (ok tt, t);
  delete = λ p t. (ok tt, t);
  kill = λ p n b t. (ok tt, t);
  close_io = λ p t. (ok tt, t);
  exec = λ i id t. (ok 2, t);
}
