-- ===== src/Container/Making.antt =====
-- A bundle, a request for a container in it, and the theorems at them.
use runm.Base.{ℕ, suc, ◌≡◌, ◌≢◌, refl, true, false, none, some, [], ◌∷◌, pos, arith}
use runm.Base.Errors.{new}
use runm.Base.Go.{ok, err, panic}
use runm.Process.Init.{Init, new_init, start, set_exited}
use runm.Process.Init.Create.{create, prepare_io, launch, open_stdin_if, copy_io, create_opts}
use runm.Process.Init.States.{starts, pauses, exits, step, start_init, pause_init, exit_init}
use runm.Process.Init.Exit.{IsConsistent, run}
use runm.Process.Io.{create_io, io_copy}
use runm.Process.Tests.{host}
use runm.Shim.Files.{Files, Json, write_options, write_runtime, write_pid}
use runm.Container.Create.{
  Options, Maker, Made, is_nil, CreateTaskRequest, new_container, finish_container, create_on,
  options_of, make_rootfs, write_bundle, make_runtime,
}
use runm.Container.Fresh.{IsFresh, new_container-IsFresh, new_container-run}

abbrev files : Files ℕ
files = record {
  read_file = λ p w. (err (new "no file"), w);
  write_file = λ p d w. (ok tt, suc w);
  stat = λ p w. (err (new "no file"), w);
  is_not_exist = λ e. true;
  atoi_error = λ d. new "invalid syntax";
  getpid = pos 300;
  getwd = λ w. (ok "/run/shim", w);
  beside = λ cwd id. id;
  kill = λ p n w. (ok tt, suc w);
  now = λ w. (w, w);
}

abbrev json : Json Options
json = record { marshal = λ o. ok []; unmarshal = λ d. err (new "empty") }

abbrev maker : Maker ℕ
maker = record {
  namespace_required = λ w. (ok "k8s.io", w);
  unmarshal_any = λ a. ok is_nil;
  mkdir = λ p w. (err (new "file exists"), w);
  is_exist = λ e. true;
  create_runtime = λ o w. (ok true, suc w);
  not_adapter = new "runtime is not a cgroup adapter";
  to_ttrpc = λ e. e;
  join = λ a b. b;
}

abbrev request : CreateTaskRequest
request = record {
  id = "c1";
  bundle = "/b";
  options = some "{}";
  rootfs = record { type_ = "bind"; source = "/r"; target = "/"; options = [] } ∷ [];
  stdio = record { stdin = ""; stdout = ""; stderr = ""; terminal = false };
  checkpoint = "";
  parent_checkpoint = "";
}

abbrev made_init : Init
made_init = record (new_init "c1" request.stdio "/b" "work" (pos 0) (pos 0) false false "") {
  io = some (record { io = 4; uri = none; copy = false; stdio = request.stdio });
  pid = pos 42;
}

abbrev made : Made
made = record {
  id = "c1";
  bundle = "/b";
  container = record { process = some 8; processes = λ id. none; reserved = λ id. false };
  init = made_init;
}

makes : new_container host files json maker 8 request 0 ≡ (ok made, 7)
unfolding new_container finish_container create_on options_of make_rootfs write_bundle make_runtime
    write_options write_runtime write_pid create prepare_io launch open_stdin_if copy_io create_opts
    create_io io_copy
makes = refl

new_container-IsFresh_example : IsFresh 8 request made
new_container-IsFresh_example = new_container-IsFresh host files json maker 8 request 0 7 made makes

runs : (run host (starts ∷ pauses ∷ exits (pos 137) ∷ []) (made_init, 7)).0 ≢ panic
unfolding run step start_init pause_init exit_init start set_exited
runs = λ e. ground (arith, e)

new_container-run_example :
    IsConsistent (run host (starts ∷ pauses ∷ exits (pos 137) ∷ []) (made_init, 7)).1.0
new_container-run_example =
    new_container-run host files json maker 8 request 0 7 made
      (starts ∷ pauses ∷ exits (pos 137) ∷ []) makes runs
