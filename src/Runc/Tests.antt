-- ===== src/Runc/Tests.antt =====
-- A guest that has one stream and one console open.
use runm.Base.{ℕ, ◌≡◌, refl, String, true, false, none, some, [], ◌∷◌, pos}
use runm.Base.Go.{Go, ok}
use runm.Runc.State.{State, new_state, store_open_io, store_open_console}
use runm.Runc.Options.{Stream, CreateOpts, RuncExecOptions, RuntimeContainer, CheckpointOptions}
use runm.Runc.RoundTrip.{create_opts_in_guest}

abbrev open_file : String → Go ℕ ℕ
open_file path w = (ok w, w)

abbrev pipes : Stream
pipes = record { pointer = 1; reference = some "io-1" }

abbrev terminal : Stream
terminal = record { pointer = 2; reference = some "cs-1" }

-- What the guest has under these references, with none of its own
abbrev guest_pipes : Stream
guest_pipes = record { pointer = 7; reference = none }

abbrev guest_terminal : Stream
guest_terminal = record { pointer = 8; reference = none }

abbrev guest : State
guest = store_open_console "cs-1" guest_terminal (store_open_io "io-1" guest_pipes new_state)

abbrev created : CreateOpts
created = record {
  pid_file = "/b/init.pid";
  io = some pipes;
  no_pivot = true;
  no_new_keyring = false;
  console_socket = some terminal;
  detach = false;
  extra_files = [];
}

-- The pipes that arrive are the guest's
arrived :
    create_opts_in_guest guest created
    ≡ record created { io = some guest_pipes; console_socket = some guest_terminal }
unfolding store_open_io store_open_console
arrived = refl

abbrev executed : RuncExecOptions
executed = record {
  pid_file = "/b/e1.pid";
  io_reference_id = "io-1";
  detach = true;
  console_reference_id = "";
  extra_args = [];
}

abbrev dumped : CheckpointOptions
dumped = record {
  image_path = "/i";
  work_dir = "/w";
  parent_path = "";
  allow_open_tcp = true;
  allow_external_unix_sockets = false;
  allow_terminal = false;
  criu_page_server = "";
  file_locks = true;
  cgroups = "soft";
  empty_namespaces = [];
  lazy_pages = false;
  status_file = none;
  extra_args = "--leave-running" ∷ [];
}

abbrev shell : RuntimeContainer
shell = record {
  id = "c";
  pid = pos 42;
  status = "running";
  bundle = "/b";
  rootfs = "/r";
  created = pos 1000;
  annotations = [];
}
