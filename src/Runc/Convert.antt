-- ===== src/Runc/Convert.antt =====
-- core/runc/conversion/conversion.go. Opening a file and JSON are of the system and the standard
-- library: parameters. The pairs for restore options and checkpoint actions are not implemented in
-- the source, they panic, and have no definition here.
use runm.Base.{
  ℕ, ◌-◌, ◌%◌, ◌^◌, String, Option, none, some, is_some, List, [], ◌∷◌, map, ℤ, pos, negsuc, ltb,
  ◌==◌, if◌then◌else◌,
}
use runm.Base.Errors.{Error, new}
use runm.Base.Go.{Outcome, Go, ok, err, panic, pure, ◌>>=◌}
use runm.Runc.State.{State}
use runm.Runc.Options.{
  Stream, CreateOpts, RuncCreateOptions, ExecOpts, RuncExecOptions, KillOpts, RuncKillOptions,
  DeleteOpts, RuncDeleteOptions, RuntimeContainer, RuncContainer, CheckpointOptions,
  RuncCheckpointOptions, TopResults, RuncTopResults, CgroupEvent,
}

-- The reference of a stream that is there; `what` names its kind.
unfoldable pub to_reference : String → Option Stream → Outcome String
to_reference what none = ok ""
to_reference what (some s) = elim s.reference [ none ↦ err (new what) | some r ↦ ok r ]

-- The stream of a reference that is not empty.
unfoldable pub from_reference : String → (String → Option Stream) → String → Outcome (Option Stream)
from_reference what opened r =
    if r == "" then ok none else elim (opened r) [ none ↦ err (new what) | some s ↦ ok (some s) ]

-- ConvertCreateOptsToProto
unfoldable pub create_opts_to_proto : CreateOpts → Outcome RuncCreateOptions
create_opts_to_proto opts = elim opts.extra_files [
  | f ∷ fs ↦ panic
  | [] ↦ elim (to_reference "io is not a referable by reference id" opts.io) [
    | panic ↦ panic
    | err e ↦ err e
    | ok i ↦
        elim (to_reference "console socket is not a referable by reference id"
          opts.console_socket) [
            | panic ↦ panic
            | err e ↦ err e
            | ok c ↦ ok (record {
              pid_file = opts.pid_file;
              io_reference_id = i;
              no_pivot = opts.no_pivot;
              no_new_keyring = opts.no_new_keyring;
              console_reference_id = c;
              detach = opts.detach;
              extra_files = [];
            })
          ]
  ]
]

-- ConvertExecOptsToProto
unfoldable pub exec_opts_to_proto : ExecOpts → Outcome RuncExecOptions
exec_opts_to_proto opts = elim (to_reference "io is not a referable by reference id" opts.io) [
  | panic ↦ panic
  | err e ↦ err e
  | ok i ↦
      elim (to_reference "console socket is not a referable by reference id" opts.console_socket) [
        | panic ↦ panic
        | err e ↦ err e
        | ok c ↦ ok (record {
          pid_file = opts.pid_file;
          io_reference_id = i;
          detach = opts.detach;
          console_reference_id = c;
          extra_args = opts.extra_args;
        })
      ]
]

-- ConvertExecOptsFromProto
unfoldable pub exec_opts_from_proto : State → RuncExecOptions → Outcome ExecOpts
exec_opts_from_proto state opts =
    elim (from_reference "io not found" state.open_ios opts.io_reference_id) [
      | panic ↦ panic
      | err e ↦ err e
      | ok i ↦
          elim (from_reference "console not found" state.open_consoles opts.console_reference_id) [
            | panic ↦ panic
            | err e ↦ err e
            | ok c ↦ ok (record {
              pid_file = opts.pid_file;
              io = i;
              detach = opts.detach;
              console_socket = c;
              extra_args = opts.extra_args;
            })
          ]
    ]

module _ {W : Type 0} (open_file : String → Go W ℕ) where
  -- `for i, file := range opts.GetExtraFiles()`
  unfoldable pub open_files : List String → Go W (List ℕ)
  open_files [] = pure []
  open_files (f ∷ fs) = do x ← open_file f; xs ← open_files fs; pure (x ∷ xs)

  -- ConvertCreateOptsFromProto
  unfoldable pub create_opts_from_proto : State → RuncCreateOptions → Go W CreateOpts
  create_opts_from_proto state opts = do
    files ← open_files opts.extra_files
    i ← (λ w. (from_reference "io not found" state.open_ios opts.io_reference_id, w))
    c ← (λ w. (from_reference "console not found" state.open_consoles opts.console_reference_id, w))
    pure (record {
      pid_file = opts.pid_file;
      io = i;
      no_pivot = opts.no_pivot;
      no_new_keyring = opts.no_new_keyring;
      console_socket = c;
      detach = opts.detach;
      extra_files = files;
    })

  -- ConvertCheckpointOptsFromProto
  unfoldable pub checkpoint_opts_from_proto : RuncCheckpointOptions → Go W CheckpointOptions
  checkpoint_opts_from_proto opts =
      if opts.status_file == ""
      then pure (record {
        image_path = opts.image_path;
        work_dir = opts.work_dir;
        parent_path = opts.parent_path;
        allow_open_tcp = opts.allow_open_tcp;
        allow_external_unix_sockets = opts.allow_external_unix_sockets;
        allow_terminal = opts.allow_terminal;
        criu_page_server = opts.criu_page_server;
        file_locks = opts.file_locks;
        cgroups = opts.cgroups;
        empty_namespaces = opts.empty_namespaces;
        lazy_pages = opts.lazy_pages;
        status_file = none;
        extra_args = [];
      })
      else (do f ← open_file opts.status_file; (λ w. (panic, w)))

-- ConvertCheckpointOptsToProto
unfoldable pub checkpoint_opts_to_proto : CheckpointOptions → Outcome RuncCheckpointOptions
checkpoint_opts_to_proto opts =
    if is_some opts.status_file
    then panic
    else ok (record {
      image_path = opts.image_path;
      work_dir = opts.work_dir;
      parent_path = opts.parent_path;
      allow_open_tcp = opts.allow_open_tcp;
      allow_external_unix_sockets = opts.allow_external_unix_sockets;
      allow_terminal = opts.allow_terminal;
      criu_page_server = opts.criu_page_server;
      file_locks = opts.file_locks;
      cgroups = opts.cgroups;
      empty_namespaces = opts.empty_namespaces;
      lazy_pages = opts.lazy_pages;
      status_file = "";
      extra_args = opts.extra_args;
    })

-- ConvertKillOptsToProto, ConvertKillOptsFromProto
unfoldable pub kill_opts_to_proto : KillOpts → RuncKillOptions
kill_opts_to_proto opts = record { all = opts.all; extra_args = opts.extra_args }

unfoldable pub kill_opts_from_proto : RuncKillOptions → KillOpts
kill_opts_from_proto opts = record { all = opts.all; extra_args = opts.extra_args }

-- ConvertDeleteOptsToProto, ConvertDeleteOptsFromProto
unfoldable pub delete_opts_to_proto : DeleteOpts → RuncDeleteOptions
delete_opts_to_proto opts = record { force = opts.force; extra_args = opts.extra_args }

unfoldable pub delete_opts_from_proto : RuncDeleteOptions → DeleteOpts
delete_opts_from_proto opts = record { force = opts.force; extra_args = opts.extra_args }

-- int32(i), of an int of 64 bits
unfoldable pub to_int32 : ℤ → ℤ
to_int32 (pos n) = let m = n % 2 ^ 32 in if ltb m (2 ^ 31) then pos m else negsuc (2 ^ 32 - 1 - m)
to_int32 (negsuc n) =
    let m = n % 2 ^ 32 in if ltb m (2 ^ 31) then negsuc m else pos (2 ^ 32 - 1 - m)

-- ConvertContainerToProto, ConvertContainerFromProto
unfoldable pub container_to_proto : RuntimeContainer → RuncContainer
container_to_proto c = record {
  id = c.id;
  pid = to_int32 c.pid;
  status = c.status;
  bundle = c.bundle;
  rootfs = c.rootfs;
  created_timestamp = c.created;
  annotations = c.annotations;
}

unfoldable pub container_from_proto : RuncContainer → RuntimeContainer
container_from_proto c = record {
  id = c.id;
  pid = c.pid;
  status = c.status;
  bundle = c.bundle;
  rootfs = c.rootfs;
  created = c.created_timestamp;
  annotations = c.annotations;
}

-- ConvertTopResultsToProto, ConvertTopResultsFromProto
unfoldable pub top_results_to_proto : TopResults → RuncTopResults
top_results_to_proto r = record {
  headers = r.headers;
  processes = map (λ p. record { process = p }) r.processes;
}

unfoldable pub top_results_from_proto : RuncTopResults → TopResults
top_results_from_proto r = record {
  headers = r.headers;
  processes = map (λ p. p.process) r.processes;
}

-- ConvertCgroupEventFromProto; the messages's getters have the fields' names.
unfoldable pub cgroup_event_from_proto : CgroupEvent → CgroupEvent
cgroup_event_from_proto e = record {
  high = e.high;
  max = e.max;
  oom = e.oom;
  oom_kill = e.oom_kill;
  low = e.low;
}

-- json.Marshal and json.Unmarshal at one type: ConvertStats, ConvertLinuxResources and
-- ConvertProcessSpec, each with ToProto and FromProto. The messages have the one field RawJson.
module _ {A : Type 0} (marshal : A → Outcome String) (unmarshal : String → Outcome A) where
  unfoldable pub raw_json_to_proto : A → Outcome String
  raw_json_to_proto a = elim (marshal a) [ ok s ↦ ok s | err e ↦ err e | panic ↦ panic ]

  unfoldable pub raw_json_from_proto : String → Outcome A
  raw_json_from_proto s = elim (unmarshal s) [ ok a ↦ ok a | err e ↦ err e | panic ↦ panic ]

  -- ConvertEventFromProto: type, id, error text and statistics
  unfoldable pub event_from_proto :
      String → String → String → String → Outcome (String × String × A × Option Error)
  unfolding raw_json_from_proto
  event_from_proto kind id text stats = elim (raw_json_from_proto stats) [
    | panic ↦ panic
    | err e ↦ err e
    | ok a ↦ ok (kind, id, a, (if text == "" then none else some (new text)))
  ]
