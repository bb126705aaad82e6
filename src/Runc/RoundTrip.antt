-- ===== src/Runc/RoundTrip.antt =====
-- What is left of the options after their way to the guest and back into go-runc's types.
use runm.Base.{
  ℕ, ◌^◌, ◌<◌, ◌≡◌, ◌↔◌, refl, String, true, false, Option, none, some, [], ℤ, pos, negsuc, ◌==◌,
  if◌then◌else◌, arith, eq_iff, ap, subst,
}
use runm.Base.Go.{Go, ok, is_err}
use runm.Runc.State.{State, delete_open_io}
use runm.Runc.Options.{
  Stream, CreateOpts, RuncCreateOptions, ExecOpts, RuncExecOptions, RuntimeContainer,
  CheckpointOptions, RuncCheckpointOptions,
}
use runm.Runc.Convert.{
  to_reference, from_reference, create_opts_to_proto, exec_opts_to_proto, exec_opts_from_proto,
  open_files, create_opts_from_proto, checkpoint_opts_from_proto, checkpoint_opts_to_proto,
  to_int32, container_to_proto, container_from_proto,
}

-- The guest has a stream of its own open under the reference of the host's stream.
pub record IsOpen (opened : String → Option Stream) (v : Stream) : Type 0 where
  pub name : String
  pub referable : v.reference ≡ some name
  pub named : (name == "") ≡ false
  pub stream : Stream
  pub found : opened name ≡ some stream

-- The stream that the guest has for one of the host
abbrev pub guest_stream : (String → Option Stream) → Option Stream → Option Stream
guest_stream opened none = none
guest_stream opened (some v) = elim v.reference [ none ↦ none | some r ↦ opened r ]

-- The options of the host with the guest's streams
abbrev pub create_opts_in_guest : State → CreateOpts → CreateOpts
create_opts_in_guest state opts = record opts {
  io = guest_stream state.open_ios opts.io;
  console_socket = guest_stream state.open_consoles opts.console_socket;
}

abbrev pub exec_opts_in_guest : State → ExecOpts → ExecOpts
exec_opts_in_guest state opts = record opts {
  io = guest_stream state.open_ios opts.io;
  console_socket = guest_stream state.open_consoles opts.console_socket;
}

abbrev pub Carries : (String → Option Stream) → Option Stream → Type 0
Carries opened none = Unit {0}
Carries opened (some v) = IsOpen opened v

carried :
    (what missing : String) (opened : String → Option Stream) (s : Option Stream)
    → Carries opened s
    → (r : String) × (to_reference what s ≡ ok r)
      × (from_reference missing opened r ≡ ok (guest_stream opened s))
unfolding to_reference from_reference
carried what missing opened none c = ("", refl, refl)
carried what missing opened (some v) c =
    (c.name, ground (arith, c.referable), ground (arith, c.referable, c.named, c.found))

pub create_opts_survive :
    {W : Type 0} (open_file : String → Go W ℕ) (state : State) (opts : CreateOpts) (w : W)
    → opts.extra_files ≡ []
    → Carries state.open_ios opts.io
    → Carries state.open_consoles opts.console_socket
    → (m : RuncCreateOptions) × (create_opts_to_proto opts ≡ ok m)
      × (create_opts_from_proto open_file state m w ≡ (ok (create_opts_in_guest state opts), w))
unfolding create_opts_to_proto create_opts_from_proto open_files
create_opts_survive open_file state opts w f i c =
    let (a, sent, found) =
      carried "io is not a referable by reference id" "io not found" state.open_ios opts.io i in
    let (b, sent', found') =
      carried "console socket is not a referable by reference id" "console not found"
        state.open_consoles opts.console_socket c in
    (
      record {
        pid_file = opts.pid_file;
        io_reference_id = a;
        no_pivot = opts.no_pivot;
        no_new_keyring = opts.no_new_keyring;
        console_reference_id = b;
        detach = opts.detach;
        extra_files = [];
      },
      ground arith,
      ground arith,
    )

pub exec_opts_survive :
    (state : State) (opts : ExecOpts)
    → Carries state.open_ios opts.io
    → Carries state.open_consoles opts.console_socket
    → (m : RuncExecOptions) × (exec_opts_to_proto opts ≡ ok m)
      × (exec_opts_from_proto state m ≡ ok (exec_opts_in_guest state opts))
unfolding exec_opts_to_proto exec_opts_from_proto
exec_opts_survive state opts i c =
    let (a, sent, found) =
      carried "io is not a referable by reference id" "io not found" state.open_ios opts.io i in
    let (b, sent', found') =
      carried "console socket is not a referable by reference id" "console not found"
        state.open_consoles opts.console_socket c in
    (
      record {
        pid_file = opts.pid_file;
        io_reference_id = a;
        detach = opts.detach;
        console_reference_id = b;
        extra_args = opts.extra_args;
      },
      ground arith,
      ground arith,
    )

-- Once the guest has deleted a stream, options of Exec that refer to it are refused there, and other
-- references still mean what they did.
deleted_io_refused :
    (state : State) (m : RuncExecOptions) (r k : String)
    → (r == "") ≡ false
    → m.io_reference_id ≡ r
    → (is_err (exec_opts_from_proto (delete_open_io r state) m) ≡ true)
      × ((delete_open_io r state).open_ios k ≡ (if r == k then none else state.open_ios k))
      × ((delete_open_io r state).closed_ios r
          ≡ elim (state.open_ios r) [ none ↦ state.closed_ios r | some v ↦ some v ])
unfolding exec_opts_from_proto from_reference delete_open_io
deleted_io_refused state m r k n e =
    ground (arith, eq_iff r r, eq_iff r k, eq_iff m.io_reference_id "", eq_iff r "")

-- Options of Checkpoint without a status file arrive without their extra arguments, and else as they
-- were sent.
checkpoint_opts_lose_args :
    {W : Type 0} (open_file : String → Go W ℕ) (opts : CheckpointOptions) (w : W)
    → opts.status_file ≡ none
    → (m : RuncCheckpointOptions) × (checkpoint_opts_to_proto opts ≡ ok m)
      × (m.extra_args ≡ opts.extra_args)
      × (checkpoint_opts_from_proto open_file m w ≡ (ok (record opts { extra_args = [] }), w))
unfolding checkpoint_opts_to_proto checkpoint_opts_from_proto
checkpoint_opts_lose_args open_file opts w n = (
  record {
    image_path = opts.image_path;
    work_dir = opts.work_dir;
    parent_path = opts.parent_path;
    allow_open_tcp = opts.allow_open_tcp;
    allow_external_unix_sockets = opts.allow_external_unix_sockets;
    allow_terminal = opts.allow_terminal;
    criu_page_server = opts.criu_page_server;
    file_locks = opts.file_locks;
    cgroups = opts.cgroups;
    empty_namespaces = opts.empty_namespaces;
    lazy_pages = opts.lazy_pages;
    status_file = "";
    extra_args = opts.extra_args;
  },
  ground arith,
  refl,
  ground arith,
)

-- The pids that an int32 holds.
abbrev pub FitsInt32 : ℤ → Type 0
FitsInt32 (pos n) = n < 2 ^ 31
FitsInt32 (negsuc n) = n < 2 ^ 31

pub to_int32_fits : (i : ℤ) → FitsInt32 i → to_int32 i ≡ i
unfolding to_int32
to_int32_fits (pos n) h = ground arith
to_int32_fits (negsuc n) h = ground arith

fits_to_int32 : (i : ℤ) → FitsInt32 (to_int32 i)
unfolding to_int32
fits_to_int32 (pos n) = ground arith
fits_to_int32 (negsuc n) = ground arith

-- The description of a container arrives as it was sent exactly when its pid fits in an int32.
container_survives :
    (c : RuntimeContainer) → (container_from_proto (container_to_proto c) ≡ c) ↔ FitsInt32 c.pid
unfolding container_to_proto container_from_proto
container_survives c = (
  λ e. subst FitsInt32 (ap (λ (d : RuntimeContainer). d.pid) e) (fits_to_int32 c.pid),
  λ h. ap (λ (i : ℤ). record c { pid = i }) (to_int32_fits c.pid h),
)
