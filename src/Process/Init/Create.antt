-- ===== src/Process/Init/Create.antt =====
-- process/init.go: Create and createCheckpointedState. The timeout of 30 seconds and the logging
-- are left out; a panic passes through Create.
use runm.Base.{String, true, Option, none, some, [], ◌∷◌, ◌++◌, ◌==◌, if◌then◌else◌}
use runm.Base.Errors.{wrap}
use runm.Base.Go.{Go, Done, panic, pure, skip, map_err, call, update, self, ◌>>=◌, ◌>>◌}
use runm.Process.Host.{Host, Handle, FilePath, Stdio, RestoreOpts, CreateOpts}
use runm.Process.Io.{ProcessIo, create_io, io_copy}
use runm.Process.Init.{Init, set_state, created_checkpoint, open_stdin}

-- core/runc/process/types.go: CreateConfig, the fields that Create reads.
pub record CreateConfig : Type 0 where
  pub id : String
  pub bundle : String
  pub stdio : Stdio
  pub checkpoint : String
  pub parent_checkpoint : String

abbrev pub io_handle : Option ProcessIo → Option Handle
io_handle none = none
io_handle (some p) = some p.io

-- newPidFile
abbrev pub init_pid_file : Init → FilePath
init_pid_file p = record { dir = p.bundle; name = "init.pid" }

unfoldable pub restore_opts : CreateConfig → Init → RestoreOpts
restore_opts r p = record {
  image_path = r.checkpoint;
  work_dir = p.criu_work_path;
  parent_path = r.parent_checkpoint;
  pid_file = init_pid_file p;
  no_pivot = p.no_pivot_root;
  detach = true;
  no_subreaper = true;
  io = io_handle p.io;
  console_socket = none;
}

unfoldable pub create_opts : Option Handle → Init → CreateOpts
create_opts socket p = record {
  pid_file = init_pid_file p;
  no_pivot = p.no_pivot_root;
  no_new_keyring = p.no_new_keyring;
  io = io_handle p.io;
  console_socket = socket;
}

module _ {W : Type 0} (h : Host W) where
  -- createCheckpointedState
  unfoldable pub create_checkpointed_state : CreateConfig → Go (Init × W) Done
  create_checkpointed_state r = update (λ p. set_state (created_checkpoint (restore_opts r p)) p)

  -- The terminal's socket, or the process's pipes: one of the two is there afterwards.
  unfoldable pub prepare_io : Stdio → Go (Init × W) (Option Handle)
  prepare_io stdio =
      if stdio.terminal
      then (do
        socket ←
            call (
              map_err (wrap "failed to create OCI runtime console socket")
                h.new_temp_console_socket)
        update (λ p. record p { closers = p.closers ++ socket ∷ [] })
        pure (some socket))
      else (do
        p ← self
        pio ← call (
            map_err (wrap "failed to create init process I/O")
              (create_io h p.id p.io_uid p.io_gid p.stdio))
        update (λ q. record q { io = some pio })
        pure none)

  -- The console is received from its socket and copied, or the pipes are copied. With neither, the
  -- source calls Copy on a nil *processIO, whose first line reads through it.
  unfoldable pub copy_io : Option Handle → Option ProcessIo → Stdio → Go (Init × W) Done
  copy_io (some socket) pio stdio = do
    p ← self
    master ← call (map_err (wrap "failed to retrieve console master") (h.receive_master socket))
    console ←
        call (map_err (wrap "failed to start console copy") (h.copy_console master p.id stdio))
    update (λ q. record q { console = some console })
  copy_io none none stdio = λ s. (panic, s)
  copy_io none (some pio) stdio =
      call (map_err (wrap "failed to start io pipe copy") (io_copy h pio))

  -- `if path != "" { p.openStdin(path) }`
  unfoldable pub open_stdin_if : String → Go (Init × W) Done
  open_stdin_if path = if path == "" then skip else open_stdin h path

  -- The part of Create after the runtime has been told what to do.
  unfoldable pub launch : CreateConfig → Option Handle → Go (Init × W) Done
  launch r socket = do
    p ← self
    call (
        map_err (wrap "OCI runtime create failed")
          (h.runtime_create r.id r.bundle (create_opts socket p)))
    open_stdin_if r.stdio.stdin
    q ← self
    copy_io socket q.io r.stdio
    pid ← call (
        map_err (wrap "failed to retrieve OCI runtime container pid")
          (h.runtime_read_pid_file (init_pid_file p)))
    update (λ q. record q { pid = pid })

  -- Create
  unfoldable pub create : CreateConfig → Go (Init × W) Done
  unfolding launch create_checkpointed_state
  create r = do
    socket ← prepare_io r.stdio
    if r.checkpoint == "" then launch r socket else create_checkpointed_state r
