-- ===== src/Process/Init.antt =====
-- process/init.go: the record of a container's init process and the methods that its states call.
-- The public methods hold `mu` from end to end, so each is one step on the store.

pub mod Create
pub mod Refusal
pub mod Cleanup
pub mod Exit
pub mod Frame
pub mod Graph
pub mod States
use runm.Base.{
  ℕ, String, Bool, true, false, not, Option, none, some, List, [], ◌∷◌, ◌++◌, ℤ, pos, ◌==◌,
  if◌then◌else◌,
}
use runm.Base.Text.{first_line}
use runm.Base.Errors.{Error, wrap, computed, error_text}
use runm.Base.Go.{
  Go, Outcome, Done, ok, err, panic, pure, fail, panics, skip, ignore, map_err, ask, call,
  defer_call, update, self, ◌>>=◌, ◌>>◌,
}
use runm.Process.Host.{
  Host, Handle, FilePath, Stdio, RestoreOpts, CheckpointOpts, CriuDir, given, below,
}
use runm.Process.Io.{ProcessIo, io_close}
use runm.Process.Kill.{check_kill_error}

-- The states of init_state.go; a state is an object that knows its process, here a tag in it.
pub data InitState : Type 0 where
  created : InitState
  created_checkpoint : RestoreOpts → InitState
  running paused stopped deleted : InitState

-- `exited` is none where the source has the zero time; `wait_closed` says that the channel
-- `waitBlock` has been closed.
pub record Init : Type 0 where
  pub state : InitState
  pub wait_closed : Bool
  pub work_dir : String
  pub id : String
  pub bundle : String
  pub console : Option Handle
  pub io : Option ProcessIo
  pub pausing : Bool
  pub status : ℤ
  pub exited : Option ℕ
  pub pid : ℤ
  pub closers : List Handle
  pub stdin : Option Handle
  pub stdio : Stdio
  pub io_uid : ℤ
  pub io_gid : ℤ
  pub no_pivot_root : Bool
  pub no_new_keyring : Bool
  pub criu_work_path : String

-- process.New, with the fields that runm's newInit sets after it.
abbrev pub new_init : String → Stdio → String → String → ℤ → ℤ → Bool → Bool → String → Init
new_init id stdio bundle work_dir uid gid no_pivot no_keyring criu = record {
  state = created;
  wait_closed = false;
  work_dir = work_dir;
  id = id;
  bundle = bundle;
  console = none;
  io = none;
  pausing = false;
  status = pos 0;
  exited = none;
  pid = pos 0;
  closers = [];
  stdin = none;
  stdio = stdio;
  io_uid = uid;
  io_gid = gid;
  no_pivot_root = no_pivot;
  no_new_keyring = no_keyring;
  criu_work_path = if criu == "" then work_dir else criu;
}

abbrev pub set_state : InitState → Init → Init
set_state st p = record p { state = st }

-- core/runc/process/types.go: CheckpointConfig
pub record CheckpointConfig : Type 0 where
  pub work_dir : String
  pub path : String
  pub exit : Bool
  pub allow_open_tcp : Bool
  pub allow_external_unix_sockets : Bool
  pub allow_terminal : Bool
  pub file_locks : Bool
  pub empty_namespaces : List String

module _ {W : Type 0} where
  -- `close(p.waitBlock)`: closing a closed channel panics.
  unfoldable pub close_wait_block : Go (Init × W) Done
  close_wait_block s =
      if s.0.wait_closed then (panic, s) else (ok tt, (record s.0 { wait_closed = true }, s.1))

  -- `for _, c := range closers { c.Close() }`
  unfoldable pub close_all : (Handle → Go W Done) → List Handle → Go W Done
  close_all close [] = skip
  close_all close (c ∷ cs) = ignore (close c) >> close_all close cs

module _ {W : Type 0} (h : Host W) where
  -- CloseIO
  unfoldable pub close_io : Go (Init × W) Done
  close_io = do p ← self; ignore (call (io_close h p.io))

  -- openStdin
  unfoldable pub open_stdin : String → Go (Init × W) Done
  open_stdin path = do
    sc ← call (map_err (wrap "failed to open stdin fifo") (h.open_fifo path))
    update (λ p. record p { stdin = some sc; closers = p.closers ++ sc ∷ [] })

  -- start
  unfoldable pub start : Go (Init × W) Done
  start = do p ← self; call (map_err (wrap "starting init process") (h.runtime_start p.id))

  -- setExited
  unfoldable pub set_exited : ℤ → Go (Init × W) Done
  unfolding close_wait_block
  set_exited status = do
    t ← ask h.now
    update (λ p. record p { exited = some t; status = status })
    p ← self
    ignore (call (h.shutdown_console p.console))
    close_wait_block

  close_pipes : Go (Init × W) Done
  unfolding close_all
  close_pipes = do
    p ← self
    elim p.io [
      | none ↦ skip
      | some io ↦ call (close_all h.close p.closers) >> ignore (call (io_close h p.io))
    ]

  -- delete. The error of runtime.Delete, filtered and wrapped, is assigned to `err`, and `err` is
  -- assigned runtime.Close's before it is read: only Close's comes back.
  unfoldable pub delete : Go (Init × W) Done
  unfolding close_pipes
  delete = do
    p ← self
    ignore (call h.wait_timeout)
    ignore (call (h.runtime_delete p.id))
    close_pipes
    call h.runtime_close

  -- kill
  unfoldable pub kill : ℕ → Bool → Go (Init × W) Done
  kill signal all = do
    p ← self
    call (map_err (check_kill_error h.sentinel_text) (h.runtime_kill p.id signal all))

  -- update
  unfoldable pub update_resources : String → Go (Init × W) Done
  update_resources r = do
    p ← self
    resources ← call (h.unmarshal_resources r)
    call (map_err (wrap "updating init process") (h.runtime_update p.id resources))

  -- The directory that checkpoint gives to criu.
  unfoldable pub criu_dir : String → Init → CriuDir
  criu_dir work p =
      if work == "" then below (record { dir = p.work_dir; name = "criu-work" }) else given work

  -- The error of a checkpoint: the first line of criu's.
  checkpoint_error : Error → Error
  checkpoint_error e = computed (first_line (error_text h.sentinel_text e))

  -- On an error criu's log is copied beside the bundle.
  dump : CriuDir → Init → Go (Init × W) Done → Go (Init × W) Done
  dump work p m s =
      let (r, s') = m s in
      elim r [
        | ok a ↦ (ok tt, s')
        | err e ↦
            (do
              ignore
                  (call (h.copy_dump_log (record { dir = p.bundle; name = "criu-dump.log" }) work))
              fail (checkpoint_error e))
              s'
        | panic ↦ (panic, s')
      ]

  remove_work : CriuDir → Go (Init × W) Done
  remove_work (given d) = skip
  remove_work (below f) = call (h.remove_all f)

  -- checkpoint
  unfoldable pub checkpoint : CheckpointConfig → Go (Init × W) Done
  unfolding criu_dir dump remove_work checkpoint_error
  checkpoint r = do
    p ← self
    let work = criu_dir r.work_dir p
    let opts : CheckpointOpts = record {
      work_dir = work;
      image_path = r.path;
      allow_open_tcp = r.allow_open_tcp;
      allow_external_unix_sockets = r.allow_external_unix_sockets;
      allow_terminal = r.allow_terminal;
      file_locks = r.file_locks;
      empty_namespaces = r.empty_namespaces;
      leave_running = not r.exit;
    }
    defer_call (dump work p (call (h.runtime_checkpoint p.id opts))) (remove_work work)
