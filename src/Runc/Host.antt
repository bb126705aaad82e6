-- ===== src/Runc/Host.antt =====
-- core/runc/runtime/grpc/runtime.go: the runtime of the shim, whose calls go to the guest. gRPC, and
-- the generated messages, stand between: the record Link.
pub mod Remote
pub mod Meeting
pub mod Streams
pub mod Consoles
mod Tests
use runm.Base.{ℕ, String, Option, none, some, List, [], ◌∷◌, ℤ, if◌then◌else◌}
use runm.Base.Text.{codes, contains}
use runm.Base.Errors.{Sentinel, Error, wrap, error_text}
use runm.Base.Go.{Go, Outcome, Done, ok, err, panic, panics, pure, fail, map_err, ◌>>=◌, ◌>>◌}
use runm.Runc.Options.{CreateOpts, ExecOpts, KillOpts, DeleteOpts, CheckpointOptions}
use runm.Runc.Convert.{
  checkpoint_opts_to_proto, create_opts_to_proto, exec_opts_to_proto, kill_opts_to_proto,
  delete_opts_to_proto, to_int32,
}
use runm.Runc.Server.{Server}
use runm.Runc.Guest.{
  Guest, serve_read_pid_file, serve_create, serve_start, serve_delete, serve_kill, serve_pause,
  serve_resume, serve_ps, serve_exec,
}

-- A call does not reach the guest (`unsent`), or its answer does not come back (`lost`); an error of
-- the guest arrives as what `carry` makes of it, a status with its text. `marshal` is json.Marshal
-- of a process.
pub record Link (A W : Type 0) : Type 0 where
  pub unsent : W → Option Error
  pub lost : W → Option Error
  pub carry : Error → Error
  pub marshal : A → Outcome String

-- The calls of runtime.Runtime that go to the guest as they are
pub data Call (A : Type 0) : Type 0 where
  read_pid_file start pause resume ps : String → Call A
  create : String → String → CreateOpts → Call A
  delete : String → DeleteOpts → Call A
  kill : String → ℤ → KillOpts → Call A
  exec : String → A → ExecOpts → Call A

pub data Answer : Type 0 where
  done : Answer
  pid : ℤ → Answer
  pids : List ℤ → Answer

module _ {A W : Type 0} (l : Link A W) where
  -- A unary call of the client
  abbrev pub send : {B : Type 0} → Go (Server × W) B → Go (Server × W) B
  send m (s, w) = elim (l.unsent w) [
    | some e ↦ (err e, (s, w))
    | none ↦
        (let (r, (s', w')) = m (s, w) in
          elim (l.lost w') [
            | some e ↦ (err e, (s', w'))
            | none ↦ elim r [
              | ok b ↦ (ok b, (s', w'))
              | err e ↦ (err (l.carry e), (s', w'))
              | panic ↦ (panic, (s', w'))
            ]
          ])
  ]

-- A conversion on the host
abbrev pub convert : {S B : Type 0} → Outcome B → Go S B
convert r s = (r, s)

module _ {A W : Type 0} (l : Link A W) (g : Guest A W) where
  abbrev answer_done : Go (Server × W) Done → Go (Server × W) Answer
  answer_done m = m >> pure done

  -- ReadPidFile
  unfoldable pub remote_read_pid_file : String → Go (Server × W) Answer
  remote_read_pid_file path = do
    n ← map_err (wrap "reading pid file") (send l (serve_read_pid_file g path))
    pure (pid n)

  -- Create
  unfoldable pub remote_create : String → String → CreateOpts → Go (Server × W) Answer
  remote_create id bundle opts = do
    m ← map_err (wrap "converting create opts to proto") (convert (create_opts_to_proto opts))
    answer_done (map_err (wrap "creating container") (send l (serve_create g id bundle m)))

  -- Start
  unfoldable pub remote_start : String → Go (Server × W) Answer
  remote_start id = answer_done (map_err (wrap "starting container") (send l (serve_start g id)))

  -- Delete
  unfoldable pub remote_delete : String → DeleteOpts → Go (Server × W) Answer
  remote_delete id opts =
      answer_done (
        map_err (wrap "deleting container")
          (send l (serve_delete g id (delete_opts_to_proto opts))))

  -- Kill: an error of the connection's preface is none.
  unfoldable pub remote_kill : String → ℤ → KillOpts → Go (Server × W) Answer
  remote_kill id signal opts s =
      let (r, s') = send l (serve_kill g id (to_int32 signal) (kill_opts_to_proto opts)) s in
      elim r [
        | ok _ ↦ (ok done, s')
        | panic ↦ (panic, s')
        | err e ↦
            (if contains (error_text g.sentinel_text e) (codes "failed to write client preface")
              then (ok done, s')
              else (err (wrap "killing container" e), s'))
      ]

  -- Pause
  unfoldable pub remote_pause : String → Go (Server × W) Answer
  remote_pause id = answer_done (map_err (wrap "pausing container") (send l (serve_pause g id)))

  -- Resume
  unfoldable pub remote_resume : String → Go (Server × W) Answer
  remote_resume id = answer_done (map_err (wrap "resuming container") (send l (serve_resume g id)))

  -- Ps
  unfoldable pub remote_ps : String → Go (Server × W) Answer
  remote_ps id = do ns ← map_err (wrap "ps") (send l (serve_ps g id)); pure (pids ns)

  -- Exec
  unfoldable pub remote_exec : String → A → ExecOpts → Go (Server × W) Answer
  remote_exec id spec opts = do
    p ← map_err (wrap "converting process spec to proto") (convert (l.marshal spec))
    m ← map_err (wrap "converting exec opts to proto") (convert (exec_opts_to_proto opts))
    answer_done (map_err (wrap "exec") (send l (serve_exec g id (some p) m)))

  unfoldable pub remote : Call A → Go (Server × W) Answer
  remote (read_pid_file path) = remote_read_pid_file path
  remote (create id bundle opts) = remote_create id bundle opts
  remote (start id) = remote_start id
  remote (delete id opts) = remote_delete id opts
  remote (kill id signal opts) = remote_kill id signal opts
  remote (pause id) = remote_pause id
  remote (resume id) = remote_resume id
  remote (ps id) = remote_ps id
  remote (exec id spec opts) = remote_exec id spec opts

  -- Update
  unfoldable pub remote_update : String → String → Go (Server × W) Answer
  remote_update id resources = panics

  -- Checkpoint: the conversion of its actions is not implemented, and panics.
  unfoldable pub remote_checkpoint : String → CheckpointOptions → Go (Server × W) Answer
  remote_checkpoint id opts = do m ← convert (checkpoint_opts_to_proto opts); panics

  -- Restore: the conversion of its options is not implemented, and panics.
  unfoldable pub remote_restore : String → String → Go (Server × W) Answer
  remote_restore id bundle = panics
