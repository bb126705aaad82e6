-- ===== src/Runc/Guest.antt =====
-- core/runc/server/runc.go: the requests of the runc service, in the guest, over its OCI runtime.
-- The world `W` is the guest's; the specification of a process is of a type `A`, which travels as
-- JSON.
use runm.Base.{ℕ, String, Option, none, some, List, [], ◌∷◌, map, ℤ, if◌then◌else◌}
use runm.Base.Text.{codes, has_suffix}
use runm.Base.Errors.{Sentinel, wrap, new, error_text}
use runm.Base.Go.{
  Go, Outcome, Done, ok, err, panic, pure, fail, skip, map_err, ignore, call, self, ◌>>=◌, ◌>>◌,
}
use runm.Runc.State.{State}
use runm.Runc.Options.{
  Stream, CreateOpts, RuncCreateOptions, ExecOpts, RuncExecOptions, KillOpts, RuncKillOptions,
  DeleteOpts, RuncDeleteOptions,
}
use runm.Runc.Convert.{
  create_opts_from_proto, exec_opts_from_proto, kill_opts_from_proto, delete_opts_from_proto,
  to_int32,
}
use runm.Runc.Server.{Server}

-- The keys that Range comes to in the maps of open things.
pub record Opened : Type 0 where
  pub ios : List String
  pub consoles : List String
  pub vsocks : List ℕ
  pub unixes : List String

-- What the guest's server calls: the runtime.Runtime, the closing of what is open, files, and
-- json.Unmarshal of a process. `sentinel_text` are the texts of sentinel errors.
pub record Guest (A W : Type 0) : Type 0 where
  pub read_pid_file : String → Go W ℤ
  pub create : String → String → CreateOpts → Go W Done
  pub start : String → Go W Done
  pub delete : String → DeleteOpts → Go W Done
  pub kill : String → ℤ → KillOpts → Go W Done
  pub pause : String → Go W Done
  pub resume : String → Go W Done
  pub ps : String → Go W (List ℤ)
  pub exec : String → A → ExecOpts → Go W Done
  pub open_file : String → Go W ℕ
  pub close_stream : Stream → Go W Done
  pub close_socket : ℕ → Go W Done
  pub unmarshal : String → Outcome A
  pub range : State → Opened
  pub sentinel_text : Sentinel → List ℕ

module _ {A W : Type 0} (g : Guest A W) where
  -- ReadPidFile
  unfoldable pub serve_read_pid_file : String → Go (Server × W) ℤ
  serve_read_pid_file path = do
    pid ← map_err (wrap "failed to read pid file") (call (g.read_pid_file path))
    pure (to_int32 pid)

  -- Create
  unfoldable pub serve_create : String → String → RuncCreateOptions → Go (Server × W) Done
  serve_create id bundle m = do
    s ← self
    opts ←
        map_err (wrap "failed to convert create opts")
          (call (create_opts_from_proto g.open_file s.state m))
    map_err (wrap "failed to create container") (call (g.create id bundle opts))

  -- Start
  unfoldable pub serve_start : String → Go (Server × W) Done
  serve_start id = map_err (wrap "starting container") (call (g.start id))

  -- One loop of Delete: what is open under these keys is closed, and errors are dropped.
  unfoldable pub close_each :
      {K V : Type 0} → (V → Go W Done) → (K → Option V) → List K → Go (Server × W) Done
  close_each close opened [] = skip
  close_each close opened (k ∷ ks) =
      elim (opened k) [ none ↦ skip | some v ↦ ignore (call (close v)) ]
      >> close_each close opened ks

  -- The four loops of Delete
  unfoldable pub close_opened : Go (Server × W) Done
  close_opened = do
    s ← self
    close_each g.close_stream s.state.open_ios (g.range s.state).ios
    close_each g.close_stream s.state.open_consoles (g.range s.state).consoles
    close_each g.close_socket s.state.open_vsocks (g.range s.state).vsocks
    close_each g.close_socket s.state.open_unixes (g.range s.state).unixes

  -- Delete
  unfoldable pub serve_delete : String → RuncDeleteOptions → Go (Server × W) Done
  serve_delete id m = do
    map_err (wrap "deleting container") (call (g.delete id (delete_opts_from_proto m)))
    close_opened

  -- Kill: a container that does not run is no error.
  unfoldable pub serve_kill : String → ℤ → RuncKillOptions → Go (Server × W) Done
  serve_kill id signal m (s, w) =
      let (r, w') = g.kill id signal (kill_opts_from_proto m) w in
      elim r [
        | ok _ ↦ (ok tt, (s, w'))
        | panic ↦ (panic, (s, w'))
        | err e ↦
            (if has_suffix (error_text g.sentinel_text e) (codes "container not running")
              then (ok tt, (s, w'))
              else (err (wrap "killing container" e), (s, w')))
      ]

  -- Pause
  unfoldable pub serve_pause : String → Go (Server × W) Done
  serve_pause id = map_err (wrap "pausing container") (call (g.pause id))

  -- Resume
  unfoldable pub serve_resume : String → Go (Server × W) Done
  serve_resume id = map_err (wrap "resuming container") (call (g.resume id))

  -- Ps
  unfoldable pub serve_ps : String → Go (Server × W) (List ℤ)
  serve_ps id = do pids ← map_err (wrap "ps") (call (g.ps id)); pure (map to_int32 pids)

  -- Exec; the specification is `none` if the request has none.
  unfoldable pub serve_exec : String → Option String → RuncExecOptions → Go (Server × W) Done
  serve_exec id none m = fail (new "spec is required")
  serve_exec id (some spec) m = do
    process ← (λ s. (g.unmarshal spec, s))
    opts ← (λ s. (exec_opts_from_proto s.0.state m, s))
    map_err (wrap "exec") (call (g.exec id process opts))
