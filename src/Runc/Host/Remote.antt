-- ===== src/Runc/Host/Remote.antt =====
-- core/runc/runtime/grpc/runtime.go with core/runc/server/runc.go: what a call of the shim's runtime
-- is, next to a call of the runtime in the guest.
use runm.Base.{
  ◌∙◌, ◌&&◌, ◌≡◌, refl, Bool, true, false, String, Option, none, List, [], ◌∷◌, map, ℤ,
  if◌then◌else◌, arith,
}
use runm.Base.Text.{codes, contains, has_suffix, has_suffix-contains}
use runm.Base.Errors.{Error, wrap, error_text, is_error, err_not_found}
use runm.Base.Go.{Go, Outcome, Done, ok, err, panic, pure, call, is_err, ◌>>=◌, ◌>>◌}
use runm.Process.Kill.{check_kill_error, is_finished_text, is_error-check_kill_error}
use runm.Runc.State.{State}
use runm.Runc.Options.{CreateOpts, ExecOpts, KillOpts, DeleteOpts}
use runm.Runc.Convert.{
  to_int32, kill_opts_to_proto, kill_opts_from_proto, delete_opts_to_proto, delete_opts_from_proto,
}
use runm.Runc.RoundTrip.{
  Carries, FitsInt32, to_int32_fits, create_opts_survive, exec_opts_survive, create_opts_in_guest,
  exec_opts_in_guest,
}
use runm.Runc.Server.{Server}
use runm.Runc.Guest.{
  Guest, serve_read_pid_file, serve_create, serve_start, serve_delete, serve_kill, serve_pause,
  serve_resume, serve_ps, serve_exec, close_opened, close_each,
}
use runm.Runc.Host.{
  Link, Call, read_pid_file, start, pause, resume, ps, create, delete, kill, exec, Answer, done,
  pid, pids, remote, remote_read_pid_file, remote_create, remote_start, remote_delete, remote_kill,
  remote_pause, remote_resume, remote_ps, remote_exec,
}

-- The texts that the guest and the host put before an error.
abbrev pub guest_text : {A : Type 0} → Call A → String
guest_text (read_pid_file p) = "failed to read pid file"
guest_text (create i b o) = "failed to create container"
guest_text (start i) = "starting container"
guest_text (delete i o) = "deleting container"
guest_text (kill i n o) = "killing container"
guest_text (pause i) = "pausing container"
guest_text (resume i) = "resuming container"
guest_text (ps i) = "ps"
guest_text (exec i p o) = "exec"

abbrev pub host_text : {A : Type 0} → Call A → String
host_text (read_pid_file p) = "reading pid file"
host_text (create i b o) = "creating container"
host_text c = guest_text c

abbrev pub is_kill : {A : Type 0} → Call A → Bool
is_kill (kill i n o) = true
is_kill c = false

abbrev pub narrow : Answer → Answer
narrow done = done
narrow (pid n) = pid (to_int32 n)
narrow (pids ns) = pids (map to_int32 ns)

module _ {A W : Type 0} (l : Link A W) (g : Guest A W) where
  -- The call as the runtime of the guest answers it
  abbrev pub local : Call A → Go W Answer
  local (read_pid_file path) = g.read_pid_file path >>= λ n. pure (pid n)
  local (create id bundle opts) = g.create id bundle opts >> pure done
  local (start id) = g.start id >> pure done
  local (delete id opts) = g.delete id opts >> pure done
  local (kill id signal opts) = g.kill id signal opts >> pure done
  local (pause id) = g.pause id >> pure done
  local (resume id) = g.resume id >> pure done
  local (ps id) = g.ps id >>= λ ns. pure (pids ns)
  local (exec id spec opts) = g.exec id spec opts >> pure done

  -- What happens in the guest: streams are the guest's own under the references of the host's, and a
  -- Delete closes what is open, too.
  abbrev pub guest_does : Call A → Go (Server × W) Answer
  guest_does (delete id opts) x =
      (call (local (delete id opts)) >>= λ a. close_opened g >> pure a) x
  guest_does (create id bundle opts) (s, w) =
      call (local (create id bundle (create_opts_in_guest s.state opts))) (s, w)
  guest_does (exec id spec opts) (s, w) =
      call (local (exec id spec (exec_opts_in_guest s.state opts))) (s, w)
  guest_does c x = call (local c) x

  -- How an error of the guest's runtime comes back
  abbrev pub relay : Call A → Error → Outcome Answer
  relay c e =
      let carried = l.carry (wrap (guest_text c) e) in
      if is_kill c && has_suffix (error_text g.sentinel_text e) (codes "container not running")
      then ok done
      else (if is_kill c
            && contains (error_text g.sentinel_text carried)
                (codes "failed to write client preface")
          then ok done
          else err (wrap (host_text c) carried))

  abbrev pub report : Call A → Outcome Answer → Outcome Answer
  report c (ok a) = ok (narrow a)
  report c (err e) = relay c e
  report c panic = panic

  -- The link stands.
  pub record IsUp : Type 0 where
    pub sends : (w : W) → l.unsent w ≡ none
    pub answers : (w : W) → l.lost w ≡ none

  -- The message says all that the call says: references under which the guest has streams, no extra files, a
  -- signal of 32 bits, a process that survives JSON.
  abbrev pub Fits : Call A → State → Type 0
  Fits (create id bundle opts) s =
      (opts.extra_files ≡ [])
      × Carries s.open_ios opts.io
      × Carries s.open_consoles opts.console_socket
  Fits (exec id spec opts) s =
      ((p : String) × (l.marshal spec ≡ ok p) × (g.unmarshal p ≡ ok spec))
      × Carries s.open_ios opts.io
      × Carries s.open_consoles opts.console_socket
  Fits (kill id signal opts) s = FitsInt32 signal
  Fits c s = Unit {0}

  create-remote :
      (id bundle : String) (opts : CreateOpts) (s : Server) (w : W)
      → IsUp
      → Fits (create id bundle opts) s.state
      → remote l g (create id bundle opts) (s, w) ≡ (
        report (create id bundle opts) (guest_does (create id bundle opts) (s, w)).0,
        (guest_does (create id bundle opts) (s, w)).1,
      )
  unfolding remote remote_create serve_create
  create-remote id bundle opts s w up (f, i, c) =
      let (m, sent, found) = create_opts_survive g.open_file s.state opts w f i c in
      ground (
        arith,
        sent,
        found,
        up.sends w,
        up.answers (g.create id bundle (create_opts_in_guest s.state opts) w).1,
      )

  exec-remote :
      (id : String) (spec : A) (opts : ExecOpts) (s : Server) (w : W)
      → IsUp
      → Fits (exec id spec opts) s.state
      → remote l g (exec id spec opts) (s, w) ≡ (
        report (exec id spec opts) (guest_does (exec id spec opts) (s, w)).0,
        (guest_does (exec id spec opts) (s, w)).1,
      )
  unfolding remote remote_exec serve_exec
  exec-remote id spec opts s w up ((p, q, r), i, c) =
      let (m, sent, found) = exec_opts_survive s.state opts i c in
      ground (
        arith,
        q,
        r,
        sent,
        found,
        up.sends w,
        up.answers (g.exec id spec (exec_opts_in_guest s.state opts) w).1,
      )

  close_each-ok :
      {K V : Type 0} (close : V → Go W Done) (opened : K → Option V) (ks : List K) (x : Server × W)
      → is_err (close_each g close opened ks x).0 ≡ false
  unfolding close_each
  close_each-ok close opened [] x = refl
  close_each-ok close opened (k ∷ ks) x = grind (arith, close_each-ok close opened ks)

  close_opened-ok : (x : Server × W) → is_err (close_opened g x).0 ≡ false
  unfolding close_opened
  close_opened-ok x = grind (arith, close_each-ok)

  delete-remote :
      (id : String) (opts : DeleteOpts) (s : Server) (w : W)
      → IsUp
      → remote l g (delete id opts) (s, w) ≡ (
        report (delete id opts) (guest_does (delete id opts) (s, w)).0,
        (guest_does (delete id opts) (s, w)).1,
      )
  unfolding remote remote_delete serve_delete delete_opts_to_proto delete_opts_from_proto
  delete-remote id opts s w up =
      let x : Server × W = (s, (g.delete id opts w).1) in
      ground (
        arith,
        up.sends w,
        up.answers (g.delete id opts w).1,
        up.answers (close_opened g x).1.1,
        close_opened-ok x,
      )

  pub remote_lem :
      (c : Call A) (s : Server) (w : W)
      → IsUp
      → Fits c s.state
      → remote l g c (s, w) ≡ (report c (guest_does c (s, w)).0, (guest_does c (s, w)).1)
  unfolding remote remote_read_pid_file remote_start remote_delete remote_kill remote_pause
      remote_resume remote_ps serve_read_pid_file serve_start serve_delete serve_kill serve_pause
      serve_resume serve_ps kill_opts_to_proto kill_opts_from_proto delete_opts_to_proto
      delete_opts_from_proto
  remote_lem (create id bundle opts) s w up f = create-remote id bundle opts s w up f
  remote_lem (exec id spec opts) s w up f = exec-remote id spec opts s w up f
  remote_lem (read_pid_file p) s w up f =
      ground (arith, up.sends w, up.answers (g.read_pid_file p w).1)
  remote_lem (start id) s w up f = ground (arith, up.sends w, up.answers (g.start id w).1)
  remote_lem (delete id opts) s w up f = delete-remote id opts s w up
  remote_lem (kill id n opts) s w up f =
      ground (arith, up.sends w, up.answers (g.kill id n opts w).1, to_int32_fits n f)
  remote_lem (pause id) s w up f = ground (arith, up.sends w, up.answers (g.pause id w).1)
  remote_lem (resume id) s w up f = ground (arith, up.sends w, up.answers (g.resume id w).1)
  remote_lem (ps id) s w up f = ground (arith, up.sends w, up.answers (g.ps id w).1)

  -- The kill of a container of which the guest's runtime says that it does not run is a success on
  -- the host, where checkKillError of that error, had it come back, is a not-found error.
  pub kill_not_running :
      (id : String) (n : ℤ) (opts : KillOpts) (s : Server) (w v : W) (e : Error)
      → IsUp
      → FitsInt32 n
      → g.kill id n opts w ≡ (err e, v)
      → has_suffix (error_text g.sentinel_text e) (codes "container not running") ≡ true
      → (remote l g (kill id n opts) (s, w) ≡ (ok done, (s, v)))
        × (is_error err_not_found (check_kill_error g.sentinel_text e) ≡ true)
  unfolding is_finished_text
  kill_not_running id n opts s w v e up f k h =
      let t = error_text g.sentinel_text e in
      (
        remote_lem (kill id n opts) s w up f ∙ ground (arith, k, h),
        is_error-check_kill_error g.sentinel_text e
            ∙ ground (arith, has_suffix-contains t (codes "container not running") h),
      )
