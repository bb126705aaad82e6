-- ===== src/Service/Restart.antt =====
-- A second Start of an exec process that runs already.
use runm.Base.{
  ℕ, ◌+◌, length, length-append, ◌≡◌, ◌∙◌, ap, true, false, none, some, List, [], ◌∷◌, ◌++◌,
  is_zero, arith,
}
use runm.Base.Go.{ok, skip, ◌>>◌}
use runm.Service.Maps.{ContainerPid, values, values-append, same_pid, same_pid_refl}
use runm.Service.Lifecycle.{
  Exit, ReaperExit, ContainerProcess, Service, Processes, int_pred, exec_done, exit_key,
  started_key, handle_process_exit, handle_collected, collect, process_exit, begin_start,
  fail_start, pre_start, handle_started, claim, claim_exits, handle_exits,
}
use runm.Service.Counts.{IsQuiet, handle_process_exit_lem, int_pred-int_suc}

module _ {S : Type 0} (ps : Processes S) where
  -- A Start of an exec that the container refuses although the process has a pid, as it does for
  -- one that is running, leaves the counter where it was and enters the process among the running
  -- ones once more.
  refused_start_registers :
      (c p : ℕ) (s : Service) (t : S)
      → s.container_init_exit c ≡ none
      → s.exec_count_subscribers c ≡ none
      → is_zero (ps.process_pid p t) ≡ false
      → let begun = (begin_start ps true c (s, t)).1 in
        let (r, u) = fail_start ps true c s.next_address (some p) begun in
        (r ≡ ok tt)
        × (u.0.running_execs c ≡ s.running_execs c)
        × (u.0.running
            ≡ s.running
              ++ (started_key ps c (ps.process_pid p t), record { container = c; process = p })
                ∷ [])
  unfolding begin_start pre_start fail_start exec_done handle_started claim claim_exits handle_exits
  refused_start_registers c p s t i n z = ground (arith, int_pred-int_suc (s.running_execs c))

  -- One more exit event.
  events-handle_process_exit :
      (e : Exit) (c p : ℕ) (s : Service) (t : S)
      → IsQuiet ps
      → length (handle_process_exit ps e c p (s, t)).1.0.events ≡ length s.events + 1
  events-handle_process_exit e c p s t q = omega (
    arith,
    ap length (handle_process_exit_lem ps e c p s t q).1,
    length-append {0} s.events (_ ∷ []),
  )

  handle_twice :
      (e : Exit) (c p : ℕ) (s : Service) (t : S)
      → IsQuiet ps
      → ps.is_init p ≡ false
      → let (r, u) =
          (handle_process_exit ps e c p >> (handle_process_exit ps e c p >> skip)) (s, t) in
        (r ≡ ok tt)
        × (u.0.running_execs c ≡ int_pred (int_pred (s.running_execs c)))
        × (length u.0.events ≡ length s.events + 2)
  handle_twice e c p s t q i =
      let u = (handle_process_exit ps e c p (s, t)).1 in
      ground (
        arith,
        handle_process_exit_lem ps e c p s t q,
        handle_process_exit_lem ps e c p u.0 u.1 q,
        events-handle_process_exit e c p s t q,
        events-handle_process_exit e c p u.0 u.1 q,
      )

  -- The exit of a process that is entered twice is published twice and counts for two execs.
  exit_twice :
      (ce : ReaperExit) (cp : ContainerProcess) (s : Service) (t : S)
      → IsQuiet ps
      → values (exit_key ce) s.running ≡ cp ∷ cp ∷ []
      → ps.is_init cp.process ≡ false
      → let (r, u) = process_exit ps ce (s, t) in
        (r ≡ ok tt)
        × (u.0.running_execs cp.container ≡ int_pred (int_pred (s.running_execs cp.container)))
        × (length u.0.events ≡ length s.events + 2)
  unfolding process_exit collect handle_collected
  exit_twice ce cp s t q v i =
      rw (v, handle_collected) (rw i (handle_twice ce.exit cp.container cp.process _ t q i))

  values-entered_twice :
      (k j : ContainerPid) (cp : ContainerProcess) (m n : List (ContainerPid × ContainerProcess))
      → k ≡ j
      → values k m ≡ cp ∷ []
      → n ≡ m ++ (j, cp) ∷ []
      → values k n ≡ cp ∷ cp ∷ []
  values-entered_twice k j cp m n e h q = ground (
    arith,
    h,
    ap (values k) q,
    values-append k m ((j, cp) ∷ []),
    ap (same_pid j) e,
    same_pid_refl j,
  )

  -- An exec of a container whose init process runs is entered once as running, with a pid that is
  -- not 0; a Start of it that the container refuses hands it back. When its exit is reported after
  -- that, and exits are recorded without error, the exit is published twice, and the counter of execs
  -- goes down by two from where it stood before the refused Start.
  pub restarted_exits_twice :
      (ce : ReaperExit) (c p : ℕ) (s : Service) (t : S)
      → IsQuiet ps
      → ps.is_init p ≡ false
      → s.container_init_exit c ≡ none
      → s.exec_count_subscribers c ≡ none
      → is_zero (ps.process_pid p t) ≡ false
      → exit_key ce ≡ started_key ps c (ps.process_pid p t)
      → values (exit_key ce) s.running ≡ record { container = c; process = p } ∷ []
      → let u = (fail_start ps true c s.next_address (some p) (begin_start ps true c (s, t)).1).1 in
        let (r, v) = process_exit ps ce u in
        (r ≡ ok tt)
        × (v.0.running_execs c ≡ int_pred (int_pred (s.running_execs c)))
        × (length v.0.events ≡ length u.0.events + 2)
  restarted_exits_twice ce c p s t q i n m z k h =
      let u = (fail_start ps true c s.next_address (some p) (begin_start ps true c (s, t)).1).1 in
      let cp : ContainerProcess = record { container = c; process = p } in
      let l = refused_start_registers c p s t n m z in
      let w =
        exit_twice ce cp u.0 u.1 q
          (values-entered_twice (exit_key ce) (started_key ps c (ps.process_pid p t)) cp s.running
            u.0.running k h l.2)
          i in
      (w.0, w.1 ∙ ap (λ r. int_pred (int_pred r)) l.1, w.2)
