-- ===== src/Service/Lifecycle/Starts.antt =====
-- task/service.go: Start, cut where it lets go of lifecycleMu.
use runm.Base.{ℕ, Bool, true, false, Option, none, some, is_some, if◌then◌else◌}
use runm.Base.Errors.{wrap, sentinel, err_failed_precondition}
use runm.Base.Go.{Go, Done, ok, fail, skip, ignore, call, update, self, ◌>>=◌, ◌>>◌}
use runm.Service.Lifecycle.Record.{
  to_u32, int_suc, Service, Processes, send, set_count, exec_done, task_start, task_exec_started,
}
use runm.Service.Lifecycle.Exits.{pre_start, handle_started}

module _ {S : Type 0} (ps : Processes S) where
  -- Start, up to the call of the container: a process of a container whose init process has exited
  -- is refused, and a process that is admitted is counted. `exec` is false for the init process.
  unfoldable pub begin_start : Bool → ℕ → Go (Service × S) ℕ
  begin_start false c = pre_start ps (some c)
  begin_start true c = do
    s ← self
    if is_some (s.container_init_exit c)
        then fail (wrap "container init process is not running" (sentinel err_failed_precondition))
        else (do update (λ u. set_count c (int_suc (u.running_execs c)) u); pre_start ps none)

  -- Start after the container has failed to start the process, which it hands back if there is one:
  -- an exec's count is given back.
  unfoldable pub fail_start : Bool → ℕ → ℕ → Option ℕ → Go (Service × S) Done
  fail_start exec c a p = do if exec then update (exec_done c) else skip; handle_started ps a c p

  -- Start after the process has started: the event, then its exit if it came early.
  unfoldable pub end_start : Bool → ℕ → ℕ → ℕ → Go (Service × S) Done
  end_start exec c a p = do
    if exec then skip else ignore (call (ps.toggle_controllers p))
    (λ s. (
      ok tt,
      (
        send
            (if exec
              then task_exec_started (ps.container_id c) (ps.process_id p)
                  (to_u32 (ps.process_pid p s.1))
              else task_start (ps.container_id c) (to_u32 (ps.process_pid p s.1)))
            s.0,
        s.1,
      ),
    ))
    handle_started ps a c (some p)
