-- ===== src/Service/Counts.antt =====
-- The counter of running execs, and the init exit that waits for it.
use runm.Base.{
  ℕ, suc, ◌≡◌, refl, true, List, [], ◌∷◌, ◌++◌, ℤ, pos, negsuc, is_zero, nat_eq, if◌then◌else◌,
  arith, is_some,
}
use runm.Base.Go.{ok, is_err}
use runm.Service.Lifecycle.{
  Exit, Waiter, Service, Processes, task_exit, to_u32, int_suc, int_pred, exec_done,
  handle_process_exit, hold_init_exit, hold_or_publish, wake, begin_start, pre_start,
}

pub int_pred-int_suc : (n : ℤ) → int_pred (int_suc n) ≡ n
int_pred-int_suc (pos n) = refl
int_pred-int_suc (negsuc ℕ.zero) = refl
int_pred-int_suc (negsuc (suc n)) = refl

module _ {S : Type 0} (ps : Processes S) where
  -- Processes whose exits are recorded without an error or a panic.
  pub record IsQuiet : Type 0 where
    pub set_exited : (p : ℕ) (n : ℤ) (t : S) → (ps.set_exited p n t).0 ≡ ok tt
    pub close_io : (p : ℕ) (t : S) → (ps.close_io p t).0 ≡ ok tt

  -- Handling the exit of a process publishes one exit event, the last of all, with the process's
  -- ids, its pid and its status; an exec's container counts one exec less, an init process leaves
  -- the counters alone.
  pub handle_process_exit_lem :
      (e : Exit) (c p : ℕ) (s : Service) (t : S)
      → IsQuiet
      → let t' = (ps.close_io p (ps.set_exited p e.status t).1).1 in
        let (r, u) = handle_process_exit ps e c p (s, t) in
        (r ≡ ok tt)
        × (u.0.events
            ≡ s.events
              ++ task_exit
                  (ps.container_id c)
                  (ps.process_id p)
                  (to_u32 e.pid)
                  (to_u32 e.status)
                  (ps.exited_at p t')
                ∷ [])
        × (u.0.running_execs c
            ≡ (if ps.is_init p then s.running_execs c else int_pred (s.running_execs c)))
        × (u.0.running ≡ s.running)
        × (u.0.container_init_exit ≡ s.container_init_exit)
  unfolding handle_process_exit exec_done
  handle_process_exit_lem e c p s t q =
      ground (arith, q.set_exited p e.status t, q.close_io p (ps.set_exited p e.status t).1)

  -- While execs of the container are counted, the exit of its init process is not published: no
  -- event is sent, and the exit is left with a waiter that the container's execs will tell their
  -- number. With none counted it is published at once, as the last event.
  hold_or_publish_lem :
      (e : Exit) (c p n : ℕ) (s : Service) (t : S)
      → IsQuiet
      → s.running_execs c ≡ pos n
      → ps.is_init p ≡ true
      → let t' = (ps.close_io p (ps.set_exited p e.status t).1).1 in
        let (r, u) = hold_or_publish ps e c p (s, t) in
        (r ≡ ok tt)
        × (u.0.events ≡ (
            if nat_eq n 0
            then s.events
              ++ task_exit
                  (ps.container_id c)
                  (ps.process_id p)
                  (to_u32 e.pid)
                  (to_u32 e.status)
                  (ps.exited_at p t')
                ∷ []
            else s.events))
        × (u.0.waiters ≡ (
            if nat_eq n 0
            then s.waiters
            else record { exit = e; container = c; process = p } ∷ s.waiters))
  unfolding hold_or_publish hold_init_exit handle_process_exit
  hold_or_publish_lem e c p n s t q k i =
      ground (arith, q.set_exited p e.status t, q.close_io p (ps.set_exited p e.status t).1)

  -- The waiter publishes the init exit when it is told 0, and sends nothing for any other number.
  wake_lem :
      (w : Waiter) (n : ℤ) (ch : List ℤ) (s : Service) (t : S)
      → IsQuiet
      → ps.is_init w.process ≡ true
      → let t' = (ps.close_io w.process (ps.set_exited w.process w.exit.status t).1).1 in
        let (r, u) = wake ps w n ch (s, t) in
        (r ≡ ok tt)
        × (u.0.events ≡ (
            if is_zero n
            then s.events
              ++ task_exit
                  (ps.container_id w.container)
                  (ps.process_id w.process)
                  (to_u32 w.exit.pid)
                  (to_u32 w.exit.status)
                  (ps.exited_at w.process t')
                ∷ []
            else s.events))
  unfolding wake handle_process_exit
  wake_lem w n ch s t q i = ground (
    arith,
    q.set_exited w.process w.exit.status t,
    q.close_io w.process (ps.set_exited w.process w.exit.status t).1,
  )

  -- Once the exit of a container's init process has been stashed, no exec of it starts: the call
  -- fails and changes nothing. Before, an exec is counted.
  begin_start_lem :
      (c : ℕ) (s : Service) (t : S)
      → let (r, u) = begin_start ps true c (s, t) in
        if is_some (s.container_init_exit c)
        then (is_err r ≡ true) × (u ≡ (s, t))
        else (r ≡ ok s.next_address) × (u.0.running_execs c ≡ int_suc (s.running_execs c))
  unfolding begin_start pre_start
  begin_start_lem c s t = ground arith
