-- ===== src/Service/Lifecycle/Exits.antt =====
-- task/service.go: how a started process meets its exit. preStart, handleStarted, cleanup, one turn
-- of the loop of processExits, handleProcessExit, and handleInitExit with its waiting goroutine. Each
-- part that holds lifecycleMu is a function.
use runm.Base.{
  put, ℕ, suc, Bool, true, false, Option, none, some, List, [], ◌∷◌, ◌++◌, ℤ, pos, negsuc, is_zero,
  nat_eq, if◌then◌else◌,
}
use runm.Base.Go.{Go, Done, ok, panic, skip, ignore, call, update, ◌>>=◌, ◌>>◌}
use runm.Service.Maps.{ContainerPid, values, without}
use runm.Service.Lifecycle.Record.{
  to_u32, Exit, ReaperExit, ContainerProcess, Waiter, Service, Processes, exit_key, inform,
  exits_of, unsubscribe, drop_container, send, set_count, exec_done, receive, forget, task_exit,
}

module _ {S : Type 0} (ps : Processes S) where
  -- preStart; the address of the subscription stands for the two closures.
  unfoldable pub pre_start : Option ℕ → Go (Service × S) ℕ
  pre_start none (s, t) = (
    ok s.next_address,
    (
      record s {
        exit_subscribers = record { address = s.next_address; exits = [] } ∷ s.exit_subscribers;
        next_address = suc s.next_address;
      },
      t,
    ),
  )
  pre_start (some c) (s, t) = (
    ok s.next_address,
    (
      record s {
        exit_subscribers = record { address = s.next_address; exits = [] } ∷ s.exit_subscribers;
        next_address = suc s.next_address;
        running =
            drop_container (record { pid = ps.container_pid c t; container_id = ps.container_id c })
              c s.running;
      },
      t,
    ),
  )

  -- handleProcessExit, the part that takes no lock
  abbrev pub report_exit : Exit → ℕ → ℕ → Go (Service × S) Done
  report_exit e c p = do
    call (ps.set_exited p e.status)
    call (ps.close_io p)
    (λ s. (
      ok tt,
      (
        send
            (task_exit (ps.container_id c) (ps.process_id p) (to_u32 e.pid) (to_u32 e.status)
              (ps.exited_at p s.1))
            s.0,
        s.1,
      ),
    ))

  -- handleProcessExit
  unfoldable pub handle_process_exit : Exit → ℕ → ℕ → Go (Service × S) Done
  handle_process_exit e c p =
      report_exit e c p >> (if ps.is_init p then skip else update (exec_done c))

  -- `for _, ee := range ees { s.handleProcessExit(ee, c, p) }`
  unfoldable pub handle_exits : List Exit → ℕ → ℕ → Go (Service × S) Done
  handle_exits [] c p = skip
  handle_exits (e ∷ es) c p = handle_process_exit e c p >> handle_exits es c p

  -- The key under which handleStarted looks for a process.
  abbrev pub started_key : ℕ → ℤ → ContainerPid
  started_key c pid = record { pid = pid; container_id = ps.container_id c }

  -- The locked part of handleStarted, given the exits that the subscription holds for the process:
  -- those are to be handled now; without any, a process with a pid is running.
  unfoldable pub claim_exits : List Exit → ℕ → ℕ → ℕ → ℤ → Service → List Exit × Service
  claim_exits (e ∷ es) a c p pid s =
      (e ∷ es, record s { exit_subscribers = unsubscribe a s.exit_subscribers })
  claim_exits [] a c p pid s = (
    [],
    (if is_zero pid
        then record s { exit_subscribers = unsubscribe a s.exit_subscribers }
        else record s {
          exit_subscribers = unsubscribe a s.exit_subscribers;
          running = s.running ++ (started_key c pid, record { container = c; process = p }) ∷ [];
        }),
  )

  unfoldable pub claim : ℕ → ℕ → ℕ → ℤ → Service → List Exit × Service
  claim a c p pid s =
      claim_exits (values (started_key c pid) (exits_of a s.exit_subscribers)) a c p pid s

  -- handleStarted. A nil process counts as pid 0, and an exit recorded for that pid would be set on
  -- the nil process.
  unfoldable pub handle_started : ℕ → ℕ → Option ℕ → Go (Service × S) Done
  handle_started a c none (s, t) =
      let (ees, s') = claim a c 0 (pos 0) s in
      elim ees [ [] ↦ (ok tt, (s', t)) | e ∷ es ↦ (panic, (s', t)) ]
  handle_started a c (some p) (s, t) =
      let (ees, s') = claim a c p (ps.process_pid p t) s in handle_exits ees c p (s', t)

  -- cleanup: nothing is left of a subscription that handleStarted took.
  unfoldable pub cleanup : ℕ → Service → Service
  cleanup a s = record s { exit_subscribers = unsubscribe a s.exit_subscribers }

  -- The exits of init processes are stashed before the lock is given back.
  abbrev pub stash : Exit → List ContainerProcess → (ℕ → Option Exit) → ℕ → Option Exit
  stash e [] f = f
  stash e (cp ∷ cps) f =
      stash e cps (if ps.is_init cp.process then put cp.container (some e) f else f)

  -- The locked part of a turn of processExits: the processes that have exited.
  unfoldable pub collect : ReaperExit → Service → List ContainerProcess × Service
  collect ce s =
      let cps = values (exit_key ce) s.running in
      (
        cps,
        record s {
          exit_subscribers = inform ce s.exit_subscribers;
          container_init_exit = stash ce.exit cps s.container_init_exit;
          running = without (exit_key ce) s.running;
        },
      )

  -- The locked part of handleInitExit: true if there is nothing to wait for. A channel of negative
  -- capacity cannot be made.
  unfoldable pub hold_init_exit : Exit → ℕ → ℕ → Go (Service × S) Bool
  hold_init_exit e c p (s, t) = elim (s.running_execs c) [
    | pos n ↦
        (if nat_eq n 0 then (ok true, (set_count c (pos 0) s, t)) else (
          ok false,
          (
            record s {
              exec_count_subscribers = put c (some []) s.exec_count_subscribers;
              waiters = record { exit = e; container = c; process = p } ∷ s.waiters;
            },
            t,
          ),
        ))
    | negsuc n ↦ (panic, (s, t))
  ]

  -- handleInitExit: the other processes of the container are killed, where its bundle says so.
  unfoldable pub kill_children : ℕ → ℕ → Go (Service × S) Done
  kill_children c p (s, t) =
      if ps.should_kill_all_on_exit c t
      then ignore (call (ps.kill_all p)) (s, t)
      else (ok tt, (s, t))

  -- handleInitExit after that, up to the start of the goroutine
  unfoldable pub hold_or_publish : Exit → ℕ → ℕ → Go (Service × S) Done
  hold_or_publish e c p = do
    free ← hold_init_exit e c p
    if free then handle_process_exit e c p else skip

  -- handleInitExit
  unfoldable pub handle_init_exit : Exit → ℕ → ℕ → Go (Service × S) Done
  handle_init_exit e c p = kill_children c p >> hold_or_publish e c p

  -- `for _, cp := range cps`
  unfoldable pub handle_collected : Exit → List ContainerProcess → Go (Service × S) Done
  handle_collected e [] = skip
  handle_collected e (cp ∷ cps) =
      (if ps.is_init cp.process
        then handle_init_exit e cp.container cp.process
        else handle_process_exit e cp.container cp.process)
      >> handle_collected e cps

  -- One turn of the loop of processExits
  unfoldable pub process_exit : ReaperExit → Go (Service × S) Done
  process_exit ce (s, t) = let (cps, s') = collect ce s in handle_collected ce.exit cps (s', t)

  -- One receive of the goroutine of handleInitExit, from a channel that holds `n` and then `ch`:
  -- at 0 it publishes the init exit, and drops its subscription and the counter.
  unfoldable pub wake : Waiter → ℤ → List ℤ → Go (Service × S) Done
  wake w n ch =
      if is_zero n
      then (do
        update (receive w.container ch)
        handle_process_exit w.exit w.container w.process
        update (forget w.container))
      else update (receive w.container ch)

  -- Several turns of processExits.
  unfoldable pub deliver : List ReaperExit → Go (Service × S) Done
  deliver [] = skip
  deliver (ce ∷ ces) = process_exit ce >> deliver ces
