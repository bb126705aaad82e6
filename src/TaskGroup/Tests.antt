-- ===== src/TaskGroup/Tests.antt =====
-- Groups that run one task, wait and close; and headers, failures and clean-ups.
use runm.Base.{
  ℕ, ◌+◌, ◌≤◌, ◌≡◌, ◌≢◌, refl, String, true, List, [], ◌∷◌, ◌++◌, arith, nat_eq, if◌then◌else◌,
}
use mathlib.Core.List.{reverse}
use runm.Base.Text.{codes, contains}
use runm.Base.Decimal.{decimal}
use runm.Base.Errors.{Error, Sentinel, new}
use runm.Base.Go.{Go, Done, ok, err, panic}
use runm.TaskGroup.Goroutines.{parse_goroutine_header, is_blocking_state, get_goroutine_id}
use runm.TaskGroup.Headers.{parse_goroutine_header_lem}
use runm.TaskGroup.Group.{
  Group, CleanupEntry, new_group, running as now_running, admit, acquire, start_group,
  set_fundamental_error, cancel_with_reason, update_task_status,
}
use runm.TaskGroup.Cleanup.{execute_cleanup, run_all, execute_cleanup_lem}
use runm.TaskGroup.Run.{
  System, Reach, here, next, IsNew, free, by_wait, fresh, wait_in, done, not_called, locked,
  cleaning, returned, not_closed, closed, admits, acquires, launches, begins, wait_starts,
  wait_sees_all_done, wait_sees_cancelled, wait_enters_once, wait_skips_once, close_cancels,
  close_enters_once, close_reads, close_clears,
}
use runm.TaskGroup.Bounds.{running_bounded}
use runm.TaskGroup.Wait.{wait_never_returns, wait_needs_close}

abbrev sentinel_text : Sentinel → List ℕ
sentinel_text s = codes "context canceled"

parse_goroutine_header_lem_example :
    parse_goroutine_header (
      codes "goroutine "
      ++ (decimal 17 ++ b' ' ∷ b'[' ∷ (codes "chan receive" ++ b']' ∷ codes ":")))
    ≡ (17, codes "chan receive", is_blocking_state (codes "chan receive"))
parse_goroutine_header_lem_example =
    parse_goroutine_header_lem 17 (codes "chan receive") (codes ":") (omega arith) refl

chan_receive_blocks : is_blocking_state (codes "chan receive, 5 minutes") ≡ true
unfolding is_blocking_state contains
chan_receive_blocks = refl

goroutine_of_stack : get_goroutine_id (codes "goroutine 17 [running]:") ≡ 17
unfolding get_goroutine_id
goroutine_of_stack = refl

abbrev two_failures : List (String × Error)
two_failures = ("a", new "first") ∷ ("a", new "second") ∷ []

-- Clean-up functions that write their number; the second fails and the third panics.
abbrev logs : ℕ → Go (List ℕ) Done
logs f w = (if nat_eq f 2 then err (new "busy") else (if nat_eq f 3 then panic else ok tt), f ∷ w)

abbrev three : List CleanupEntry
three =
    record { name = codes "a"; func = 1 }
    ∷ record { name = codes "b"; func = 2 }
    ∷ record { name = codes "c"; func = 3 }
    ∷ []

execute_cleanup_lem_example : execute_cleanup logs three [] ≡ run_all logs (reverse three) []
execute_cleanup_lem_example = execute_cleanup_lem logs three []

last_first : execute_cleanup logs three [] ≡ 1 ∷ 2 ∷ 3 ∷ []
unfolding execute_cleanup
last_first = refl

abbrev made : System
made = record {
  group = new_group 2 true;
  queued = 0;
  admitted = 0;
  launched = 0;
  running = 0;
  ended = 0;
  reported = 0;
  leaving = 0;
  lock = free;
  once = fresh;
  waiter = not_called;
  closer = not_closed;
}

made-IsNew : IsNew 2 made
made-IsNew = ground arith

-- One task runs.
abbrev admitted_group : Group
admitted_group = (admit "a" (new_group 2 true)).1

abbrev token_group : Group
token_group = record admitted_group { tokens = 1 }

abbrev one_runs : System
one_runs = record made {
  group = update_task_status 1 now_running (record token_group { wg = 1 });
  running = 1;
}

one_runs_run : Reach sentinel_text made one_runs
unfolding admit start_group acquire
one_runs_run =
    next
      (next
        (next (next here (admits "a" 1 admitted_group refl refl refl))
          (acquires 0 token_group refl refl refl))
        (launches 0 refl refl))
      (begins 1 0 refl refl refl)

running_bounded_example : 0 + 0 + 1 + 0 + 0 ≤ 2
running_bounded_example = (running_bounded sentinel_text 2 made one_runs made-IsNew one_runs_run).0

-- Wait finds no goroutine, and goes on to its end.
abbrev wait_ends : System
wait_ends = record made {
  group = record (start_group (new_group 2 true)) { finished = true; cancelled = true };
  lock = by_wait;
  waiter = locked;
}

wait_ends_run : Reach sentinel_text made wait_ends
unfolding start_group
wait_ends_run =
    next (next here (wait_starts refl refl refl)) (wait_sees_all_done refl refl refl refl refl)

abbrev wait_hangs : System
wait_hangs = record wait_ends { once = wait_in; waiter = cleaning }

wait_never_returns_example : wait_hangs.waiter ≢ returned
wait_never_returns_example =
    wait_never_returns sentinel_text 2 made wait_ends wait_hangs made-IsNew wait_ends_run refl (cc)
      (cc) (next here (wait_enters_once refl refl refl))

-- Close has read what to clean up before Wait takes `mu`, and ends while Wait holds it.
abbrev closed_group : Group
closed_group = cancel_with_reason "Close() called" (new_group 2 true)

abbrev all_returned : System
all_returned = record made {
  group = record (set_fundamental_error (new "context canceled") (start_group closed_group)) {
    finished = true;
    cancelled = true;
  };
  once = done;
  waiter = returned;
  closer = closed;
}

all_returned_run : Reach sentinel_text made all_returned
unfolding start_group cancel_with_reason set_fundamental_error
all_returned_run =
    next
      (next
        (next
          (next
            (next
              (next (next here (close_cancels refl refl refl refl))
                (close_enters_once refl refl refl))
              (close_reads refl refl refl))
            (wait_starts refl refl refl))
          (wait_sees_cancelled (new "context canceled") refl refl refl refl refl))
        (close_clears refl refl))
      (wait_skips_once refl refl refl)

wait_needs_close_example : all_returned.closer ≡ closed
wait_needs_close_example =
    (wait_needs_close sentinel_text 2 made all_returned made-IsNew all_returned_run refl).0

-- Two tasks of one name fail, and a third of another name.
abbrev three_failures : List (String × Error)
three_failures = ("a", new "x") ∷ ("b", new "y") ∷ ("a", new "z") ∷ []
