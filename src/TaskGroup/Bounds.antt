-- ===== src/TaskGroup/Bounds.antt =====
-- How many tasks run at once, and what wg counts.
use runm.Base.{ℕ, ◌+◌, ◌≤◌, ◌≡◌, String, Option, none, some, List, arith}
use runm.Base.Errors.{Error, Sentinel}
use runm.TaskGroup.Group.{
  Group, Ending, Status, canceled, running as now_running, admit, acquire, release, give_back,
  start_group, update_task_status, set_fundamental_error, set_task_failure_error, end_task,
  report_error, cancel_with_reason,
}
use runm.TaskGroup.Run.{
  System, Step, Reach, here, next, IsNew, cancels, admits, refuses, acquires, gives_back, gives_up,
  launches, begins, ends, reports, releases, leaves, wait_starts, wait_sees_all_done,
  wait_sees_cancelled, wait_sees_finished, wait_enters_once, wait_reads, wait_clears,
  wait_skips_once, close_cancels, close_sees_finished, close_enters_once, close_reads, close_clears,
  close_skips_once,
}

-- The tokens in the semaphore are those of the calls behind it and of the goroutines that have not
-- given theirs back; wg counts the goroutines.
record IsCounted (limit : ℕ) (x : System) : Type 0 where
  limited : x.group.capacity ≡ some limit
  held : x.group.tokens ≡ x.admitted + x.launched + x.running + x.ended + x.reported
  bounded : x.group.tokens ≤ limit
  counted : x.group.wg ≡ x.launched + x.running + x.ended + x.reported + x.leaving

-- What the semaphore and wg are, which most parts leave alone.
SameCounts : Group → Group → Type 0
SameCounts g u = (u.capacity ≡ g.capacity) × (u.tokens ≡ g.tokens) × (u.wg ≡ g.wg)

admit_counts : (name : String) (g : Group) → SameCounts g (admit name g).1
unfolding SameCounts admit start_group
admit_counts name g = ground arith

update_counts : (i : ℕ) (st : Status) (g : Group) → SameCounts g (update_task_status i st g)
unfolding SameCounts update_task_status
update_counts i st g = ground arith

fundamental_counts : (e : Error) (g : Group) → SameCounts g (set_fundamental_error e g)
unfolding SameCounts set_fundamental_error
fundamental_counts e g = ground arith

end_counts : (i : ℕ) (how : Ending) (g : Group) → SameCounts g (end_task i how g)
unfolding SameCounts end_task
end_counts i how g = ground arith

cancel_counts : (reason : String) (g : Group) → SameCounts g (cancel_with_reason reason g)
unfolding SameCounts cancel_with_reason
cancel_counts reason g = ground arith

module _ (sentinel_text : Sentinel → List ℕ) where
  report_counts :
      (name : String) (e : Option Error) (g : Group)
      → SameCounts g (report_error sentinel_text name e g)
  unfolding SameCounts report_error set_task_failure_error
  report_counts name none g = ground arith
  report_counts name (some e) g = ground arith

  Step-IsCounted :
      {limit : ℕ} {x y : System} → Step sentinel_text x y → IsCounted limit x → IsCounted limit y
  unfolding SameCounts acquire release give_back start_group
  Step-IsCounted {x = x} (cancels e) c = ground (arith, e)
  Step-IsCounted {x = x} (admits name i g l h e) c = ground (arith, e, admit_counts name x.group)
  Step-IsCounted {x = x} (refuses name g l h e) c = ground (arith, e, admit_counts name x.group)
  Step-IsCounted {x = x} (acquires n g q h e) c = ground (arith, e)
  Step-IsCounted {x = x} (gives_back i n q h e) c = ground (arith, e)
  Step-IsCounted {x = x} (gives_up i n er q k l e) c = ground (
    arith,
    e,
    update_counts i canceled x.group,
    fundamental_counts er (update_task_status i canceled x.group),
  )
  Step-IsCounted {x = x} (launches n q e) c = ground (arith, e)
  Step-IsCounted {x = x} (begins i n q l e) c =
      ground (arith, e, update_counts i now_running x.group)
  Step-IsCounted {x = x} (ends i n how q l e) c = ground (arith, e, end_counts i how x.group)
  Step-IsCounted {x = x} (reports name er n q l e) c =
      ground (arith, e, report_counts name er x.group)
  Step-IsCounted {x = x} (releases n q e) c = ground (arith, e)
  Step-IsCounted {x = x} (leaves n q e) c = ground (arith, e)
  Step-IsCounted {x = x} (wait_starts w l e) c = ground (arith, e)
  Step-IsCounted {x = x} (wait_sees_all_done w z f l e) c = ground (arith, e)
  Step-IsCounted {x = x} (wait_sees_cancelled er w k f l e) c =
      ground (arith, e, fundamental_counts er x.group)
  Step-IsCounted {x = x} (wait_sees_finished w f l e) c = ground (arith, e)
  Step-IsCounted {x = x} (wait_enters_once w o e) c = ground (arith, e)
  Step-IsCounted {x = x} (wait_reads w l e) c = ground (arith, e)
  Step-IsCounted {x = x} (wait_clears w e) c = ground (arith, e)
  Step-IsCounted {x = x} (wait_skips_once w o e) c = ground (arith, e)
  Step-IsCounted {x = x} (close_cancels w f l e) c =
      ground (arith, e, cancel_counts "Close() called" x.group)
  Step-IsCounted {x = x} (close_sees_finished w f l e) c = ground (arith, e)
  Step-IsCounted {x = x} (close_enters_once w o e) c = ground (arith, e)
  Step-IsCounted {x = x} (close_reads w l e) c = ground (arith, e)
  Step-IsCounted {x = x} (close_clears w e) c = ground (arith, e)
  Step-IsCounted {x = x} (close_skips_once w o e) c = ground (arith, e)

  Reach-IsCounted :
      {limit : ℕ} {x y : System} → Reach sentinel_text x y → IsCounted limit x → IsCounted limit y
  Reach-IsCounted here c = c
  Reach-IsCounted (next r s) c = Step-IsCounted s (Reach-IsCounted r c)

  -- From a new group with a limit, in every interleaving: no more tasks than the limit are running,
  -- or between their token and its return, and wg is the number of goroutines that have been
  -- launched and have not left.
  pub running_bounded :
      (limit : ℕ) (x y : System)
      → IsNew limit x
      → Reach sentinel_text x y
      → (y.admitted + y.launched + y.running + y.ended + y.reported ≤ limit)
        × (y.group.wg ≡ y.launched + y.running + y.ended + y.reported + y.leaving)
  running_bounded limit x y n r =
      let c : IsCounted limit y =
        Reach-IsCounted r (ground (arith, n.limited, n.no_tokens, n.no_goroutines, n.idle)) in
      (ground (arith, c.held, c.bounded), c.counted)
