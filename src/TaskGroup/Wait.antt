-- ===== src/TaskGroup/Wait.antt =====
-- Wait and the clean-up: Wait holds `mu` when it calls executeCleanup, which asks for `mu` again.
use runm.Base.{
  ℕ, ◌≡◌, ◌≢◌, refl, String, Bool, true, false, Option, none, some, List, ◌||◌, if◌then◌else◌,
  arith,
}
use runm.Base.Errors.{Error, Sentinel}
use runm.TaskGroup.Group.{
  Group, Ending, Status, canceled, running as now_running, admit, acquire, release, give_back,
  start_group, update_task_status, set_fundamental_error, set_task_failure_error, end_task,
  report_error, cancel_with_reason,
}
use runm.TaskGroup.Run.{
  Lock, free, by_wait, Once, wait_in, close_in, done, WaitPhase, not_called, waits, locked,
  cleaning, clearing_up, returned, ClosePhase, closing, clearing, closed, System, Step, Reach, here,
  next, IsNew, cancels, admits, refuses, acquires, gives_back, gives_up, launches, begins, ends,
  reports, releases, leaves, wait_starts, wait_sees_all_done, wait_sees_cancelled,
  wait_sees_finished, wait_enters_once, wait_reads, wait_clears, wait_skips_once, close_cancels,
  close_sees_finished, close_enters_once, close_reads, close_clears, close_skips_once,
}

abbrev is_held : Lock → Bool
is_held by_wait = true
is_held free = false

abbrev holds : WaitPhase → Bool
holds locked = true
holds cleaning = true
holds clearing_up = true
holds _ = false

abbrev has_finished : WaitPhase → Bool
has_finished not_called = false
has_finished waits = false
has_finished _ = true

abbrev is_cleaning : WaitPhase → Bool
is_cleaning cleaning = true
is_cleaning clearing_up = true
is_cleaning _ = false

abbrev is_returned : WaitPhase → Bool
is_returned returned = true
is_returned _ = false

abbrev is_wait_in : Once → Bool
is_wait_in wait_in = true
is_wait_in _ = false

abbrev is_close_in : Once → Bool
is_close_in close_in = true
is_close_in _ = false

abbrev is_done : Once → Bool
is_done done = true
is_done _ = false

abbrev is_closing : ClosePhase → Bool
is_closing closing = true
is_closing clearing = true
is_closing _ = false

abbrev is_closed : ClosePhase → Bool
is_closed closed = true
is_closed _ = false

abbrev is_clearing : ClosePhase → Bool
is_clearing clearing = true
is_clearing _ = false

abbrev is_clearing_up : WaitPhase → Bool
is_clearing_up clearing_up = true
is_clearing_up _ = false

-- Who holds `mu`, who is inside `once`, and what has been done.
record IsOrdered (x : System) : Type 0 where
  lock : is_held x.lock ≡ holds x.waiter
  finished : x.group.finished ≡ has_finished x.waiter
  inside : is_wait_in x.once ≡ is_cleaning x.waiter
  closing_in : is_close_in x.once ≡ is_closing x.closer
  cleaned : is_done x.once ≡ is_closed x.closer
  after : (if is_returned x.waiter then is_done x.once else true) ≡ true
  never : is_clearing_up x.waiter ≡ false

-- Wait holds `mu`, and nobody has read what is to be cleaned up.
record IsStuck (x : System) : Type 0 where
  lock : x.lock ≡ by_wait
  waiter : holds x.waiter ≡ true
  unfinished : is_done x.once ≡ false
  unread : (is_clearing x.closer || is_clearing_up x.waiter) ≡ false

admit_finished : (name : String) (g : Group) → (admit name g).1.finished ≡ g.finished
unfolding admit start_group
admit_finished name g = ground arith

update_finished :
    (i : ℕ) (st : Status) (g : Group) → (update_task_status i st g).finished ≡ g.finished
unfolding update_task_status
update_finished i st g = ground arith

fundamental_finished : (e : Error) (g : Group) → (set_fundamental_error e g).finished ≡ g.finished
unfolding set_fundamental_error
fundamental_finished e g = ground arith

end_finished : (i : ℕ) (how : Ending) (g : Group) → (end_task i how g).finished ≡ g.finished
unfolding end_task
end_finished i how g = ground arith

cancel_finished :
    (reason : String) (g : Group) → (cancel_with_reason reason g).finished ≡ g.finished
unfolding cancel_with_reason
cancel_finished reason g = ground arith

module _ (sentinel_text : Sentinel → List ℕ) where
  report_finished :
      (name : String) (e : Option Error) (g : Group)
      → (report_error sentinel_text name e g).finished ≡ g.finished
  unfolding report_error set_task_failure_error
  report_finished name none g = refl
  report_finished name (some e) g = ground arith

  Step-IsOrdered : {x y : System} → Step sentinel_text x y → IsOrdered x → IsOrdered y
  unfolding acquire release give_back start_group
  Step-IsOrdered {x = x} (cancels e) inv = ground (arith, e)
  Step-IsOrdered {x = x} (admits name i g l h e) inv =
      ground (arith, e, admit_finished name x.group)
  Step-IsOrdered {x = x} (refuses name g l h e) inv = ground (arith, e, admit_finished name x.group)
  Step-IsOrdered {x = x} (acquires n g q h e) inv = ground (arith, e)
  Step-IsOrdered {x = x} (gives_back i n q h e) inv = ground (arith, e)
  Step-IsOrdered {x = x} (gives_up i n er q k l e) inv = ground (
    arith,
    e,
    update_finished i canceled x.group,
    fundamental_finished er (update_task_status i canceled x.group),
  )
  Step-IsOrdered {x = x} (launches n q e) inv = ground (arith, e)
  Step-IsOrdered {x = x} (begins i n q l e) inv =
      ground (arith, e, update_finished i now_running x.group)
  Step-IsOrdered {x = x} (ends i n how q l e) inv = ground (arith, e, end_finished i how x.group)
  Step-IsOrdered {x = x} (reports name er n q l e) inv =
      ground (arith, e, report_finished name er x.group)
  Step-IsOrdered {x = x} (releases n q e) inv = ground (arith, e)
  Step-IsOrdered {x = x} (leaves n q e) inv = ground (arith, e)
  Step-IsOrdered {x = x} (wait_starts w l e) inv = ground (arith, e)
  Step-IsOrdered {x = x} (wait_sees_all_done w z f l e) inv = ground (arith, e)
  Step-IsOrdered {x = x} (wait_sees_cancelled er w k f l e) inv = ground (arith, e)
  Step-IsOrdered {x = x} (wait_sees_finished w f l e) inv = ground (arith, e)
  Step-IsOrdered {x = x} (wait_enters_once w o e) inv = ground (arith, e)
  Step-IsOrdered {x = x} (wait_reads w l e) inv = ground (arith, e)
  Step-IsOrdered {x = x} (wait_clears w e) inv = ground (arith, e)
  Step-IsOrdered {x = x} (wait_skips_once w o e) inv = ground (arith, e)
  Step-IsOrdered {x = x} (close_cancels w f l e) inv =
      ground (arith, e, cancel_finished "Close() called" x.group)
  Step-IsOrdered {x = x} (close_sees_finished w f l e) inv = ground (arith, e)
  Step-IsOrdered {x = x} (close_enters_once w o e) inv = ground (arith, e)
  Step-IsOrdered {x = x} (close_reads w l e) inv = ground (arith, e)
  Step-IsOrdered {x = x} (close_clears w e) inv = ground (arith, e)
  Step-IsOrdered {x = x} (close_skips_once w o e) inv = ground (arith, e)

  Reach-IsOrdered : {x y : System} → Reach sentinel_text x y → IsOrdered x → IsOrdered y
  Reach-IsOrdered here i = i
  Reach-IsOrdered (next r s) i = Step-IsOrdered s (Reach-IsOrdered r i)

  new-IsOrdered : (limit : ℕ) (x : System) → IsNew limit x → IsOrdered x
  new-IsOrdered limit x n =
      ground (arith, n.unfinished, n.unlocked, n.uncleaned, n.not_waited, n.open_still)

  Step-IsStuck : {x y : System} → Step sentinel_text x y → IsOrdered x → IsStuck x → IsStuck y
  Step-IsStuck (cancels e) inv stuck = ground (arith, e)
  Step-IsStuck (admits name i g l h e) inv stuck = ground (arith, e)
  Step-IsStuck (refuses name g l h e) inv stuck = ground (arith, e)
  Step-IsStuck (acquires n g q h e) inv stuck = ground (arith, e)
  Step-IsStuck (gives_back i n q h e) inv stuck = ground (arith, e)
  Step-IsStuck (gives_up i n er q k l e) inv stuck = ground (arith, e)
  Step-IsStuck (launches n q e) inv stuck = ground (arith, e)
  Step-IsStuck (begins i n q l e) inv stuck = ground (arith, e)
  Step-IsStuck (ends i n how q l e) inv stuck = ground (arith, e)
  Step-IsStuck (reports name er n q l e) inv stuck = ground (arith, e)
  Step-IsStuck (releases n q e) inv stuck = ground (arith, e)
  Step-IsStuck (leaves n q e) inv stuck = ground (arith, e)
  Step-IsStuck (wait_starts w l e) inv stuck = ground (arith, e)
  Step-IsStuck (wait_sees_all_done w z f l e) inv stuck = ground (arith, e)
  Step-IsStuck (wait_sees_cancelled er w k f l e) inv stuck = ground (arith, e)
  Step-IsStuck (wait_sees_finished w f l e) inv stuck = ground (arith, e)
  Step-IsStuck (wait_enters_once w o e) inv stuck = ground (arith, e)
  Step-IsStuck (wait_reads w l e) inv stuck = ground (arith, e)
  Step-IsStuck (wait_clears w e) inv stuck = ground (arith, e)
  Step-IsStuck (wait_skips_once w o e) inv stuck = ground (arith, e)
  Step-IsStuck (close_cancels w f l e) inv stuck = ground (arith, e)
  Step-IsStuck (close_sees_finished w f l e) inv stuck = ground (arith, e)
  Step-IsStuck (close_enters_once w o e) inv stuck = ground (arith, e)
  Step-IsStuck (close_reads w l e) inv stuck = ground (arith, e)
  Step-IsStuck (close_clears w e) inv stuck = ground (arith, e)
  Step-IsStuck (close_skips_once w o e) inv stuck = ground (arith, e)

  Reach-IsStuck : {x y : System} → Reach sentinel_text x y → IsOrdered x → IsStuck x → IsStuck y
  Reach-IsStuck here i k = k
  Reach-IsStuck (next r s) i k = Step-IsStuck s (Reach-IsOrdered r i) (Reach-IsStuck r i k)

  -- From a new group, in every interleaving: when Wait has taken `mu` for its end before a Close has
  -- read the clean-up functions or done the clean-up, Wait never returns, whatever the tasks and
  -- Close do.
  pub wait_never_returns :
      (limit : ℕ) (x y z : System)
      → IsNew limit x
      → Reach sentinel_text x y
      → y.waiter ≡ locked
      → y.closer ≢ clearing
      → y.once ≢ done
      → Reach sentinel_text y z
      → z.waiter ≢ returned
  wait_never_returns limit x y z n r w b o q =
      let i = Reach-IsOrdered r (new-IsOrdered limit x n) in
      let k = Reach-IsStuck q i (ground (arith, i.lock)) in ground (arith, k.waiter)

  -- From a new group, in every interleaving: Wait returns only after a Close has done the clean-up.
  pub wait_needs_close :
      (limit : ℕ) (x y : System)
      → IsNew limit x
      → Reach sentinel_text x y
      → y.waiter ≡ returned
      → (y.closer ≡ closed) × (y.once ≡ done)
  wait_needs_close limit x y n r w =
      let i = Reach-IsOrdered r (new-IsOrdered limit x n) in ground (arith, i.after, i.cleaned)
