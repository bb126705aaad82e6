-- ===== src/TaskGroup/Group.antt =====
-- pkg/taskgroup/taskgroup.go and task.go: the record of a group, and the parts of its methods that
-- hold `mu` or are one atomic operation. A task's id is the group's name and a number, and the maps
-- by id go by that number. Times, goroutine ids, metadata, labels, logging and the ticker are left
-- out. `cancelled` is that the group's context is done.
use runm.Base.{
  ℕ, suc, ◌-◌, String, Bool, true, false, Option, none, some, is_some, List, [], ◌∷◌, ◌++◌, ltb,
  put, if◌then◌else◌, ◌==◌,
}
use runm.Base.Text.{codes, contains}
use runm.Base.Errors.{Error, Sentinel, error_text, computed}

-- TaskStatus
pub data Status : Type 0 where
  pending running completed failed panicked canceled : Status

-- TaskState
pub record Task : Type 0 where
  pub name : String
  pub status : Status
  pub error : Option Error
  -- the panic's value, as it is printed
  pub panic_info : Option (List ℕ)

-- IsRunning, IsCompleted
abbrev pub is_running : Task → Bool
is_running t = elim t.status [ running ↦ true | _ ↦ false ]

abbrev pub is_completed : Task → Bool
is_completed t = elim t.status [ completed ↦ true | failed ↦ true | panicked ↦ true | _ ↦ false ]

-- TaskGroupError. The map is a list of its entries, one for a name.
pub record GroupError : Type 0 where
  pub task_errors : List (String × Error)
  pub panic_count : ℕ
  pub fail_count : ℕ

-- CleanupEntry, with a number for the function
pub record CleanupEntry : Type 0 where
  pub name : List ℕ
  pub func : ℕ

-- `m[name] = e`
unfoldable pub insert_error : String → Error → List (String × Error) → List (String × Error)
insert_error name e [] = (name, e) ∷ []
insert_error name e ((k, x) ∷ m) =
    let rest = insert_error name e m in if k == name then (k, e) ∷ m else (k, x) ∷ rest

-- GetTaskError
unfoldable pub get_task_error : String → List (String × Error) → Option Error
get_task_error name [] = none
get_task_error name ((k, x) ∷ m) =
    let rest = get_task_error name m in if k == name then some x else rest

pub record Group : Type 0 where
  pub started : Bool
  pub finished : Bool
  pub cancelled : Bool
  pub err : Option Error
  -- errOnce has run
  pub err_once : Bool
  pub group_error : GroupError
  pub task_counter : ℕ
  -- the semaphore's capacity, if there is one, and the tokens in it
  pub capacity : Option ℕ
  pub tokens : ℕ
  pub wg : ℕ
  pub tasks : ℕ → Option Task
  pub task_history : ℕ → Option Task
  pub keep_history : Bool
  pub cancel_reason : Option String
  pub cleanup_funcs : List CleanupEntry

-- NewTaskGroup of these options
abbrev pub new_group : ℕ → Bool → Group
new_group max_concurrent keep = record {
  started = false;
  finished = false;
  cancelled = false;
  err = none;
  err_once = false;
  group_error = record { task_errors = []; panic_count = 0; fail_count = 0 };
  task_counter = 0;
  capacity = (if ltb 0 max_concurrent then some max_concurrent else none);
  tokens = 0;
  wg = 0;
  tasks = λ i. none;
  task_history = λ i. none;
  keep_history = keep;
  cancel_reason = none;
  cleanup_funcs = [];
}

-- SetLimit
unfoldable pub set_limit : ℕ → Group → Group
set_limit n g =
    if g.started then g else record g { capacity = (if ltb 0 n then some n else none); tokens = 0 }

-- Start
unfoldable pub start_group : Group → Group
start_group g = if g.started then g else record g { started = true }

abbrev pub pending_task : String → Task
pending_task name = record { name = name; status = pending; error = none; panic_info = none }

-- executeTask up to the first Unlock: the task's number, unless the group is finished.
unfoldable pub admit : String → Group → Option ℕ × Group
unfolding start_group
admit name g =
    let g' = start_group g in
    if g'.finished then (none, g') else (
      some (suc g'.task_counter),
      record g' {
        task_counter = suc g'.task_counter;
        tasks = put (suc g'.task_counter) (some (pending_task name)) g'.tasks;
      },
    )

-- `tg.semaphore <- struct{}{}`, where it does not block
unfoldable pub acquire : Group → Option Group
acquire g = elim g.capacity [
  | none ↦ some g
  | some n ↦ if ltb g.tokens n then some (record g { tokens = suc g.tokens }) else none
]

-- `<-tg.semaphore`, where it does not block
unfoldable pub release : Group → Group
release g = elim g.capacity [ none ↦ g | some n ↦ record g { tokens = g.tokens - 1 } ]

-- TryGo, when the semaphore is full: the task is taken out and the counter goes back.
unfoldable pub give_back : ℕ → Group → Group
give_back i g = record g { tasks = put i none g.tasks; task_counter = g.task_counter - 1 }

-- updateTaskStatus
unfoldable pub update_task_status : ℕ → Status → Group → Group
update_task_status i st g = elim (g.tasks i) [
  | none ↦ g
  | some t ↦ record g { tasks = put i (some (record t { status = st })) g.tasks }
]

-- setFundamentalError, which cancels, and setTaskFailureError, which does not
unfoldable pub set_fundamental_error : Error → Group → Group
set_fundamental_error e g =
    if g.err_once then g else record g { err_once = true; err = some e; cancelled = true }

unfoldable pub set_task_failure_error : Error → Group → Group
set_task_failure_error e g = if g.err_once then g else record g { err_once = true; err = some e }

-- How a task's function ends.
pub data Ending : Type 0 where
  returns : Option Error → Ending
  panics : List ℕ → Ending

-- executeTaskWithRecovery: the error and the panic that it leaves
abbrev pub recovered_error : Ending → Option Error
recovered_error (returns e) = e
recovered_error (panics v) = some (computed (codes "panic in task: " ++ v))

abbrev pub recovered_panic : Ending → Option (List ℕ)
recovered_panic (returns e) = none
recovered_panic (panics v) = some v

abbrev pub final_status : Ending → Status
final_status (returns none) = completed
final_status (returns (some e)) = failed
final_status (panics v) = panicked

-- The locked part after the function has ended
unfoldable pub end_task : ℕ → Ending → Group → Group
end_task i x g = elim (g.tasks i) [
  | none ↦ g
  | some t ↦
      let t' = record t {
        status = final_status x;
        error = recovered_error x;
        panic_info = recovered_panic x;
      } in
      record g {
        tasks = put i (some t') g.tasks;
        task_history = (if g.keep_history then put i (some t') g.task_history else g.task_history);
      }
]

module _ (sentinel_text : Sentinel → List ℕ) where
  abbrev pub is_panic_error : Error → Bool
  is_panic_error e = contains (error_text sentinel_text e) (codes "panic in task:")

  -- AddTaskError of an error that is not nil
  unfoldable pub add_task_error : String → Error → GroupError → GroupError
  add_task_error name e ge =
      if is_panic_error e
      then record ge {
        task_errors = insert_error name e ge.task_errors;
        panic_count = suc ge.panic_count;
      }
      else record ge {
        task_errors = insert_error name e ge.task_errors;
        fail_count = suc ge.fail_count;
      }

  -- What the goroutine of a task does with its error: addTaskError and setTaskFailureError.
  unfoldable pub report_error : String → Option Error → Group → Group
  unfolding add_task_error
  report_error name none g = g
  report_error name (some e) g =
      set_task_failure_error e (record g { group_error = add_task_error name e g.group_error })

-- CancelWithReason, of which the first call counts, and what Close does before the clean-up
unfoldable pub cancel_with_reason : String → Group → Group
cancel_with_reason reason g =
    if is_some g.cancel_reason
    then g
    else record g { cancel_reason = some reason; cancelled = true }
