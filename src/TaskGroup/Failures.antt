-- ===== src/TaskGroup/Failures.antt =====
-- The errors of a group's tasks, in the order in which the tasks report them.
use runm.Base.{ℕ, String, Option, none, some, List, [], ◌∷◌, ◌==◌, if◌then◌else◌}
use runm.Base.Errors.{Error, Sentinel}
use runm.TaskGroup.Group.{Group, report_error}

module _ (sentinel_text : Sentinel → List ℕ) where
  unfoldable pub report_all : List (String × Error) → Group → Group
  report_all [] g = g
  report_all ((name, e) ∷ xs) g = report_all xs (report_error sentinel_text name (some e) g)

-- The last error that a task of this name reports; before any, `o`.
abbrev pub last_error : String → List (String × Error) → Option Error → Option Error
last_error name [] o = o
last_error name ((k, e) ∷ xs) o = last_error name xs (if k == name then some e else o)

abbrev pub first_error : List (String × Error) → Option Error
first_error [] = none
first_error ((k, e) ∷ xs) = some e
