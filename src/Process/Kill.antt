-- ===== src/Process/Kill.antt =====
-- process/utils.go, checkKillError: how an error of a kill is classified.
use runm.Base.{ℕ, ◌≡◌, arith, Bool, ◌||◌, List, if◌then◌else◌}
use runm.Base.Text.{codes, contains, to_lower}
use runm.Base.Errors.{
  Error, Sentinel, err_not_found, wrap, sentinel, error_text, is_error, equals_esrch,
}

-- The tests on the text of an error.
unfoldable pub is_finished_text : List ℕ → Bool
is_finished_text t =
    contains t (codes "os: process already finished")
    || (contains t (codes "container not running")
        || contains (to_lower t) (codes "no such process"))

unfoldable pub is_missing_text : List ℕ → Bool
is_missing_text t = contains t (codes "does not exist")

-- checkKillError on an error that is not nil.
unfoldable pub check_kill_error : (Sentinel → List ℕ) → Error → Error
check_kill_error text e =
    if is_finished_text (error_text text e) || equals_esrch e
    then wrap "killing already finished process" (sentinel err_not_found)
    else (if is_missing_text (error_text text e)
        then wrap "killing process in non-existent container" (sentinel err_not_found)
        else wrap "killing process" e)

-- A failed kill is reported as "not found" exactly when its error says so already, when its text
-- says that the process has finished or that the container does not exist, or when it is ESRCH.
pub is_error-check_kill_error :
    (text : Sentinel → List ℕ) (e : Error)
    → is_error err_not_found (check_kill_error text e) ≡ (
        is_finished_text (error_text text e)
        || (equals_esrch e || (is_missing_text (error_text text e) || is_error err_not_found e)))
unfolding check_kill_error
is_error-check_kill_error text e = ground arith
