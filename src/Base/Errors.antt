-- ===== src/Base/Errors.antt =====
-- Go errors as the shim builds them: errors.New, errors.Errorf with `%w`, and the sentinel values
-- of errdefs and unix. The text of a sentinel is not the program's, and is a parameter.
use Prim.Native.Nat.{ℕ}
use Prim.Native.String.{String}
use mathlib.Core.Bool.{Bool, true, false}
use mathlib.Core.List.{List, ◌++◌}
use runm.Base.Text.{codes}

-- errdefs.ErrNotFound, ErrFailedPrecondition and ErrAlreadyExists; unix.ESRCH; any other.
pub data Sentinel : Type 0 where
  err_not_found err_failed_precondition err_already_exists esrch other : Sentinel

pub data Error : Type 0 where
  -- errors.New, or Errorf without `%w`
  new : String → Error
  -- Errorf "m: %w"
  wrap : String → Error → Error
  sentinel : Sentinel → Error
  -- Errorf of a text that is computed from another error's
  computed : List ℕ → Error

-- err.Error()
unfoldable pub error_text : (Sentinel → List ℕ) → Error → List ℕ
error_text t (new m) = codes m
error_text t (wrap m e) = codes m ++ codes ": " ++ error_text t e
error_text t (sentinel s) = t s
error_text t (computed m) = m

abbrev is_same : Sentinel → Sentinel → Bool
is_same err_not_found err_not_found = true
is_same err_failed_precondition err_failed_precondition = true
is_same err_already_exists err_already_exists = true
is_same esrch esrch = true
is_same _ _ = false

-- errors.Is with a sentinel: somewhere in the chain of `%w`.
abbrev pub is_error : Sentinel → Error → Bool
is_error s (new m) = false
is_error s (wrap m e) = is_error s e
is_error s (sentinel k) = is_same s k
is_error s (computed m) = false

-- `err == unix.ESRCH`: the value itself, not a chain that holds it.
abbrev pub equals_esrch : Error → Bool
equals_esrch (sentinel esrch) = true
equals_esrch _ = false
