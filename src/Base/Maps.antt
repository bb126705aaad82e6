-- ===== src/Base/Maps.antt =====
-- `m[k] = v` of a map that is a function, and `delete(m, k)` as a write of what stands for nothing.
use Prim.Native.Nat.{ℕ}
use Prim.Native.String.{String}
use text.Mathlib.Text.{◌==◌ as str_eq}
use runm.Base.Tests.{nat_eq, if◌then◌else◌}

module _ {V : Type 0} where
  abbrev pub set : String → V → (String → V) → String → V
  set k v m j = if str_eq k j then v else m j

  abbrev pub put : ℕ → V → (ℕ → V) → ℕ → V
  put a v f b = if nat_eq a b then v else f b
