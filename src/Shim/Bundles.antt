-- ===== src/Shim/Bundles.antt =====
-- A disk, and the theorems on the files of a bundle at it.
use runm.Base.{
  ℕ, ◌≡◌, refl, ap, subst, true, String, Option, none, some, List, [], ◌∷◌, pos, arith, ◌==◌,
  eq_iff, if◌then◌else◌,
}
use runm.Base.Decimal.{itoa}
use runm.Base.Errors.{new}
use runm.Base.Go.{Go, ok, err}
use runm.Process.Host.{FilePath}
use runm.Shim.Files.{Files, write_pid, stop_shim}
use runm.Shim.Pids.{IsDisk, stop_shim-write_pid}

-- A disk with one file for each name, and a shim with the pid 300 in the bundle "c".
abbrev Disk : Type 0
Disk = List (String × List ℕ)

abbrev look : String → Disk → Option (List ℕ)
look n [] = none
look n ((m, d) ∷ ds) = let rest = look n ds in if m == n then some d else rest

abbrev read_at : FilePath → Go Disk (List ℕ)
read_at p w = elim (look p.name w) [ none ↦ (err (new "no such file"), w) | some d ↦ (ok d, w) ]

abbrev files : Files Disk
files = record {
  read_file = read_at;
  write_file = λ p d w. (ok tt, (p.name, d) ∷ w);
  stat = λ p w. elim (look p.name w) [ none ↦ (err (new "no such file"), w) | some d ↦ (ok tt, w) ];
  is_not_exist = λ e. true;
  atoi_error = λ d. new "invalid syntax";
  getpid = pos 300;
  getwd = λ w. (ok "/run/shim", w);
  beside = λ cwd id. id;
  kill = λ p n w. (err (new "no such process"), w);
  now = λ w. (5, w);
}

written : (p : FilePath) (d : List ℕ) (w : Disk) → look p.name ((p.name, d) ∷ w) ≡ some d
written p d w = ground (arith, eq_iff p.name p.name)

files-IsDisk : IsDisk files
files-IsDisk = record {
  reads = λ p d w v e.
      subst (λ v. files.read_file p v ≡ (ok d, v)) (ap (λ x. x.1) e)
        (ground (arith, written p d w));
  finds = λ p d w v e.
      subst (λ v. files.stat p v ≡ (ok tt, v)) (ap (λ x. x.1) e) (ground (arith, written p d w));
}

wrote : write_pid files "c" [] ≡ (ok tt, ("pid", itoa (pos 300)) ∷ [])
unfolding write_pid
wrote = refl

stop_shim-write_pid_example : stop_shim files "c" (("pid", itoa (pos 300)) ∷ []) ≡ (
  ok (record { pid = pos 300; exit_status = 137; exited_at = 5 }),
  ("pid", itoa (pos 300)) ∷ [],
)
stop_shim-write_pid_example =
    stop_shim-write_pid files "c" "/run/shim" [] (("pid", itoa (pos 300)) ∷ [])
      (("pid", itoa (pos 300)) ∷ []) files-IsDisk (omega arith) wrote refl refl
