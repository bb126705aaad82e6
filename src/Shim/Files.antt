-- ===== src/Shim/Files.antt =====
-- cmd/containerd-shim-runm-v2/runm/container.go: the files in a bundle; and Stop of
-- cmd/containerd-shim-runm-v2/manager/manager.go, which reads one of them.
use runm.Base.{ℕ, String, Bool, Option, none, some, List, ℤ, pos, inl, inr, if◌then◌else◌, ◌+◌}
use runm.Base.Text.{codes}
use runm.Base.Decimal.{atoi, itoa}
use runm.Base.Errors.{Error}
use runm.Base.Go.{Outcome, Go, Done, pure, fail, ignore, attempt, asks, ◌>>=◌, ◌>>◌}
use runm.Process.Host.{FilePath}

-- os.ReadFile, os.WriteFile, os.Stat and os.IsNotExist; getpid and the working directory;
-- `beside` is filepath.Join(filepath.Dir(cwd), id).
pub record Files (W : Type 0) : Type 0 where
  pub read_file : FilePath → Go W (List ℕ)
  pub write_file : FilePath → List ℕ → Go W Done
  pub stat : FilePath → Go W Done
  pub is_not_exist : Error → Bool
  pub atoi_error : List ℕ → Error
  pub getpid : ℤ
  pub getwd : Go W String
  pub beside : String → String → String
  pub kill : ℤ → ℕ → Go W Done
  pub now : W → ℕ × W

-- encoding/json of a value of type `A`
pub record Json (A : Type 0) : Type 0 where
  pub marshal : A → Outcome (List ℕ)
  pub unmarshal : List ℕ → Outcome A

-- shim.StopStatus
pub record StopStatus : Type 0 where
  pub pid : ℤ
  pub exit_status : ℕ
  pub exited_at : ℕ

abbrev in_dir : String → String → FilePath
in_dir path name = record { dir = path; name = name }

module _ {W A : Type 0} (f : Files W) (j : Json A) where
  -- ReadOptions: no file is no options.
  unfoldable pub read_options : String → Go W (Option A)
  read_options path = do
    found ← attempt (f.stat (in_dir path "options.json"))
    elim found [
      | inl e ↦ (if f.is_not_exist e then pure none else fail e)
      | inr _ ↦ (do
        data_ ← f.read_file (in_dir path "options.json")
        opts ← (λ w. (j.unmarshal data_, w))
        pure (some opts))
    ]

  -- WriteOptions
  unfoldable pub write_options : String → A → Go W Done
  write_options path opts = do
    data_ ← (λ w. (j.marshal opts, w))
    f.write_file (in_dir path "options.json") data_

module _ {W : Type 0} (f : Files W) where
  -- ReadRuntime and WriteRuntime
  unfoldable pub read_runtime : String → Go W (List ℕ)
  read_runtime path = f.read_file (in_dir path "runtime")

  unfoldable pub write_runtime : String → String → Go W Done
  write_runtime path runtime = f.write_file (in_dir path "runtime") (codes runtime)

  -- WritePid
  unfoldable pub write_pid : String → Go W Done
  write_pid path = f.write_file (in_dir path "pid") (itoa f.getpid)

  -- ReadPid
  unfoldable pub read_pid : String → Go W ℤ
  read_pid path = do
    data_ ← f.read_file (in_dir path "pid")
    elim (atoi data_) [ none ↦ fail (f.atoi_error data_) | some pid ↦ pure pid ]

  -- Stop: 128 + SIGKILL, and a failing kill is logged.
  unfoldable pub stop_shim : String → Go W StopStatus
  stop_shim id = do
    cwd ← f.getwd
    got ← attempt (read_pid (f.beside cwd id))
    elim got [
      | inl e ↦
          (if f.is_not_exist e
            then (do
              t ← asks f.now
              pure (record { pid = pos 0; exit_status = 128 + 9; exited_at = t }))
            else fail e)
      | inr pid ↦ (do
        ignore (f.kill pid 9)
        t ← asks f.now
        pure (record { pid = pid; exit_status = 128 + 9; exited_at = t }))
    ]
