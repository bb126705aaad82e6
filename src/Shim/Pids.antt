-- ===== src/Shim/Pids.antt =====
-- What a shim writes into its bundle and another one reads there.
use runm.Base.{Bool, true, false, ◌⊎◌, inl, inr, ℕ, ◌≡◌, refl, String, some, List, arith}
use runm.Base.Decimal.{itoa, atoi-itoa, FitsInt64}
use runm.Base.Go.{Outcome, ok, err, panic, ignore}
use runm.Process.Host.{FilePath}
use runm.Shim.Files.{Files, Json, read_options, write_options, write_pid, read_pid, stop_shim}

abbrev is_ok : Outcome (List ℕ) → Bool
is_ok (ok d) = true
is_ok _ = false

marshal-cases : (r : Outcome (List ℕ)) → ((d : List ℕ) × (r ≡ ok d)) ⊎ (is_ok r ≡ false)
marshal-cases (ok d) = inl (d, refl)
marshal-cases (err e) = inr refl
marshal-cases panic = inr refl

module _ {W : Type 0} (f : Files W) where
  -- What os.WriteFile has written, os.ReadFile reads, and os.Stat finds.
  pub record IsDisk : Type 0 where
    pub reads :
        (p : FilePath) (d : List ℕ) (w v : W)
        → f.write_file p d w ≡ (ok tt, v)
        → f.read_file p v ≡ (ok d, v)
    pub finds :
        (p : FilePath) (d : List ℕ) (w v : W)
        → f.write_file p d w ≡ (ok tt, v)
        → f.stat p v ≡ (ok tt, v)

  -- A pid that is written into a bundle is read back.
  read_pid-write_pid :
      (path : String) (w v : W)
      → IsDisk
      → FitsInt64 f.getpid
      → write_pid f path w ≡ (ok tt, v)
      → read_pid f path v ≡ (ok f.getpid, v)
  unfolding write_pid read_pid
  read_pid-write_pid path w v disk fits e = ground (
    arith,
    disk.reads (record { dir = path; name = "pid" }) (itoa f.getpid) w v e,
    atoi-itoa f.getpid fits,
  )

  -- On a disk that reads what was written: when a shim has written its pid, an int64, into the bundle
  -- beside the working directory, Stop of that id kills this pid with SIGKILL and reports it with
  -- 128 + 9, whatever the kill says short of a panic.
  pub stop_shim-write_pid :
      (id cwd : String) (w v u : W)
      → IsDisk
      → FitsInt64 f.getpid
      → write_pid f (f.beside cwd id) w ≡ (ok tt, v)
      → f.getwd v ≡ (ok cwd, v)
      → ignore (f.kill f.getpid 9) v ≡ (ok tt, u)
      → stop_shim f id v
        ≡ (ok (record { pid = f.getpid; exit_status = 137; exited_at = (f.now u).0 }), (f.now u).1)
  unfolding stop_shim
  stop_shim-write_pid id cwd w v u disk fits e g k =
      ground (arith, g, k, read_pid-write_pid (f.beside cwd id) w v disk fits e)

  -- The options that are written into a bundle are read back, if JSON gives them back.
  read_options-write_options :
      {A : Type 0} (j : Json A) (path : String) (opts : A) (w v : W)
      → IsDisk
      → ((d : List ℕ) → j.marshal opts ≡ ok d → j.unmarshal d ≡ ok opts)
      → write_options f j path opts w ≡ (ok tt, v)
      → read_options f j path v ≡ (ok (some opts), v)
  unfolding read_options write_options
  read_options-write_options j path opts w v disk json e =
      let p : FilePath = record { dir = path; name = "options.json" } in
      elim (marshal-cases (j.marshal opts)) [
        | inl (d, m) ↦
            (let wrote : f.write_file p d w ≡ (ok tt, v) = ground (arith, m, e) in
              ground (arith, disk.finds p d w v wrote, disk.reads p d w v wrote, json d m))
        | inr m ↦ absurd (ground (arith, m, e))
      ]
