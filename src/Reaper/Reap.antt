-- ===== src/Reaper/Reap.antt =====
-- core/runc/runtime/gorunc/reaper/reaper_unix.go: reap, the loop over wait4. The system call, and
-- what golang.org/x/sys/unix reads off a wait status, are parameters.
use runm.Base.{
  ℕ, zero, suc, ◌+◌, ◌<◌, ◌≡◌, Bool, true, false, Option, none, some, List, [], ◌∷◌, map, length, ℤ,
  pos, negsuc, if◌then◌else◌, arith,
}
use runm.Base.Errors.{Error}
use runm.Service.Lifecycle.{Exit}

-- unix.WaitStatus
pub record WaitStatus : Type 0 where
  pub signaled : Bool
  pub signal : ℕ
  pub exit_status : ℤ

-- What wait4 hands back
pub data Wait4 : Type 0 where
  child : ℤ → WaitStatus → Wait4
  echild : Wait4
  failed : Error → Wait4

abbrev pub exit_signal_offset : ℕ
exit_signal_offset = 128

unfoldable pub exit_status : WaitStatus → ℤ
exit_status ws = if ws.signaled then pos (exit_signal_offset + ws.signal) else ws.exit_status

abbrev pub is_positive : ℤ → Bool
is_positive (pos zero) = false
is_positive (pos (suc n)) = true
is_positive (negsuc n) = false

abbrev pub to_exit : ℤ × WaitStatus → Exit
to_exit (pid, ws) = record { pid = pid; status = exit_status ws }

module _ {W : Type 0} (wait4 : W → Wait4 × W) where
  abbrev pub add_exit :
      Exit → Option ((List Exit × Option Error) × W) → Option ((List Exit × Option Error) × W)
  add_exit x none = none
  add_exit x (some ((xs, e), w)) = some ((x ∷ xs, e), w)

  -- reap, with so many turns at most; none is that they were not enough.
  unfoldable pub reap : ℕ → W → Option ((List Exit × Option Error) × W)
  reap zero w = none
  reap (suc n) w =
      let (r, v) = wait4 w in
      elim r [
        | echild ↦ some (([], none), v)
        | failed e ↦ some (([], some e), v)
        | child pid ws ↦
            (let rest = add_exit (to_exit (pid, ws)) (reap n v) in
              if is_positive pid then rest else some (([], none), v))
      ]

  -- The answers of wait4 from a world on: children that have exited, up to an answer without one.
  pub data Drains : W → List (ℤ × WaitStatus) → Option Error → W → Type 0 where
    no_exit :
        {w v : W} (pid : ℤ) (ws : WaitStatus)
        → wait4 w ≡ (child pid ws, v)
        → is_positive pid ≡ false
        → Drains w [] none v
    no_child : {w v : W} → wait4 w ≡ (echild, v) → Drains w [] none v
    refused : {w v : W} (e : Error) → wait4 w ≡ (failed e, v) → Drains w [] (some e) v
    one_exit :
        {w v u : W} {cs : List (ℤ × WaitStatus)} {e : Option Error} (pid : ℤ) (ws : WaitStatus)
        → wait4 w ≡ (child pid ws, v)
        → is_positive pid ≡ true
        → Drains v cs e u
        → Drains w ((pid, ws) ∷ cs) e u

  -- With more turns than children that have exited, reap hands back the exits of all of them, in
  -- order, and the error that wait4 has ended with, if that is not ECHILD.
  pub reap_lem :
      (n : ℕ) {w u : W} {cs : List (ℤ × WaitStatus)} {e : Option Error}
      → Drains w cs e u
      → length cs < n
      → reap n w ≡ some ((map to_exit cs, e), u)
  unfolding reap
  reap_lem zero d l = ground arith
  reap_lem (suc n) (no_exit pid ws q p) l = ground (arith, q, p)
  reap_lem (suc n) (no_child q) l = ground (arith, q)
  reap_lem (suc n) (refused e q) l = ground (arith, q)
  reap_lem (suc n) (one_exit pid ws q p d) l = ground (arith, q, p, reap_lem n d (omega arith))
