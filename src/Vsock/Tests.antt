-- ===== src/Vsock/Tests.antt =====
-- A dialer that fails as often as the world says, and the theorems at such inputs.
use runm.Base.{ℕ, zero, suc, ◌⊎◌, inl, inr, ◌≡◌, refl, false, none, some, arith}
use runm.Base.Errors.{Error, new}
use runm.Base.Go.{ok}
use runm.Vsock.{VsockManager, connected, new_vsock_manager, Dialer, update_state, dial}
use runm.Vsock.Dial.{none_failed, one_failed, dial_connects}

abbrev failing : ℕ → (Error ⊎ ℕ) × ℕ
failing zero = (inr 5, 0)
failing (suc n) = (inl (new "connection refused"), n)

abbrev dialer : Dialer ℕ
dialer = record {
  ctx_err = λ w. none;
  connect = failing;
  retry_wait = λ w. (false, w);
  read = λ c w. (ok 0, w);
  write = λ c w. (ok 0, w);
  close = λ c w. (ok tt, w);
}

abbrev open_manager : VsockManager
open_manager = record new_vsock_manager { conn = some 5; state = connected }

dial_connects_example :
    dial dialer 3 (new_vsock_manager, 1)
    ≡ some (ok 5, (record (update_state connected new_vsock_manager) { conn = some 5 }, 0))
dial_connects_example =
    dial_connects dialer 1 3 5 new_vsock_manager refl
      (one_failed (new "connection refused") refl refl refl none_failed) refl refl (omega arith)
      (omega arith)
