-- ===== src/Vsock/Dial.antt =====
-- core/virt/vmm/vsock_manager.go: how Dial ends.
use runm.Base.{
  Bool-cases, Option-cases, leb, ℕ, zero, suc, ◌+◌, ◌≤◌, ◌<◌, ◌≡◌, true, false, Option, none, some,
  is_some, inl, inr, arith,
}
use runm.Base.Errors.{Error}
use runm.Base.Go.{ok}
use runm.Vsock.{
  VsockManager, connected, disconnected, Dialer, update_state, dial_loop, dial, close_child,
}

module _ {W : Type 0} (d : Dialer W) where
  -- With a limit, as many turns as there are attempts left are enough.
  loop_ends :
      (fuel attempts : ℕ) (last : Option Error) (m : VsockManager) (w : W)
      → attempts < m.max_retries
      → m.max_retries ≤ attempts + fuel
      → is_some (dial_loop d fuel attempts last (m, w)) ≡ true
  unfolding dial_loop
  loop_ends zero attempts last m w p l = ground arith
  loop_ends (suc n) attempts last m w p l = elim (Bool-cases (leb m.max_retries (suc attempts))) [
    | inl k ↦ ground (arith, k)
    | inr k ↦ grind (arith, loop_ends n)
  ]

  -- A Dial with a limit ends within that many turns.
  dial_ends :
      (fuel : ℕ) (m : VsockManager) (w : W)
      → 0 < m.max_retries
      → m.max_retries ≤ fuel
      → is_some (dial d fuel (m, w)) ≡ true
  unfolding dial
  dial_ends fuel m w p l = elim (Option-cases m.conn) [
    | inl k ↦ ground (arith, k, loop_ends fuel 0 none m w p (omega arith))
    | inr (c, k) ↦ ground (arith, k)
  ]

  -- `n` connections fail, without the context being done in between, and the next one is `r`.
  pub data Fails : ℕ → W → W → Type 0 where
    none_failed : {w : W} → Fails 0 w w
    one_failed :
        {n : ℕ} {w v u x : W} (e : Error)
        → d.ctx_err w ≡ none
        → d.connect w ≡ (inl e, v)
        → d.retry_wait v ≡ (false, u)
        → Fails n u x
        → Fails (suc n) w x

  loop_connects :
      (n fuel attempts c : ℕ) (last : Option Error) (m : VsockManager) {w x v : W}
      → m.conn ≡ none
      → Fails n w x
      → d.ctx_err x ≡ none
      → d.connect x ≡ (inr c, v)
      → attempts + n < m.max_retries
      → n < fuel
      → dial_loop d fuel attempts last (m, w)
        ≡ some (ok c, (record (update_state connected m) { conn = some c }, v))
  unfolding dial_loop
  loop_connects n zero attempts c last m k f t q a l = ground arith
  loop_connects zero (suc fuel) attempts c last m k none_failed t q a l = ground (arith, k, t, q)
  loop_connects (suc n) (suc fuel) attempts c last m k (one_failed e g h r f) t q a l = ground (
    arith,
    k,
    g,
    h,
    r,
    loop_connects n fuel (suc attempts) c (some e) m k f t q (omega arith) (omega arith),
  )

  -- After fewer failures than the limit, while the context is not done, the first connection that is
  -- made is kept and handed back.
  pub dial_connects :
      (n fuel c : ℕ) (m : VsockManager) {w x v : W}
      → m.conn ≡ none
      → Fails n w x
      → d.ctx_err x ≡ none
      → d.connect x ≡ (inr c, v)
      → n < m.max_retries
      → n < fuel
      → dial d fuel (m, w) ≡ some (ok c, (record (update_state connected m) { conn = some c }, v))
  unfolding dial
  dial_connects n fuel c m {w} {x} {v} k f t q a l =
      ground (arith, k, loop_connects n fuel 0 c none m k f t q (omega arith) l)

  -- Once the connection that Dial has handed back is closed, Dial hands back the same one, and calls
  -- nothing.
  closed_is_dialled :
      (fuel c : ℕ) (m : VsockManager) (w : W)
      → m.conn ≡ some c
      → let (r, (m', w')) = close_child d c (m, w) in
        (m'.state ≡ disconnected) × (dial d fuel (m', w') ≡ some (ok c, (m', w')))
  unfolding close_child dial update_state
  closed_is_dialled fuel c m w k = ground (arith, k)
