-- ===== src/Vsock.antt =====
-- core/virt/vmm/vsock_manager.go: the connection to the guest, which is dialled until it is there.
-- ConnectFunc, the context and the clock are the record Dialer; a connection is a number.
pub mod Dial
mod Tests
use runm.Base.{
  ℕ, zero, suc, ◌⊎◌, inl, inr, Bool, true, false, ◌&&◌, Option, none, some, List, [], ◌∷◌, ◌++◌,
  ltb, leb, map, if◌then◌else◌,
}
use runm.Base.Errors.{Error, wrap, new}
use runm.Base.Go.{Outcome, ok, err, panic, Done, Go, call, update, ◌>>◌}

-- VSockManagerState
pub data VsockManagerState : Type 0 where
  connected disconnected : VsockManagerState

-- VSockManager. `sends` are the goroutines that updateState has started, each with its notifier.
pub record VsockManager : Type 0 where
  pub state : VsockManagerState
  pub state_notifiers : List ℕ
  pub sends : List (ℕ × VsockManagerState)
  pub conn : Option ℕ
  pub max_retries : ℕ

-- NewVSockManager
abbrev pub new_vsock_manager : VsockManager
new_vsock_manager = record {
  state = disconnected;
  state_notifiers = [];
  sends = [];
  conn = none;
  max_retries = 4000;
}

-- `ctx_err` is ctx.Err(), none while the context is not done; `retry_wait` waits for the interval or
-- for the context, and tells whether that came first.
pub record Dialer (W : Type 0) : Type 0 where
  pub ctx_err : W → Option Error
  pub connect : W → (Error ⊎ ℕ) × W
  pub retry_wait : W → Bool × W
  pub read : ℕ → Go W ℕ
  pub write : ℕ → Go W ℕ
  pub close : ℕ → Go W Done

-- updateState
unfoldable pub update_state : VsockManagerState → VsockManager → VsockManager
update_state s m = record m { state = s; sends = m.sends ++ map (λ n. (n, s)) m.state_notifiers }

-- AddStateNotifier
abbrev pub add_state_notifier : ℕ → VsockManager → VsockManager
add_state_notifier n m = record m { state_notifiers = m.state_notifiers ++ n ∷ [] }

abbrev pub or_else : {A : Type 0} → Option A → A → A
or_else none a = a
or_else (some b) a = b

module _ {W : Type 0} (d : Dialer W) where
  -- The error of the context once it is done
  abbrev pub ctx_error : W → Error
  ctx_error w = or_else (d.ctx_err w) (new "context canceled")

  -- The loop of Dial, with so many turns at most; none is that they were not enough.
  unfoldable pub dial_loop :
      ℕ → ℕ → Option Error → VsockManager × W → Option (Outcome ℕ × (VsockManager × W))
  dial_loop zero attempts last s = none
  dial_loop (suc fuel) attempts last (m, w) = elim (d.ctx_err w) [
    | some e ↦ some (err (wrap "vsock connection canceled" (or_else last e)), (m, w))
    | none ↦ elim m.conn [
      | some c ↦ some (ok c, (m, w))
      | none ↦
          (let (r, v) = d.connect w in
            elim r [
              | inr c ↦ some (ok c, (record (update_state connected m) { conn = some c }, v))
              | inl e ↦
                  (let (over, u) = d.retry_wait v in
                    let rest = dial_loop fuel (suc attempts) (some e) (m, u) in
                    if ltb 0 m.max_retries && leb m.max_retries (suc attempts)
                    then some (err (wrap "vsock connection failed" e), (m, v))
                    else (if over
                        then some (
                          err (wrap "vsock connection canceled during retry wait" (ctx_error u)),
                          (m, u),
                        )
                        else rest))
            ])
    ]
  ]

  -- Dial
  unfoldable pub dial : ℕ → VsockManager × W → Option (Outcome ℕ × (VsockManager × W))
  dial fuel (m, w) = elim m.conn [
    | some c ↦ some (ok c, (m, w))
    | none ↦ dial_loop fuel 0 none (m, w)
  ]

  -- Read and Write of a ManagedConnectionChild
  abbrev pub watched : {A : Type 0} → Go W A → Go (VsockManager × W) A
  watched g (m, w) =
      let (r, v) = g w in
      elim r [
        | ok a ↦ (ok a, (m, v))
        | err e ↦ (err e, (update_state disconnected m, v))
        | panic ↦ (panic, (m, v))
      ]

  unfoldable pub read_child : ℕ → Go (VsockManager × W) ℕ
  read_child c = watched (d.read c)

  unfoldable pub write_child : ℕ → Go (VsockManager × W) ℕ
  write_child c = watched (d.write c)

  -- Close
  unfoldable pub close_child : ℕ → Go (VsockManager × W) Done
  close_child c = update (update_state disconnected) >> call (d.close c)
