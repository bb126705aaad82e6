-- ===== src/Shim/Binding.antt =====
-- cmd/containerd-shim-runm-v2/manager/manager.go: a call of newShimSocket that fails leaves no
-- descriptor open.
use runm.Base.{ℕ, if◌then◌else◌, Bool, true, false, String, none, some, nat_eq, inl, inr, ◌⊎◌}
use runm.Base.Errors.{Error, wrap}
use runm.Base.Go.{Go, Done, pure, fail, map_err, attempt, on_err, ◌>>=◌}
use runm.Base.After.{After, After-weaken, After-map_err, After-attempt, After-on_err, After-bind}
use runm.Shim.Os.{Os}
use runm.Shim.Manager.{
  ShimSocket, bound, close_socket, with_file, take_over, new_shim_socket, connects, after_socket,
  try_socket,
}
use runm.Shim.Descriptors.{
  bound_fds, no_fds, Has, Has-still, Has-opens, Has-first, Has-Drops, IsTracked, still,
  close_socket-Drops,
}

module _ {W : Type 0} (o : Os W) (held : W → ℕ → Bool) (t : IsTracked o held) where
  with_file-Has :
      (a : String) (s : ℕ) (w v : W)
      → Has held w (nat_eq s) v
      → After (λ b. Has held w (bound_fds b)) (Has held w no_fds) (with_file o a s v)
  unfolding with_file
  with_file-Has a s w v h =
      let b : ShimSocket = record { addr = a; s = some s; f = none } in
      After-bind (on_err (o.listener_file s) (close_socket o b))
        (λ f. pure (bound (record { addr = a; s = some s; f = some f }))) v
        (After-on_err (o.listener_file s) (close_socket o b) v (t.listener_file s v) (λ u e.
          After-weaken _ (close_socket-Drops o held t (Has held w no_fds) b u)
            (λ c y d. Has-Drops held (Has-still held h e) d) (λ y d. d)))
        (λ f u (n, e). record { holds = Has-opens held f h n e })

  take_over-Has :
      (a : String) (c : Bool) (w v : W)
      → Has held w no_fds v
      → After (λ b. Has held w (bound_fds b)) (Has held w no_fds) (take_over o a c v)
  unfolding take_over
  take_over-Has a true w v h = record { holds = h }
  take_over-Has a false w v h =
      let remove : Go W Done = map_err (wrap "removing pre-existing socket") (o.remove_socket a) in
      let again : Go W ℕ = map_err (wrap "creating new shim socket on retry") (o.new_socket a) in
      After-bind remove (λ d. again >>= with_file o a) v
        (After-map_err (wrap "removing pre-existing socket") (o.remove_socket a) v (
          still o held t (Has held w no_fds) (o.remove_socket a) (t.remove_socket a)
            (λ u e. Has-still held h e)))
        (λ d u k.
          After-bind again (with_file o a) u
            (After-map_err (wrap "creating new shim socket on retry") (o.new_socket a) u (
              After-weaken _ (t.new_socket a u) (λ s y (n, e). Has-first held s k n e)
                (λ y e. Has-still held k e)))
            (λ s y k. with_file-Has a s w y k))

  connects-Has :
      (a : String) (debug : Bool) (w v : W)
      → Has held w no_fds v
      → After (λ c. Has held w no_fds) (Has held w no_fds) (connects o a debug v)
  unfolding connects
  connects-Has a true w v h = record { holds = h }
  connects-Has a false w v h = record { holds = Has-still held h (t.can_connect a v) }

  after_socket-Has :
      (a : String) (debug : Bool) (r : Error ⊎ ℕ) (w v : W)
      → elim r as (λ r. Type 0) [ inl e ↦ Has held w no_fds v | inr s ↦ Has held w (nat_eq s) v ]
      → After (λ b. Has held w (bound_fds b)) (Has held w no_fds) (after_socket o a debug r v)
  unfolding after_socket
  after_socket-Has a debug (inr s) w v h = with_file-Has a s w v h
  after_socket-Has a debug (inl e) w v h =
      elim (o.socket_eaddrinuse e)
        as (λ b.
          After (λ b. Has held w (bound_fds b)) (Has held w no_fds)
            ((if b
                then connects o a debug >>= take_over o a
                else fail (wrap "creating new shim socket" e))
              v)) [
                | true ↦
                    After-bind (connects o a debug) (take_over o a) v (connects-Has a debug w v h)
                      (λ c u k. take_over-Has a c w u k)
                | false ↦ record { holds = h }
              ]

  try_socket-Has :
      (a : String) (debug : Bool) (w v : W)
      → Has held w no_fds v
      → After (λ b. Has held w (bound_fds b)) (Has held w no_fds) (try_socket o a debug v)
  unfolding try_socket
  try_socket-Has a debug w v h =
      After-bind (attempt (o.new_socket a)) (after_socket o a debug) v
        (After-attempt (o.new_socket a) v (
          After-weaken _ (t.new_socket a v) (λ s y (n, e). Has-first held s h n e)
            (λ y e. Has-still held h e)))
        (λ r u k. after_socket-Has a debug r w u k)

  pub new_shim_socket-Has :
      (path id : String) (debug : Bool) (w v : W)
      → Has held w no_fds v
      → After
          (λ b. Has held w (bound_fds b))
          (Has held w no_fds)
          (new_shim_socket o path id debug v)
  unfolding new_shim_socket
  new_shim_socket-Has path id debug w v h =
      After-bind (o.socket_address path id debug) (λ a. try_socket o a debug) v
        (still o held t (Has held w no_fds) (o.socket_address path id debug)
          (t.socket_address path id debug) (λ u e. Has-still held h e))
        (λ a u k. try_socket-Has a debug w u k)
