-- ===== src/Shim/Leaks.antt =====
-- cmd/containerd-shim-runm-v2/manager/manager.go: Start opens no descriptor that it does not close
-- when it fails.
use runm.Base.{
  ℕ, if◌then◌else◌, ◌≡◌, Bool, true, false, String, List, [], ◌∷◌, arith, nat_eq, inl, inr, ◌⊎◌,
}
use runm.Base.Errors.{Error, wrap, is_error, err_already_exists}
use runm.Base.Go.{
  Outcome, Go, Done, ok, err, panic, is_err, ignore, pure, fail, panics, map_err, asks, attempt,
  defer_call, ◌>>◌, ◌>>=◌,
}
use runm.Base.After.{
  After, After-weaken, After-map_err, After-ignore, After-attempt, After-on_err, After-bind,
  After-defer_call,
}
use runm.Shim.Os.{Os, Command, Spec}
use runm.Shim.Manager.{
  params_at, first_addr, command_of, grouping_of, group_labels, files_of, ShimSocket, Bound, bound,
  exists_at, BootstrapParams, StartOpts, new_command, read_spec, new_shim_socket, close_all,
  open_debug, launch_command, start_bound, start_grouped, start_shim, add_debug, adjust_command,
}
use runm.Shim.Descriptors.{
  fds, all_fds, bound_fds, no_fds, Has, Has-refl, Has-still, Has-first, Has-add, Has-Drops,
  IsTracked, still, close_all-Drops, close_fd-Drops,
}
use runm.Shim.Binding.{new_shim_socket-Has}

module _ {W : Type 0} (o : Os W) (held : W → ℕ → Bool) (t : IsTracked o held) where
  keep :
      {A : Type 0} (m : Go W A)
      → ((u : W) (x : ℕ) → held (m u).1 x ≡ held u x)
      → (w v : W) → Has held w no_fds v
      → After (λ a. Has held w no_fds) (Has held w no_fds) (m v)
  keep m k w v h = still o held t (Has held w no_fds) m k (λ u e. Has-still held h e)

  close_all-Has :
      (ts : List ShimSocket) (w v : W)
      → Has held w (all_fds ts) v
      → After (λ a. Has held w no_fds) (Has held w no_fds) (close_all o ts v)
  close_all-Has ts w v h =
      After-weaken _ (close_all-Drops o held t (Has held w no_fds) ts v)
        (λ a u d. Has-Drops held h d) (λ u d. d)

  add_debug-Has :
      (s : ShimSocket) (b : Bound) (w v u : W)
      → Has held w (fds s) v
      → Has held v (bound_fds b) u
      → After (λ ts. Has held w (all_fds ts)) (Has held w (all_fds (s ∷ []))) (add_debug o s b u)
  unfolding add_debug
  add_debug-Has s (bound r) w v u h k = record { holds = Has-add held h k }
  add_debug-Has s (exists_at a) w v u h k = record { holds = Has-add held h k }

  open_debug-Has :
      (debug : Bool) (path g : String) (s : ShimSocket) (w v : W)
      → Has held w (fds s) v
      → After (λ ts. Has held w (all_fds ts)) (Has held w no_fds) (open_debug o debug path g s v)
  unfolding open_debug
  open_debug-Has false path g s w v h = record { holds = h }
  open_debug-Has true path g s w v h =
      After-on_err (new_shim_socket o path g true >>= add_debug o s) (close_all o (s ∷ [])) v
        (After-bind (new_shim_socket o path g true) (add_debug o s) v
          (After-weaken _ (new_shim_socket-Has o held t path g true v v (Has-refl held v))
            (λ b u k. k) (λ u k. Has-add held h k))
          (λ b u k. add_debug-Has s b w v u h k))
        (λ u k. close_all-Has (s ∷ []) w u k)

  adjust_command-Has :
      (ts : List ShimSocket) (pid : ℕ) (w v : W)
      → Has held w (all_fds ts) v
      → After (λ p u. Unit {0}) (Has held w (all_fds ts)) (adjust_command o ts pid v)
  unfolding adjust_command
  adjust_command-Has ts pid w v h =
      let adjust : Go W Done =
        map_err (wrap "adjusting OOM score for shim") (o.adjust_oom_score pid) in
      After-on_err (adjust >> pure (params_at (first_addr ts))) (ignore (o.kill_command pid)) v
        (After-bind adjust (λ a. pure (params_at (first_addr ts))) v
          (After-map_err (wrap "adjusting OOM score for shim") (o.adjust_oom_score pid) v (
            still o held t (Has held w (all_fds ts)) (o.adjust_oom_score pid)
              (t.adjust_oom_score pid) (λ u e. Has-still held h e)))
          (λ a u k. record { holds = tt }))
        (λ u k. After-ignore (o.kill_command pid) u (
          still o held t (Has held w (all_fds ts)) (o.kill_command pid) (t.kill_command pid)
            (λ y e. Has-still held k e)))

  launch_command-Has :
      (c : Command) (ts : List ShimSocket) (w v : W)
      → Has held w (all_fds ts) v
      → After (λ p u. Unit {0}) (Has held w no_fds) (launch_command o c ts v)
  unfolding launch_command
  launch_command-Has c ts w v h =
      let cmd = record c { extra_files = files_of ts } in
      After-on_err (o.start_command cmd >>= adjust_command o ts) (close_all o ts) v
        (After-bind (o.start_command cmd) (adjust_command o ts) v
          (still o held t (Has held w (all_fds ts)) (o.start_command cmd) (t.start_command cmd)
            (λ u e. Has-still held h e))
          (λ pid u k. adjust_command-Has ts pid w u k))
        (λ u k. close_all-Has ts w u k)

  start_bound-Has :
      (c : Command) (opts : StartOpts) (g : String) (r : Error ⊎ Bound) (w v : W)
      → elim r as (λ r. Type 0) [ inl e ↦ Has held w no_fds v | inr b ↦ Has held w (bound_fds b) v ]
      → After (λ p u. Unit {0}) (Has held w no_fds) (start_bound o c opts g r v)
  unfolding start_bound
  start_bound-Has c opts g (inl e) w v h =
      elim (is_error err_already_exists e)
        as (λ b.
          After (λ (p : BootstrapParams) u. Unit {0}) (Has held w no_fds)
            ((if b then panics else fail e) v)) [
              | true ↦ record { holds = tt }
              | false ↦ record { holds = h }
            ]
  start_bound-Has c opts g (inr (exists_at a)) w v h = record { holds = tt }
  start_bound-Has c opts g (inr (bound s)) w v h =
      After-bind (open_debug o opts.debug opts.address g s) (launch_command o c) v
        (open_debug-Has opts.debug opts.address g s w v h) (λ ts u k. launch_command-Has c ts w u k)

  start_grouped-Has :
      (c : Command) (opts : StartOpts) (g : String) (w v : W)
      → Has held w no_fds v
      → After (λ p u. Unit {0}) (Has held w no_fds) (start_grouped o c opts g v)
  unfolding start_grouped
  start_grouped-Has c opts g w v h =
      After-bind (attempt (new_shim_socket o opts.address g false)) (start_bound o c opts g) v
        (After-attempt (new_shim_socket o opts.address g false) v
          (new_shim_socket-Has o held t opts.address g false w v h))
        (λ r u k. start_bound-Has c opts g r w u k)

  close_file-Has :
      (f : ℕ) (w v : W)
      → Has held w (nat_eq f) v
      → After (λ a. Has held w no_fds) (Has held w no_fds) (o.close_file f v)
  close_file-Has f w v h =
      After-weaken _ (close_fd-Drops o held t o.close_file f v t.close_file)
        (λ a u d. Has-Drops held h d) (λ u d. Has-Drops held h d)

  read_spec-Has :
      (w v : W)
      → Has held w no_fds v
      → After (λ s. Has held w no_fds) (Has held w no_fds) (read_spec o v)
  unfolding read_spec
  read_spec-Has w v h =
      let close : ℕ → Go W Done = λ f. ignore (o.close_file f) in
      After-bind (o.open_file "config.json") (λ f. defer_call (o.decode_spec f) (close f)) v
        (After-weaken _ (t.open_file "config.json" v) (λ f u (n, e). Has-first held f h n e)
          (λ u e. Has-still held h e))
        (λ f u k.
          After-defer_call (o.decode_spec f) (close f) u
            (still o held t (Has held w (nat_eq f)) (o.decode_spec f) (t.decode_spec f)
              (λ y e. Has-still held k e))
            (λ y k. After-ignore (o.close_file f) y (close_file-Has f w y k)))

  new_command-Has :
      (id : String) (opts : StartOpts) (w v : W)
      → Has held w no_fds v
      → After (λ c. Has held w no_fds) (Has held w no_fds) (new_command o id opts v)
  unfolding new_command
  new_command-Has id opts w v h =
      let env : String → String → String → Go W Command = λ ns self cwd.
        asks o.environ >>= λ env. pure (command_of o.append_text id opts ns self cwd env) in
      let dir : String → String → Go W Command = λ ns self. o.getwd >>= env ns self in
      let path : String → Go W Command = λ ns. o.executable >>= dir ns in
      After-bind o.namespace_required path v (keep o.namespace_required t.namespace_required w v h)
        (λ ns v1 h1.
          After-bind o.executable (dir ns) v1 (keep o.executable t.executable w v1 h1)
            (λ self v2 h2.
              After-bind o.getwd (env ns self) v2 (keep o.getwd t.getwd w v2 h2)
                (λ cwd v3 h3. record { holds = Has-still held h3 (t.environ v3) })))

  start_shim-Has :
      (id : String) (opts : StartOpts) (w : W)
      → After (λ p u. Unit {0}) (Has held w no_fds) (start_shim o id opts w)
  unfolding start_shim
  start_shim-Has id opts w =
      let with_spec : Command → Spec → Go W BootstrapParams =
        λ c spec. start_grouped o c opts (grouping_of group_labels spec id) in
      After-bind (new_command o id opts) (λ c. read_spec o >>= with_spec c) w
        (new_command-Has id opts w w (Has-refl held w))
        (λ c v h.
          After-bind (read_spec o) (with_spec c) v (read_spec-Has w v h)
            (λ spec u k. start_grouped-Has c opts (grouping_of group_labels spec id) w u k))

  failed-Has :
      {A : Type 0} (w : W) (r : Outcome A × W)
      → After (λ p u. Unit {0}) (Has held w no_fds) r
      → is_err r.0 ≡ true
      → (x : ℕ) → held r.1 x ≡ held w x
  failed-Has w (err e, v) a h x = a.holds.now x
  failed-Has w (ok p, v) a h x = ground (arith, h)
  failed-Has w (panic, v) a h x = ground (arith, h)

  -- Under calls that open and close descriptors as the operating system says: when Start fails, the
  -- descriptors that are open are those that were open before.
  pub start_shim_failed :
      (id : String) (opts : StartOpts) (w : W) (x : ℕ)
      → is_err (start_shim o id opts w).0 ≡ true
      → held (start_shim o id opts w).1 x ≡ held w x
  start_shim_failed id opts w x e =
      failed-Has w (start_shim o id opts w) (start_shim-Has id opts w) e x
