-- ===== src/Shim/Descriptors.antt =====
-- cmd/containerd-shim-runm-v2/manager/manager.go: the descriptors that Start opens and closes.
use runm.Base.{
  ℕ, ◌≡◌, refl, ◌∙◌, Bool, false, not, ◌&&◌, ◌||◌, String, Option, none, some, List, [], ◌∷◌, arith,
  nat_eq,
}
use runm.Base.Go.{Outcome, Go, Done, ok, err, panic, skip, ignore, ◌>>◌}
use runm.Base.After.{After, After-weaken, After-ignore, After-bind}
use runm.Shim.Os.{Os, Command}
use runm.Shim.Manager.{ShimSocket, Bound, bound, exists_at, close_socket, close_all}

abbrev pub is_fd : Option ℕ → ℕ → Bool
is_fd none x = false
is_fd (some d) x = nat_eq d x

-- The descriptors of a socket, and of some
abbrev pub fds : ShimSocket → ℕ → Bool
fds t x = is_fd t.f x || is_fd t.s x

abbrev pub all_fds : List ShimSocket → ℕ → Bool
all_fds [] x = false
all_fds (t ∷ ts) x = all_fds ts x || fds t x

abbrev pub bound_fds : Bound → ℕ → Bool
bound_fds (bound t) x = fds t x
bound_fds (exists_at a) x = false

abbrev pub no_fds : ℕ → Bool
no_fds x = false

module _ {W : Type 0} (held : W → ℕ → Bool) where
  -- `v` has opened the descriptors `p` since `w`, and they were new.
  pub record Has (w : W) (p : ℕ → Bool) (v : W) : Type 0 where
    pub now : (x : ℕ) → held v x ≡ (p x || held w x)
    pub fresh : (x : ℕ) → (p x && held w x) ≡ false

  -- `v` has closed the descriptors `p` since `w`.
  pub record Drops (w : W) (p : ℕ → Bool) (v : W) : Type 0 where
    pub now : (x : ℕ) → held v x ≡ (not (p x) && held w x)

  pub Has-refl : (w : W) → Has w no_fds w
  Has-refl w = record { now = λ x. refl; fresh = λ x. refl }

  pub Has-still :
      {w v u : W} {p : ℕ → Bool} → Has w p v → ((x : ℕ) → held u x ≡ held v x) → Has w p u
  Has-still a b = record { now = λ x. b x ∙ a.now x; fresh = a.fresh }

  pub Has-opens :
      {w v u : W} {p : ℕ → Bool} (d : ℕ)
      → Has w p v
      → held v d ≡ false
      → ((x : ℕ) → held u x ≡ (nat_eq d x || held v x))
      → Has w (λ x. nat_eq d x || p x) u
  Has-opens {w} {v} {u} {p} d a n b = record {
    now = λ x. ground (arith, b x, a.now x);
    fresh = λ x. grind (arith, a.fresh x, a.now x, a.now d, n);
  }

  pub Has-first :
      {w v u : W} (d : ℕ)
      → Has w no_fds v
      → held v d ≡ false
      → ((x : ℕ) → held u x ≡ (nat_eq d x || held v x))
      → Has w (nat_eq d) u
  Has-first {w} {v} {u} d a n b = record {
    now = λ x. ground (arith, b x, a.now x);
    fresh = λ x. grind (arith, a.now x, a.now d, n);
  }

  pub Has-add : {w v u : W} {p q : ℕ → Bool} → Has w p v → Has v q u → Has w (λ x. q x || p x) u
  Has-add a b = record {
    now = λ x. ground (arith, b.now x, a.now x);
    fresh = λ x. ground (arith, b.fresh x, a.fresh x, a.now x);
  }

  pub Has-Drops : {w v u : W} {p : ℕ → Bool} → Has w p v → Drops v p u → Has w no_fds u
  Has-Drops a b = record {
    now = λ x. ground (arith, b.now x, a.now x, a.fresh x);
    fresh = λ x. refl;
  }

  pub Drops-still :
      {w v u : W} {p : ℕ → Bool} → Drops w p v → ((x : ℕ) → held u x ≡ held v x) → Drops w p u
  Drops-still a b = record { now = λ x. b x ∙ a.now x }

  pub Drops-both :
      {w v u : W} {p q : ℕ → Bool} → Drops w p v → Drops v q u → Drops w (λ x. q x || p x) u
  Drops-both a b = record { now = λ x. ground (arith, b.now x, a.now x) }

module _ {W : Type 0} (o : Os W) (held : W → ℕ → Bool) where
  -- A call that opens and closes nothing
  abbrev pub IsStill : {A : Type 0} → Go W A → Type 0
  IsStill m = (w : W) (x : ℕ) → held (m w).1 x ≡ held w x

  -- A call that opens a new descriptor, if it succeeds
  abbrev pub Opens : Go W ℕ → Type 0
  Opens m =
      (w : W)
      → After (λ d v. (held w d ≡ false) × ((x : ℕ) → held v x ≡ (nat_eq d x || held w x)))
          (λ v. (x : ℕ) → held v x ≡ held w x) (m w)

  abbrev pub Closes : (ℕ → Go W Done) → Type 0
  Closes f = (d : ℕ) (w : W) (x : ℕ) → held (f d w).1 x ≡ (not (nat_eq d x) && held w x)

  -- What the calls do with descriptors, as the operating system says it.
  pub record IsTracked : Type 0 where
    pub namespace_required : IsStill o.namespace_required
    pub executable : IsStill o.executable
    pub getwd : IsStill o.getwd
    pub environ : (w : W) (x : ℕ) → held (o.environ w).1 x ≡ held w x
    pub open_file : (s : String) → Opens (o.open_file s)
    pub decode_spec : (d : ℕ) → IsStill (o.decode_spec d)
    pub close_file : Closes o.close_file
    pub listener_file : (d : ℕ) → Opens (o.listener_file d)
    pub close_listener : Closes o.close_listener
    pub socket_address : (p i : String) (b : Bool) → IsStill (o.socket_address p i b)
    pub new_socket : (a : String) → Opens (o.new_socket a)
    pub can_connect : (a : String) (w : W) (x : ℕ) → held (o.can_connect a w).1 x ≡ held w x
    pub remove_socket : (a : String) → IsStill (o.remove_socket a)
    pub adjust_oom_score : (p : ℕ) → IsStill (o.adjust_oom_score p)
    pub start_command : (c : Command) → IsStill (o.start_command c)
    pub kill_command : (p : ℕ) → IsStill (o.kill_command p)

  module _ (t : IsTracked) where
    pub still :
        {A : Type 0} {v : W} (P : W → Type 0) (m : Go W A)
        → IsStill m
        → ((u : W) → ((x : ℕ) → held u x ≡ held v x) → P u)
        → After (λ a. P) P (m v)
    still {A} {v} P m k h = go (m v) (k v)
      where
        go : (x : Outcome A × W) → ((y : ℕ) → held x.1 y ≡ held v y) → After (λ a. P) P x
        go (ok a, u) e = record { holds = h u e }
        go (err a, u) e = record { holds = h u e }
        go (panic, u) e = record { holds = tt }

    pub close_fd-Drops :
        (f : ℕ → Go W Done) (d : ℕ) (w : W)
        → Closes f
        → After (λ a. Drops held w (is_fd (some d))) (Drops held w (is_fd (some d))) (f d w)
    close_fd-Drops f d w k = go (f d w) (k d w)
      where
        go :
            (x : Outcome Done × W)
            → ((y : ℕ) → held x.1 y ≡ (not (nat_eq d y) && held w y))
            → After (λ a. Drops held w (is_fd (some d))) (Drops held w (is_fd (some d))) x
        go (ok a, u) e = record { holds = record { now = e } }
        go (err a, u) e = record { holds = record { now = e } }
        go (panic, u) e = record { holds = tt }

    close_opt-Drops :
        (Q : W → Type 0) (f : ℕ → Go W Done) (d : Option ℕ) (w : W)
        → Closes f
        → After
            (λ a. Drops held w (is_fd d))
            Q
            ((elim d as (λ d. Go W Done) [ none ↦ skip | some s ↦ ignore (f s) ]) w)
    close_opt-Drops Q f none w k = record { holds = record { now = λ x. refl } }
    close_opt-Drops Q f (some d) w k = After-ignore (f d) w (close_fd-Drops f d w k)

    pub close_socket-Drops :
        (Q : W → Type 0) (s : ShimSocket) (w : W)
        → After (λ a. Drops held w (fds s)) Q (close_socket o s w)
    unfolding close_socket
    close_socket-Drops Q s w =
        let listener : Go W Done = elim s.s [
          | none ↦ skip
          | some d ↦ ignore (o.close_listener d)
        ] in
        let file : Go W Done = elim s.f [ none ↦ skip | some d ↦ ignore (o.close_file d) ] in
        let rest : Go W Done = ignore (o.remove_socket s.addr) in
        After-bind listener (λ a. file >> rest) w
          (close_opt-Drops Q o.close_listener s.s w t.close_listener)
          (λ a v p.
            After-bind file (λ b. rest) v (close_opt-Drops Q o.close_file s.f v t.close_file)
              (λ b u q. After-ignore (o.remove_socket s.addr) u (
                still (Drops held w (fds s)) (o.remove_socket s.addr) (t.remove_socket s.addr)
                  (λ y e. Drops-still held (Drops-both held p q) e))))

    pub close_all-Drops :
        (Q : W → Type 0) (ss : List ShimSocket) (w : W)
        → After (λ a. Drops held w (all_fds ss)) Q (close_all o ss w)
    unfolding close_all
    close_all-Drops Q [] w = record { holds = record { now = λ x. refl } }
    close_all-Drops Q (s ∷ ss) w =
        After-bind (close_socket o s) (λ a. close_all o ss) w (close_socket-Drops Q s w)
          (λ a v p.
            After-weaken _ (close_all-Drops Q ss v) (λ b u q. Drops-both held p q) (λ u q. q))
