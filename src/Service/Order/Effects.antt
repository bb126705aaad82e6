-- ===== src/Service/Order/Effects.antt =====
-- What the locked sections of task/service.go do to the counter of execs, to the channel of the
-- waiter, and to the processes that are running.
use runm.Base.{
  put, nat_eq, Bool-cases, inl, inr, ℕ, suc, ◌+◌, ◌≡◌, refl, Bool, true, false, ◌&&◌, ◌||◌, not,
  Option, none, some, List, [], ◌∷◌, ◌++◌, ℤ, pos, is_zero, is_some, if◌then◌else◌, arith,
}
use runm.Base.Go.{ok}
use runm.Service.Maps.{ContainerPid, values, without}
use runm.Service.Lifecycle.{
  Exit, ReaperExit, Service, Processes, begin_start, claim, claim_exits, started_key, collect,
  handle_process_exit, report_exit, receive, forget, pre_start, exec_done, hold_init_exit, exit_key,
  stash, ContainerProcess,
}
use runm.Service.Order.{
  InitPhase, alive, stashed, held, released, published, unheld, names_init, execs, execs_of,
}

-- A number 0 in the channel of the waiter means that the counter is 0.
abbrev pub settled_list : ℤ → List ℤ → Bool
settled_list r [] = true
settled_list r (n ∷ ns) = (not (is_zero n) || is_zero r) && settled_list r ns

abbrev pub has_zero : List ℤ → Bool
has_zero [] = false
has_zero (n ∷ ns) = is_zero n || has_zero ns

-- While the waiter holds the exit it has a channel, and once the counter is 0 it is told so.
abbrev pub settled : ℤ → Option (List ℤ) → Bool
settled r none = false
settled r (some ns) = settled_list r ns && (not (is_zero r) || has_zero ns)

abbrev pub phase_settled : InitPhase → Option Exit → Option (List ℤ) → ℤ → Bool
phase_settled alive e q r = true
phase_settled stashed e q r = is_some e
phase_settled held e q r = is_some e && settled r q
phase_settled released e q r = is_some e && is_zero r
phase_settled published e q r = is_some e && is_zero r
phase_settled unheld e q r = true

has_zero-append : (ns : List ℤ) (n : ℤ) → is_zero n ≡ true → has_zero (ns ++ n ∷ []) ≡ true
has_zero-append [] n z = ground arith
has_zero-append (m ∷ ns) n z = ground (arith, has_zero-append ns n z)

settled-append :
    (r : ℤ) (n : ℕ) (ns : List ℤ)
    → r ≡ pos (suc n)
    → settled_list r ns ≡ true
    → settled_list (pos n) (ns ++ pos n ∷ []) ≡ true
settled-append r n [] h k = ground arith
settled-append r n (m ∷ ns) h k = ground (arith, settled-append r n ns h)

module _ {S : Type 0} (ps : Processes S) where
  pub execs-append :
      (m n : List (ContainerPid × ContainerProcess)) → execs ps (m ++ n) ≡ execs ps m + execs ps n
  execs-append [] n = omega arith
  execs-append ((k, cp) ∷ m) n = ground (arith, execs-append m n)

  pub execs-without :
      (k : ContainerPid) (m : List (ContainerPid × ContainerProcess))
      → execs ps m ≡ execs ps (without k m) + execs_of ps (values k m)
  execs-without k [] = refl
  execs-without k ((j, cp) ∷ m) = ground (arith, execs-without k m)

  -- The counter is the number of execs ps that are being started, run, or are being handled.
  pub record IsSound (c : ℕ) (ph : InitPhase) (active : ℕ) (s : Service) : Type 0 where
    pub count : s.running_execs c ≡ pos (active + execs ps s.running)
    pub settles :
        phase_settled ph (s.container_init_exit c) (s.exec_count_subscribers c) (s.running_execs c)
        ≡ true

  pub settles_done :
      (ph : InitPhase) (e : Option Exit) (q : Option (List ℤ)) (n : ℕ)
      → phase_settled ph e q (pos (suc n)) ≡ true
      → phase_settled ph e (elim q [ none ↦ none | some ch ↦ some (ch ++ pos n ∷ []) ]) (pos n)
        ≡ true
  settles_done alive e q n h = refl
  settles_done stashed e q n h = h
  settles_done released e q n h = ground arith
  settles_done unheld e q n h = refl
  settles_done published e q n h = ground arith
  settles_done held e none n h = h
  settles_done held e (some ch) n h =
      ground (arith, settled-append (pos (suc n)) n ch refl, has_zero-append ch (pos n))

  pub exec_done-IsSound :
      (c n : ℕ) (ph : InitPhase) (s : Service)
      → IsSound c ph (suc n) s
      → IsSound c ph n (exec_done c s)
  unfolding exec_done
  exec_done-IsSound c n ph s i = record {
    count = ground (arith, i.count);
    settles = ground (
      arith,
      i.count,
      i.settles,
      settles_done ph (s.container_init_exit c) (s.exec_count_subscribers c)
          (n + execs ps s.running),
    );
  }

  pub SameView : ℕ → Service → Service → Type 0
  SameView c s u =
      (u.running_execs c ≡ s.running_execs c)
      × (u.exec_count_subscribers c ≡ s.exec_count_subscribers c)
      × (u.container_init_exit c ≡ s.container_init_exit c)
      × (u.running ≡ s.running)

  same-IsSound :
      (c n : ℕ) (ph : InitPhase) (s u : Service)
      → SameView c s u
      → IsSound c ph n s
      → IsSound c ph n u
  unfolding SameView
  same-IsSound c n ph s u v i = record {
    count = ground (arith, v, i.count);
    settles = ground (arith, v, i.settles);
  }

  pub reported-IsSound :
      (e : Exit) (c p n : ℕ) (ph : InitPhase) (s u : Service) (t w : S)
      → report_exit ps e c p (s, t) ≡ (ok tt, (u, w))
      → IsSound c ph n s
      → IsSound c ph n u
  unfolding SameView
  reported-IsSound e c p n ph s u t w h = same-IsSound c n ph s u (ground arith)

  settles_unstashed :
      (ph : InitPhase) (e : Option Exit) (q : Option (List ℤ)) (r u : ℤ)
      → is_some e ≡ false
      → phase_settled ph e q r ≡ true
      → phase_settled ph e q u ≡ true
  settles_unstashed alive e q r u h k = refl
  settles_unstashed stashed e q r u h k = k
  settles_unstashed held e q r u h k = ground arith
  settles_unstashed released e q r u h k = ground arith
  settles_unstashed unheld e q r u h k = refl
  settles_unstashed published e q r u h k = ground arith

  pub begin-IsSound :
      (c a n : ℕ) (ph : InitPhase) (s u : Service) (t w : S)
      → begin_start ps true c (s, t) ≡ (ok a, (u, w))
      → IsSound c ph n s
      → IsSound c ph (suc n) u
  unfolding begin_start pre_start
  begin-IsSound c a n ph s u t w h i = record {
    count = ground (arith, i.count);
    settles = ground (
      arith,
      i.settles,
      settles_unstashed ph (s.container_init_exit c) (s.exec_count_subscribers c)
          (s.running_execs c) (u.running_execs c),
    );
  }

  pub claim_none-IsSound :
      (c a n p : ℕ) (pid : ℤ) (ph : InitPhase) (s u : Service)
      → ps.is_init p ≡ false
      → is_zero pid ≡ false
      → claim ps a c p pid s ≡ ([], u)
      → IsSound c ph (suc n) s
      → IsSound c ph n u
  unfolding claim claim_exits
  claim_none-IsSound c a n p pid ph s u z y h i = record {
    count = ground (
      arith,
      i.count,
      execs-append s.running ((started_key ps c pid, record { container = c; process = p }) ∷ []),
    );
    settles = ground (arith, i.settles);
  }

  pub claim_one-IsSound :
      (c a n p : ℕ) (e : Exit) (pid : ℤ) (ph : InitPhase) (s u : Service)
      → claim ps a c p pid s ≡ (e ∷ [], u)
      → IsSound c ph n s
      → IsSound c ph n u
  unfolding claim claim_exits
  claim_one-IsSound c a n p e pid ph s u h i = record {
    count = ground (arith, i.count);
    settles = ground (arith, i.settles);
  }

  pub dropped-IsSound :
      (c a p n : ℕ) (pid : ℤ) (ph : InitPhase) (s u : Service)
      → is_zero pid ≡ true
      → claim ps a c p pid s ≡ ([], u)
      → IsSound c ph n s
      → IsSound c ph n u
  unfolding SameView claim claim_exits
  dropped-IsSound c a p n pid ph s u z h = same-IsSound c n ph s u (ground arith)

  -- An init process is entered as running.
  pub claim_init-IsSound :
      (c a n p : ℕ) (pid : ℤ) (ph : InitPhase) (s u : Service)
      → ps.is_init p ≡ true
      → is_zero pid ≡ false
      → claim ps a c p pid s ≡ ([], u)
      → IsSound c ph n s
      → IsSound c ph n u
  unfolding claim claim_exits
  claim_init-IsSound c a n p pid ph s u z y h i = record {
    count = ground (
      arith,
      i.count,
      execs-append s.running ((started_key ps c pid, record { container = c; process = p }) ∷ []),
    );
    settles = ground (arith, i.settles);
  }

  pub init_begins-IsSound :
      (c a n : ℕ) (ph : InitPhase) (s u : Service) (t w : S)
      → begin_start ps false c (s, t) ≡ (ok a, (u, w))
      → execs ps u.running ≡ execs ps s.running
      → IsSound c ph n s
      → IsSound c ph n u
  unfolding begin_start pre_start
  init_begins-IsSound c a n ph s u t w h e i = record {
    count = ground (arith, i.count, e);
    settles = ground (arith, i.settles);
  }

  stash-is_some :
      (e : Exit) (c : ℕ) (cps : List ContainerProcess) (f : ℕ → Option Exit)
      → is_some (f c) ≡ true
      → is_some (stash ps e cps f c) ≡ true
  stash-is_some e c [] f h = h
  stash-is_some e c (cp ∷ cps) f h =
      stash-is_some e c cps (if ps.is_init cp.process then put cp.container (some e) f else f)
        (ground arith)

  stash-names_init :
      (e : Exit) (c : ℕ) (cps : List ContainerProcess) (f : ℕ → Option Exit)
      → names_init ps c cps ≡ true
      → is_some (stash ps e cps f c) ≡ true
  stash-names_init e c [] f h = ground arith
  stash-names_init e c (cp ∷ cps) f h =
      let g = if ps.is_init cp.process then put cp.container (some e) f else f in
      elim (Bool-cases (ps.is_init cp.process && nat_eq cp.container c)) [
        | inl y ↦ stash-is_some e c cps g (ground arith)
        | inr n ↦ stash-names_init e c cps g (ground (arith, h, n))
      ]

  settles_stash :
      (ph : InitPhase) (e d : Option Exit) (q : Option (List ℤ)) (r : ℤ)
      → (is_some e ≡ true → is_some d ≡ true)
      → phase_settled ph e q r ≡ true
      → phase_settled ph d q r ≡ true
  settles_stash alive e d q r k h = refl
  settles_stash stashed e d q r k h = k h
  settles_stash held e d q r k h = ground (arith, h, k (ground (arith, h)))
  settles_stash released e d q r k h = ground (arith, h, k (ground (arith, h)))
  settles_stash published e d q r k h = ground (arith, h, k (ground (arith, h)))
  settles_stash unheld e d q r k h = refl

  -- A report takes the execs that it names out of the running ones.
  collect-count :
      (c n : ℕ) (ce : ReaperExit) (cps : List ContainerProcess) (s u : Service)
      → collect ps ce s ≡ (cps, u)
      → s.running_execs c ≡ pos (n + execs ps s.running)
      → u.running_execs c ≡ pos (n + execs_of ps cps + execs ps u.running)
  unfolding collect
  collect-count c n ce cps s u h k = ground (arith, h, k, execs-without (exit_key ce) s.running)

  pub exec_exits-IsSound :
      (c n : ℕ) (cps : List ContainerProcess) (ce : ReaperExit) (ph : InitPhase) (s u : Service)
      → collect ps ce s ≡ (cps, u)
      → IsSound c ph n s
      → IsSound c ph (n + execs_of ps cps) u
  unfolding collect
  exec_exits-IsSound c n cps ce ph s u h i = record {
    count = collect-count c n ce cps s u h i.count;
    settles = ground (
      arith,
      h,
      settles_stash ph (s.container_init_exit c)
          (stash ps ce.exit (values (exit_key ce) s.running) s.container_init_exit c)
          (s.exec_count_subscribers c) (s.running_execs c)
          (stash-is_some ce.exit c (values (exit_key ce) s.running) s.container_init_exit)
          i.settles,
    );
  }

  pub init_exits-IsSound :
      (c n : ℕ) (cps : List ContainerProcess) (ce : ReaperExit) (ph : InitPhase) (s u : Service)
      → names_init ps c cps ≡ true
      → collect ps ce s ≡ (cps, u)
      → IsSound c ph n s
      → IsSound c stashed (n + execs_of ps cps) u
  unfolding collect
  init_exits-IsSound c n cps ce ph s u z h i = record {
    count = collect-count c n ce cps s u h i.count;
    settles = ground (arith, h, z, stash-names_init ce.exit c cps s.container_init_exit z);
  }

  pub freed-IsSound :
      (e : Exit) (c p n : ℕ) (s u : Service) (t w : S)
      → hold_init_exit ps e c p (s, t) ≡ (ok true, (u, w))
      → IsSound c stashed n s
      → IsSound c released n u
  unfolding hold_init_exit
  freed-IsSound e c p n s u t w h i = record {
    count = ground (arith, i.count);
    settles = ground (arith, i.count, i.settles);
  }

  pub kept-IsSound :
      (e : Exit) (c p n : ℕ) (s u : Service) (t w : S)
      → hold_init_exit ps e c p (s, t) ≡ (ok false, (u, w))
      → IsSound c stashed n s
      → IsSound c held n u
  unfolding hold_init_exit
  kept-IsSound e c p n s u t w h i = record {
    count = ground (arith, i.count);
    settles = ground (arith, i.count, i.settles);
  }

  pub woken-IsSound :
      (c n : ℕ) (m : ℤ) (ch : List ℤ) (s : Service)
      → s.exec_count_subscribers c ≡ some (m ∷ ch)
      → IsSound c held n s
      → IsSound c (if is_zero m then released else held) n (receive c ch s)
  woken-IsSound c n m ch s q i = record {
    count = ground (arith, i.count);
    settles = ground (arith, i.count, i.settles);
  }

  pub publishes-IsSound :
      (e : Exit) (c p n : ℕ) (s u : Service) (t w : S)
      → ps.is_init p ≡ true
      → handle_process_exit ps e c p (s, t) ≡ (ok tt, (u, w))
      → IsSound c released n s
      → IsSound c published n u
  unfolding handle_process_exit
  publishes-IsSound e c p n s u t w z h i = record {
    count = ground (arith, i.count);
    settles = ground (arith, i.settles);
  }

  pub forgotten-IsSound :
      (c n : ℕ) (s : Service) → IsSound c published n s → IsSound c published n (forget c s)
  forgotten-IsSound c n s i = record {
    count = ground (arith, i.count, i.settles);
    settles = ground (arith, i.settles);
  }

  -- The exit of an init process that handleStarted has found is published.
  pub unheld-IsSound :
      (e : Exit) (c p n : ℕ) (s u : Service) (t w : S)
      → ps.is_init p ≡ true
      → handle_process_exit ps e c p (s, t) ≡ (ok tt, (u, w))
      → IsSound c unheld n s
      → IsSound c unheld n u
  unfolding handle_process_exit
  unheld-IsSound e c p n s u t w z h i = record { count = ground (arith, i.count); settles = refl }
