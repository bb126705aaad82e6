-- ===== src/Service/Order/Last.antt =====
-- The exit of the init process, and those of the execs, in every interleaving of regular steps.
use runm.Base.{ℕ, suc, ◌+◌, ◌≡◌, refl, ap, sym, subst, List, ◌∷◌, ℤ, pos, ◌∙◌, arith}
use runm.Service.Lifecycle.{Exit, Service, Processes, claim, claim_exits, forget}
use runm.Service.Order.{
  InitPhase, alive, System, Step, outside, begin, init_begins, failed, dropped, failed_registers,
  registered, pidless, early, announced, init_announced, init_registered, init_early,
  unheld_published, exec_exits, init_exits, reported, finished, freed, kept, woken, publishes,
  forgotten, Reach, here, next, execs, count as count_exits, IsRegular, IsRegularRun,
}
use runm.Service.Order.Effects.{
  IsSound, begin-IsSound, init_begins-IsSound, exec_done-IsSound, dropped-IsSound,
  claim_none-IsSound, claim_init-IsSound, claim_one-IsSound, exec_exits-IsSound, init_exits-IsSound,
  reported-IsSound, freed-IsSound, kept-IsSound, woken-IsSound, publishes-IsSound,
  forgotten-IsSound, unheld-IsSound,
}

module _ {S : Type 0} (ps : Processes S) (c : ℕ) where
  abbrev pub Sound : System S → Type 0
  Sound x = IsSound ps c x.phase (x.starting + x.handling) x.service

  -- The same service, with the phase and the number of execs written in another way.
  also :
      {ph qh : InitPhase} {n m : ℕ} (s : Service)
      → ph ≡ qh
      → n ≡ m
      → IsSound ps c ph n s
      → IsSound ps c qh m s
  also {qh = qh} {n = n} s e f i =
      subst (λ k. IsSound ps c qh k s) f (subst (λ q. IsSound ps c q n s) e i)

  -- What handleStarted of the init process finds leaves the running processes and the counter.
  early_same :
      (a p : ℕ) (pid : ℤ) (e : Exit) (es : List Exit) (s u : Service)
      → claim ps a c p pid s ≡ (e ∷ es, u)
      → (u.running_execs c ≡ s.running_execs c) × (u.running ≡ s.running)
  unfolding claim claim_exits
  early_same a p pid e es s u h = ground arith

  Step-Sound : {x y : System S} (s : Step ps c x y) → IsRegular ps c s → Sound x → Sound y
  Step-Sound {x = x} (outside t e) reg i =
      subst Sound (sym e) (record { count = i.count; settles = i.settles })
  Step-Sound {x = x} (begin a s t h e) reg i = subst Sound (sym e) (
      also s refl (omega arith)
        (begin-IsSound ps c a (x.starting + x.handling) x.phase x.service s x.world t h i))
  Step-Sound {x = x} (failed n k e) reg i = subst Sound (sym e) (
      exec_done-IsSound ps c (n + x.handling) x.phase x.service
        (also x.service refl (omega (arith, k)) i))
  Step-Sound {x = x} (init_begins a s t h e) reg i = subst Sound (sym e) (
      init_begins-IsSound ps c a (x.starting + x.handling) x.phase x.service s x.world t h
        (sym (ap (λ z. execs ps z.service.running) e) ∙ reg) i)
  Step-Sound {x = x} (dropped a p pid s z h e) reg i =
      subst Sound (sym e)
        (dropped-IsSound ps c a p (x.starting + x.handling) pid x.phase x.service s z h i)
  Step-Sound {x = x} (failed_registers a p pid es s k z h e) reg i = absurd reg
  Step-Sound {x = x} (pidless a n p pid s k z nz h e) reg i = absurd reg
  Step-Sound {x = x} (init_announced p e) reg i =
      subst Sound (sym e) (record { count = i.count; settles = i.settles })
  Step-Sound {x = x} (init_registered a p pid s z nz h e) reg i =
      subst Sound (sym e)
        (claim_init-IsSound ps c a (x.starting + x.handling) p pid x.phase x.service s z nz h i)
  Step-Sound {x = x} (init_early a p pid ex es s z h e) reg i =
      let (l, m) = early_same a p pid ex es x.service s h in
      subst Sound (sym e) (record {
        count = l ∙ i.count ∙ ap (λ m. pos (x.starting + x.handling + execs ps m)) (sym m);
        settles = refl;
      })
  Step-Sound {x = x} (unheld_published ex p s t k z h e) reg i = subst Sound (sym e) (
      also s (sym k) refl (
        unheld-IsSound ps ex c p (x.starting + x.handling) x.service s x.world t z h
          (also x.service k refl i)))
  Step-Sound {x = x} (announced p n k e) reg i =
      subst Sound (sym e) (record { count = i.count; settles = i.settles })
  Step-Sound {x = x} (registered a n p pid s k z nz h e) reg i = subst Sound (sym e) (
      claim_none-IsSound ps c a (n + x.handling) p pid x.phase x.service s z nz h
        (also x.service refl (omega (arith, k)) i))
  Step-Sound {x = x} (early a n p pid ex es s k z h e) reg i = subst Sound (sym e) (
      also s refl (omega (arith, ap count_exits reg)) (
        claim_one-IsSound ps c a (n + suc x.handling) p ex pid x.phase x.service s
          (h ∙ ap (λ l. (ex ∷ l, s)) reg) (also x.service refl (omega (arith, k)) i)))
  Step-Sound {x = x} (exec_exits ce cps s z h e) reg i = subst Sound (sym e) (
      also s refl (omega arith)
        (exec_exits-IsSound ps c (x.starting + x.handling) cps ce x.phase x.service s h i))
  Step-Sound {x = x} (init_exits ce cps s z h e) reg i = subst Sound (sym e) (
      also s refl (omega arith)
        (init_exits-IsSound ps c (x.starting + x.handling) cps ce x.phase x.service s z h i))
  Step-Sound {x = x} (reported ex p n s t k h e) reg i =
      subst Sound (sym e)
        (reported-IsSound ps ex c p (x.starting + x.handling) x.phase x.service s x.world t h i)
  Step-Sound {x = x} (finished n k e) reg i = subst Sound (sym e) (
      exec_done-IsSound ps c (x.starting + n) x.phase x.service
        (also x.service refl (omega (arith, k)) i))
  Step-Sound {x = x} (freed ex p s t k h e) reg i = subst Sound (sym e) (
      freed-IsSound ps ex c p (x.starting + x.handling) x.service s x.world t h
        (also x.service k refl i))
  Step-Sound {x = x} (kept ex p s t k h e) reg i = subst Sound (sym e) (
      kept-IsSound ps ex c p (x.starting + x.handling) x.service s x.world t h
        (also x.service k refl i))
  Step-Sound {x = x} (woken n ch k q e) reg i =
      subst Sound (sym e)
        (woken-IsSound ps c (x.starting + x.handling) n ch x.service q (also x.service k refl i))
  Step-Sound {x = x} (publishes ex p s t k z m h e) reg i = subst Sound (sym e) (
      publishes-IsSound ps ex c p (x.starting + x.handling) x.service s x.world t z h
        (also x.service k refl i))
  Step-Sound {x = x} (forgotten k e) reg i = subst Sound (sym e) (
      also (forget c x.service) (sym k) refl
        (forgotten-IsSound ps c (x.starting + x.handling) x.service (also x.service k refl i)))

  Reach-Sound : {x y : System S} (r : Reach ps c x y) → IsRegularRun ps c r → Sound x → Sound y
  Reach-Sound here reg i = i
  Reach-Sound (next r s) (q, reg) i = Step-Sound s reg (Reach-Sound r q i)

  -- The service before anything happens: no exec is counted, started, running or handled.
  pub record IsFresh (x : System S) : Type 0 where
    pub counted : x.service.running_execs c ≡ pos 0
    pub starting : x.starting ≡ 0
    pub handling : x.handling ≡ 0
    pub running : execs ps x.service.running ≡ 0
    pub phase : x.phase ≡ alive

  fresh-Sound : (x : System S) → IsFresh x → Sound x
  fresh-Sound x f = also x.service (sym f.phase) refl (record {
    count = ground (arith, f.counted, f.starting, f.handling, f.running);
    settles = refl;
  })

  -- From a fresh service, in every interleaving of regular steps, the counter of the container is the
  -- number of its execs that are being started, are running, or have exited and are not yet counted.
  pub counter_counts :
      (x y : System S)
      → IsFresh x
      → (r : Reach ps c x y) → IsRegularRun ps c r
      → y.service.running_execs c ≡ pos (y.starting + y.handling + execs ps y.service.running)
  counter_counts x y f r reg = (Reach-Sound r reg (fresh-Sound x f)).count
