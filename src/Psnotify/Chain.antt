-- ===== src/Psnotify/Chain.antt =====
-- cmd/runm-linux-init/psnotify.go: the tree of processes stays a tree, so that LogValue ends.
use runm.Base.{
  ℕ, zero, suc, ◌≡◌, ◌≢◌, ◌<◌, refl, sym, ◌∙◌, ap, subst, true, Option, none, some, is_some, List,
  [], ◌∷◌, ◌++◌, put, nat_eq, arith, Bool-cases, Option-cases, inl, inr,
}
use runm.Base.Go.{panic}
use runm.Psnotify.{
  Event, fork_event, exit_event, exec_event, PidInfo, Tree, Proc, resolve_pid_data, on_fork,
  on_exit, on_exec, handle_event, handle_events, new_tree, parent_chain, since_fork, add_child,
  new_info,
}

-- Parents are older than their children, and every process in the table has its fork.
record IsTree (t : Tree) : Type 0 where
  older :
      (a b : ℕ) (i : PidInfo)
      → t.store a ≡ some i
      → i.parent ≡ some b
      → (b < a) × (is_some (t.store b) ≡ true)
  born : (a : ℕ) (i : PidInfo) → t.store a ≡ some i → is_some i.forked ≡ true
  below : (a : ℕ) (i : PidInfo) → t.store a ≡ some i → a < t.next
  mapped : (p a : ℕ) → t.by_pid p ≡ some a → is_some (t.store a) ≡ true

some_injective : {A : Type 0} {x y : A} → some x ≡ some y → x ≡ y
some_injective {A} {x} {y} e = ap (λ o. elim o as (λ o. A) [ none ↦ x | some z ↦ z ]) e

put-is_some :
    {A : Type 0} (f : ℕ → Option A) (a x : ℕ) (j : A)
    → is_some (f x) ≡ true
    → is_some (put a (some j) f x) ≡ true
put-is_some f a x j h = ground (arith, h)

-- A process is replaced by one with the same parent and the same fork.
replace-IsTree :
    (t : Tree) (a : ℕ) (i j : PidInfo) (m : ℕ → Option ℕ)
    → IsTree t
    → t.store a ≡ some i
    → j.parent ≡ i.parent
    → j.forked ≡ i.forked
    → ((p b : ℕ) → m p ≡ some b → is_some (t.store b) ≡ true)
    → IsTree (record { store = put a (some j) t.store; next = t.next; by_pid = m })
replace-IsTree t a i j m v e p f k = record {
  older = λ x b l g q. elim (Bool-cases (nat_eq a x)) [
    | inl n ↦
        (let same : some j ≡ some l = ground (arith, n, g) in
          let (lt, s) = v.older a b i e (sym p ∙ ap (λ k. k.parent) (some_injective same) ∙ q) in
          (ground (arith, n, lt), put-is_some t.store a b j s))
    | inr n ↦
        (let (lt, s) = v.older x b l (ground (arith, n, g)) q in (lt, put-is_some t.store a b j s))
  ];
  born = λ x l g. grind (arith, v.born x l, v.born a i e);
  below = λ x l g. grind (arith, v.below x l, v.below a i e);
  mapped = λ q b g. put-is_some t.store a b j (k q b g);
}

is_some-below : (t : Tree) → IsTree t → (b : ℕ) → is_some (t.store b) ≡ true → b < t.next
is_some-below t v b s = elim (Option-cases (t.store b)) [
  | inl n ↦ absurd (ground (arith, n, s))
  | inr (i, e) ↦ v.below b i e
]

-- A process is born, with a parent that is there.
birth-IsTree :
    (t : Tree) (j : PidInfo) (p : ℕ)
    → IsTree t
    → ((b : ℕ) → j.parent ≡ some b → is_some (t.store b) ≡ true)
    → is_some j.forked ≡ true
    → IsTree (record {
      store = put t.next (some j) t.store;
      next = suc t.next;
      by_pid = put p (some t.next) t.by_pid;
    })
birth-IsTree t j p v here f = record {
  older = λ x b l g q. elim (Bool-cases (nat_eq t.next x)) [
    | inl n ↦
        (let same : some j ≡ some l = ground (arith, n, g) in
          let s = here b (ap (λ k. k.parent) (some_injective same) ∙ q) in
          (ground (arith, n, is_some-below t v b s), put-is_some t.store t.next b j s))
    | inr n ↦
        (let (lt, s) = v.older x b l (ground (arith, n, g)) q in
          (lt, put-is_some t.store t.next b j s))
  ];
  born = λ x l g. grind (arith, v.born x l);
  below = λ x l g. grind (arith, v.below x l);
  mapped = λ q b g. elim (Bool-cases (nat_eq p q)) [
    | inl n ↦ ground (arith, n, g)
    | inr n ↦ put-is_some t.store t.next b j (v.mapped q b (ground (arith, n, g)))
  ];
}

add_child-IsTree :
    (p : Option ℕ) (u : Tree)
    → IsTree u
    → (a : ℕ) → IsTree (record u { store = add_child p a u.store })
add_child-IsTree none u v a = v
add_child-IsTree (some b) u v a = elim (Option-cases (u.store b)) [
  | inl n ↦ subst IsTree (sym (ground (arith, n))) v
  | inr (i, e) ↦
      (let j = record i { children = i.children ++ a ∷ [] } in
        let after : record u { store = add_child (some b) a u.store }
            ≡ record { store = put b (some j) u.store; next = u.next; by_pid = u.by_pid } =
          ground (arith, e) in
        subst IsTree (sym after) (replace-IsTree u b i j u.by_pid v e refl refl v.mapped))
]

module _ {W : Type 0} (o : Proc W) where
  resolve-keeps :
      (i : PidInfo) (w : W)
      → ((resolve_pid_data o i w).0.parent ≡ i.parent)
        × ((resolve_pid_data o i w).0.forked ≡ i.forked)
        × ((resolve_pid_data o i w).0.exited ≡ i.exited)
  unfolding resolve_pid_data
  resolve-keeps i w = (refl, refl, refl)

  on_exit-IsTree : (pid time : ℕ) (s : Tree × W) → IsTree s.0 → IsTree (on_exit o pid time s).0
  unfolding on_exit resolve_pid_data
  on_exit-IsTree pid time (t, w) v = elim (Option-cases (t.by_pid pid)) [
    | inl n ↦ subst IsTree (sym (ground (arith, n))) v
    | inr (a, n) ↦ elim (Option-cases (t.store a)) [
      | inl e ↦ subst IsTree (sym (ground (arith, n, e))) v
      | inr (i, e) ↦
          (let j = (resolve_pid_data o (record i { exited = some time }) w).0 in
            let m = put pid none t.by_pid in
            let after : (on_exit o pid time (t, w)).0
                ≡ record { store = put a (some j) t.store; next = t.next; by_pid = m } =
              ground (arith, n, e) in
            subst IsTree (sym after)
              (replace-IsTree t a i j m v e refl refl (λ p b g. v.mapped p b (ground (arith, g)))))
    ]
  ]

  on_exec-IsTree : (pid time : ℕ) (s : Tree × W) → IsTree s.0 → IsTree (on_exec o pid time s).0
  unfolding on_exec resolve_pid_data
  on_exec-IsTree pid time (t, w) v = elim (Option-cases (t.by_pid pid)) [
    | inl n ↦ subst IsTree (sym (ground (arith, n))) v
    | inr (a, n) ↦ elim (Option-cases (t.store a)) [
      | inl e ↦ subst IsTree (sym (ground (arith, n, e))) v
      | inr (i, e) ↦
          (let j = record (resolve_pid_data o i w).0 { execed = some time } in
            let after : (on_exec o pid time (t, w)).0
                ≡ record { store = put a (some j) t.store; next = t.next; by_pid = t.by_pid } =
              ground (arith, n, e) in
            subst IsTree (sym after) (replace-IsTree t a i j t.by_pid v e refl refl v.mapped))
    ]
  ]

  on_fork-IsTree :
      (ppid pid time : ℕ) (s : Tree × W) → IsTree s.0 → IsTree (on_fork o ppid pid time s).0
  unfolding on_fork resolve_pid_data
  on_fork-IsTree ppid pid time (t, w) v =
      let i : PidInfo = record (resolve_pid_data o (new_info pid) w).0 {
        forked = some time;
        parent = t.by_pid ppid;
      } in
      let u : Tree = record {
        store = put t.next (some i) t.store;
        next = suc t.next;
        by_pid = put pid (some t.next) t.by_pid;
      } in
      add_child-IsTree (t.by_pid ppid) u (birth-IsTree t i pid v (λ b g. v.mapped ppid b g) refl)
        t.next

  handle_events-IsTree :
      (es : List Event) (s : Tree × W) → IsTree s.0 → IsTree (handle_events o es s).0
  unfolding handle_events handle_event
  handle_events-IsTree [] s v = v
  handle_events-IsTree (fork_event ppid pid time ∷ es) s v =
      handle_events-IsTree es (on_fork o ppid pid time s) (on_fork-IsTree ppid pid time s v)
  handle_events-IsTree (exit_event pid code signal time ∷ es) s v =
      handle_events-IsTree es (on_exit o pid time s) (on_exit-IsTree pid time s v)
  handle_events-IsTree (exec_event pid time ∷ es) s v =
      handle_events-IsTree es (on_exec o pid time s) (on_exec-IsTree pid time s v)

-- With as much fuel as the process is old, the loop over the parents ends.
chain_ends :
    (t : Tree) (f a : ℕ)
    → IsTree t
    → is_some (t.store a) ≡ true
    → a < f
    → is_some (parent_chain f t.store (some a)) ≡ true
unfolding parent_chain
chain_ends t zero a v h l = absurd (omega arith)
chain_ends t (suc f) a v h l = elim (Option-cases (t.store a)) [
  | inl n ↦ absurd (ground (arith, n, h))
  | inr (i, e) ↦ elim (Option-cases i.parent) [
    | inl n ↦ ground (arith, e, n)
    | inr (b, n) ↦
        (let (lt, s) = v.older a b i e n in
          ground (arith, e, n, chain_ends t f b v s (omega (arith, lt, l))))
  ]
]

new_tree-IsTree : IsTree new_tree
new_tree-IsTree = record {
  older = λ a b i e q. absurd (ground (arith, e));
  born = λ a i e. ground (arith, e);
  below = λ a i e. ground (arith, e);
  mapped = λ p a e. ground (arith, e);
}

since_fork-born : (x : Option ℕ) (i : PidInfo) → is_some i.forked ≡ true → since_fork x i ≢ panic
since_fork-born none i h e = ground (arith, e)
since_fork-born (some t) i h e = ground (arith, e, h)

-- After any events from the start, for a process in the table: the loop of LogValue over its
-- parents ends within as many turns as processes have been seen, and neither the time since its fork
-- to its exit nor to its exec reads through nil.
pub logged_ends :
    {W : Type 0} (o : Proc W) (es : List Event) (w : W) (p a : ℕ)
    → (handle_events o es (new_tree, w)).0.by_pid p ≡ some a
    → let t = (handle_events o es (new_tree, w)).0 in
      (is_some (parent_chain t.next t.store (some a)) ≡ true)
      × (i : PidInfo) × (t.store a ≡ some i)
      × (since_fork i.exited i ≢ panic)
      × (since_fork i.execed i ≢ panic)
logged_ends o es w p a e =
    let t = (handle_events o es (new_tree, w)).0 in
    let v = handle_events-IsTree o es (new_tree, w) new_tree-IsTree in
    let here = v.mapped p a e in
    elim (Option-cases (t.store a)) [
      | inl n ↦ absurd (ground (arith, n, here))
      | inr (i, s) ↦ (
        chain_ends t t.next a v here (v.below a i s),
        i,
        s,
        since_fork-born i.exited i (v.born a i s),
        since_fork-born i.execed i (v.born a i s),
      )
    ]
