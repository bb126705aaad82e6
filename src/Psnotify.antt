-- ===== src/Psnotify.antt =====
-- cmd/runm-linux-init/psnotify.go: the tree of processes that the guest's init keeps from the events
-- of pkg/psnotify. A *pidInfo is an address of `store`, and `by_pid` is pidToCgroup; one goroutine
-- handles the events. Texts are lists of code points.
pub mod Chain
mod Tests
use runm.Base.{
  ℕ, suc, ◌-◌, Bool, true, false, Option, none, some, List, [], ◌∷◌, ◌++◌, ℤ, pos, negsuc, put, ltb,
  nat_eq, if◌then◌else◌, zero,
}
use runm.Base.Go.{Outcome, Go, Done, ok, err, panic}

pub data Event : Type 0 where
  fork_event : ℕ → ℕ → ℕ → Event
  exit_event : ℕ → ℤ → ℕ → ℕ → Event
  exec_event : ℕ → ℕ → Event

-- pidInfo; the three events are their times.
pub record PidInfo : Type 0 where
  pub pid : ℕ
  pub cgroup : List ℕ
  pub argv : List (List ℕ)
  pub argc : List ℕ
  pub parent : Option ℕ
  pub children : List ℕ
  pub exited : Option ℕ
  pub execed : Option ℕ
  pub forked : Option ℕ

pub record Tree : Type 0 where
  pub store : ℕ → Option PidInfo
  pub next : ℕ
  pub by_pid : ℕ → Option ℕ

-- What is read below /proc, and the watcher of pkg/psnotify. `cmdline` is the scanner's
-- lines; an error is none, and one of the watcher is only logged.
pub record Proc (W : Type 0) : Type 0 where
  pub read_cgroup : ℕ → W → Option (List ℕ) × W
  pub cmdline : ℕ → W → Option (List (List ℕ)) × W
  pub readlink_exe : ℕ → W → Option (List ℕ) × W
  pub watch : ℕ → W → W
  pub remove_watch : ℕ → W → W

-- strings.Split at one character
abbrev pub push_char : ℕ → List (List ℕ) → List (List ℕ)
push_char c [] = (c ∷ []) ∷ []
push_char c (p ∷ ps) = (c ∷ p) ∷ ps

unfoldable pub split : ℕ → List ℕ → List (List ℕ)
split s [] = [] ∷ []
split s (c ∷ cs) = let rest = split s cs in if nat_eq c s then [] ∷ rest else push_char c rest

-- strings.SplitN at one character into at most `suc n` parts
unfoldable pub split_n : ℕ → ℕ → List ℕ → List (List ℕ)
split_n zero s cs = cs ∷ []
split_n (suc n) s [] = [] ∷ []
split_n (suc n) s (c ∷ cs) =
    let whole = split_n n s cs in
    let rest = split_n (suc n) s cs in if nat_eq c s then [] ∷ whole else push_char c rest

abbrev third : List (List ℕ) → Option (List ℕ)
third (a ∷ b ∷ c ∷ []) = some c
third _ = none

-- The loop of getCgroupFromProc: the path of the first line with three parts, or the empty text
unfoldable pub first_cgroup : List (List ℕ) → List ℕ
first_cgroup [] = []
first_cgroup (l ∷ ls) = elim (third (split_n 2 b':' l)) [ none ↦ first_cgroup ls | some c ↦ c ]

abbrev is_empty : {A : Type 0} → List A → Bool
is_empty [] = true
is_empty (x ∷ xs) = false

-- getArgvFromProc of the lines
unfoldable pub argv_of : List (List ℕ) → List (List ℕ)
argv_of [] = []
argv_of (l ∷ ls) = split 0 l ++ argv_of ls

-- A read whose error is dropped: the zero value.
abbrev pub or_empty : {W A : Type 0} → (W → Option (List A) × W) → W → List A × W
or_empty m w = let (r, w') = m w in elim r [ some a ↦ (a, w') | none ↦ ([], w') ]

abbrev new_info : ℕ → PidInfo
new_info p = record {
  pid = p;
  cgroup = [];
  argv = [];
  argc = [];
  parent = none;
  children = [];
  exited = none;
  execed = none;
  forked = none;
}

abbrev pub modify_at : ℕ → (PidInfo → PidInfo) → (ℕ → Option PidInfo) → ℕ → Option PidInfo
modify_at a f store = elim (store a) [ none ↦ store | some i ↦ put a (some (f i)) store ]

abbrev pub add_child : Option ℕ → ℕ → (ℕ → Option PidInfo) → ℕ → Option PidInfo
add_child none a store = store
add_child (some b) a store = modify_at b (λ i. record i { children = i.children ++ a ∷ [] }) store

module _ {W : Type 0} (o : Proc W) where
  -- resolvePidData, with getCgroupFromProc, getArgvFromProc and getExePath
  unfoldable pub resolve_pid_data : PidInfo → W → PidInfo × W
  resolve_pid_data i w =
      let (c, w1) = if is_empty i.cgroup then or_empty (o.read_cgroup i.pid) w else ([], w) in
      let (v, w2) = if is_empty i.argv then or_empty (o.cmdline i.pid) w1 else ([], w1) in
      let (x, w3) = if is_empty i.argc then or_empty (o.readlink_exe i.pid) w2 else ([], w2) in
      (
        record i {
          cgroup = if is_empty i.cgroup then first_cgroup (split 10 c) else i.cgroup;
          argv = if is_empty i.argv then argv_of v else i.argv;
          argc = if is_empty i.argc then x else i.argc;
        },
        w3,
      )

  -- `case forkEv := <-watcher.Fork`
  unfoldable pub on_fork : ℕ → ℕ → ℕ → Tree × W → Tree × W
  on_fork ppid pid time (t, w) =
      let (i, w1) = resolve_pid_data (new_info pid) w in
      let info = record i { forked = some time; parent = t.by_pid ppid } in
      (
        record {
          store = add_child (t.by_pid ppid) t.next (put t.next (some info) t.store);
          next = suc t.next;
          by_pid = put pid (some t.next) t.by_pid;
        },
        o.watch pid w1,
      )

  -- `case status := <-watcher.Exit`
  unfoldable pub on_exit : ℕ → ℕ → Tree × W → Tree × W
  on_exit pid time (t, w) = elim (t.by_pid pid) [
    | none ↦ (t, w)
    | some a ↦ elim (t.store a) [
      | none ↦ (t, w)
      | some i ↦
          (let (j, w1) = resolve_pid_data (record i { exited = some time }) w in
            (
              record t { store = put a (some j) t.store; by_pid = put pid none t.by_pid },
              o.remove_watch pid w1,
            ))
    ]
  ]

  -- `case execEv := <-watcher.Exec`
  unfoldable pub on_exec : ℕ → ℕ → Tree × W → Tree × W
  on_exec pid time (t, w) = elim (t.by_pid pid) [
    | none ↦ (t, w)
    | some a ↦ elim (t.store a) [
      | none ↦ (t, w)
      | some i ↦
          (let (j, w1) = resolve_pid_data i w in
            (record t { store = put a (some (record j { execed = some time })) t.store }, w1))
    ]
  ]

  -- One turn of the loop of runPsnotify
  unfoldable pub handle_event : Event → Tree × W → Tree × W
  handle_event (fork_event ppid pid time) s = on_fork ppid pid time s
  handle_event (exit_event pid code signal time) s = on_exit pid time s
  handle_event (exec_event pid time) s = on_exec pid time s

  unfoldable pub handle_events : List Event → Tree × W → Tree × W
  handle_events [] s = s
  handle_events (e ∷ es) s = handle_events es (handle_event e s)

abbrev pub new_tree : Tree
new_tree = record { store = λ a. none; next = 0; by_pid = λ p. none }

-- The loop of LogValue over the parents, on fuel; none if the fuel is out.
unfoldable pub parent_chain : ℕ → (ℕ → Option PidInfo) → Option ℕ → Option (List ℕ)
parent_chain f store none = some []
parent_chain zero store (some a) = none
parent_chain (suc f) store (some a) = elim (store a) [
  | none ↦ none
  | some i ↦ elim (parent_chain f store i.parent) [ none ↦ none | some c ↦ some (i.pid ∷ c) ]
]

abbrev since : ℕ → ℕ → ℤ
since a b = if ltb a b then negsuc (b - suc a) else pos (a - b)

-- `event.Timestamp.Sub(p.forkEvent.Timestamp)`: a nil forkEvent panics.
abbrev pub since_fork : Option ℕ → PidInfo → Outcome (Option ℤ)
since_fork none i = ok none
since_fork (some t) i = elim i.forked [ none ↦ panic | some s ↦ ok (some (since t s)) ]
