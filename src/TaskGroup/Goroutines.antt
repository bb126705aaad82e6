-- ===== src/TaskGroup/Goroutines.antt =====
-- pkg/taskgroup/taskgroup.go: how the goroutine of a task is found in the texts of the Go runtime.
-- Texts are lists of code points; a line is ASCII as far as it is taken apart.
use runm.Base.{
  ℕ, suc, ◌+◌, ◌-◌, ◌*◌, ◌%◌, ◌^◌, Bool, false, ◌||◌, Option, none, some, List, [], ◌∷◌, ◌++◌,
  nat_eq, if◌then◌else◌,
}
use runm.Base.Text.{codes, contains}
use runm.Base.Decimal.{is_digit, parse_uint}

-- strings.Split(s, c) of one character: the first part, and the others.
unfoldable pub split : ℕ → List ℕ → List ℕ × List (List ℕ)
split c [] = ([], [])
split c (x ∷ s) = let (p, ps) = split c s in if nat_eq x c then ([], p ∷ ps) else (x ∷ p, ps)

-- strings.Join(parts, c)
unfoldable pub join : ℕ → List ℕ → List (List ℕ) → List ℕ
join c p [] = p
join c p (q ∷ qs) = p ++ c ∷ join c q qs

-- The text behind the first `c`, as strings.Index finds it; and the text before it.
unfoldable pub after_first : ℕ → List ℕ → Option (List ℕ)
after_first c [] = none
after_first c (x ∷ s) = let rest = after_first c s in if nat_eq x c then some s else rest

unfoldable pub before_first : ℕ → List ℕ → Option (List ℕ)
before_first c [] = none
before_first c (x ∷ s) =
    let rest = before_first c s in
    if nat_eq x c then some [] else elim rest [ none ↦ none | some p ↦ some (x ∷ p) ]

contains_any : List ℕ → List (List ℕ) → Bool
contains_any s [] = false
contains_any s (p ∷ ps) = contains s p || contains_any s ps

abbrev blocking_states : List (List ℕ)
blocking_states =
    codes "chan receive"
    ∷ codes "chan send"
    ∷ codes "select"
    ∷ codes "IO wait"
    ∷ codes "sync.Mutex"
    ∷ codes "sync.RWMutex"
    ∷ codes "sync.WaitGroup"
    ∷ codes "sync.Cond"
    ∷ codes "semacquire"
    ∷ codes "sleep"
    ∷ codes "timer goroutine"
    ∷ codes "chan receive (nil chan)"
    ∷ codes "chan send (nil chan)"
    ∷ []

-- isBlockingState
unfoldable pub is_blocking_state : List ℕ → Bool
unfolding contains_any
is_blocking_state state = contains_any state blocking_states

-- parseGoroutineHeader on what stands behind the second space
unfoldable pub header_reason : ℕ → List ℕ → ℕ × List ℕ × Bool
header_reason id rest = elim (after_first b'[' rest) [
  | none ↦ (id, [], false)
  | some inner ↦ elim (before_first b']' inner) [
    | none ↦ (id, [], false)
    | some reason ↦ (id, reason, is_blocking_state reason)
  ]
]

-- parseGoroutineHeader on `parts[1:]`
unfoldable pub header_words : List (List ℕ) → ℕ × List ℕ × Bool
header_words [] = (0, [], false)
header_words (number ∷ []) = (0, [], false)
header_words (number ∷ third ∷ more) =
    header_reason (elim (parse_uint number) [ none ↦ 0 | some n ↦ n ]) (join b' ' third more)

-- parseGoroutineHeader
unfoldable pub parse_goroutine_header : List ℕ → ℕ × List ℕ × Bool
parse_goroutine_header line = header_words ((split b' ' line).1)

-- `for j := 10; j < i; j++`: the digits before the first space, in uint64.
goroutine_number : List ℕ → ℕ → ℕ
goroutine_number [] id = 0
goroutine_number (c ∷ s) id =
    let rest = goroutine_number s (if is_digit c then (id * 10 + (c - b'0')) % 2 ^ 64 else id) in
    if nat_eq c b' ' then id else rest

drop : ℕ → List ℕ → List ℕ
drop ℕ.zero s = s
drop (suc n) [] = []
drop (suc n) (c ∷ s) = drop n s

-- getGoroutineID on the first 64 bytes of the stack
unfoldable pub get_goroutine_id : List ℕ → ℕ
unfolding drop goroutine_number
get_goroutine_id buf = goroutine_number (drop 10 buf) 0
