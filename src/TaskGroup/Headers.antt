-- ===== src/TaskGroup/Headers.antt =====
-- Headers as the Go runtime prints them, and what parseGoroutineHeader and getGoroutineID make of them.
use runm.Base.{
  ℕ, ◌^◌, ◌<◌, ◌≡◌, refl, Bool, true, false, Option, none, some, List, [], ◌∷◌, ◌++◌, nat_eq,
  if◌then◌else◌, arith, ap, ◌∙◌,
}
use runm.Base.Text.{codes}
use runm.Base.Decimal.{IsDigits, decimal, decimal-IsDigits, parse_uint-decimal}
use runm.TaskGroup.Goroutines.{
  split, join, after_first, before_first, is_blocking_state, parse_goroutine_header, header_reason,
  header_words,
}

abbrev pub lacks : ℕ → List ℕ → Bool
lacks c [] = true
lacks c (x ∷ s) = if nat_eq x c then false else lacks c s

join-cons : (c x : ℕ) (p : List ℕ) (ps : List (List ℕ)) → join c (x ∷ p) ps ≡ x ∷ join c p ps
unfolding join
join-cons c x p [] = refl
join-cons c x p (q ∷ qs) = refl

join-split : (c : ℕ) (s : List ℕ) → join c (split c s).0 (split c s).1 ≡ s
unfolding join split
join-split c [] = refl
join-split c (x ∷ s) = ground (arith, join-split c s, join-cons c x (split c s).0 (split c s).1)

split-append :
    (c : ℕ) (p s : List ℕ)
    → lacks c p ≡ true
    → split c (p ++ c ∷ s) ≡ (p, (split c s).0 ∷ (split c s).1)
unfolding split
split-append c [] s h = ground arith
split-append c (x ∷ p) s h = ground (arith, split-append c p s)

before_first-append :
    (c : ℕ) (p s : List ℕ) → lacks c p ≡ true → before_first c (p ++ c ∷ s) ≡ some p
unfolding before_first
before_first-append c [] s h = ground arith
before_first-append c (x ∷ p) s h = ground (arith, before_first-append c p s)

digits_lack_space : (s : List ℕ) → IsDigits s → lacks b' ' s ≡ true
digits_lack_space [] h = refl
digits_lack_space (c ∷ s) h = ground (arith, digits_lack_space s)

header_reason_lem :
    (n : ℕ) (reason tail : List ℕ)
    → lacks b']' reason ≡ true
    → header_reason n (b'[' ∷ (reason ++ b']' ∷ tail)) ≡ (n, reason, is_blocking_state reason)
unfolding header_reason after_first
header_reason_lem n reason tail l = ground (arith, before_first-append b']' reason tail l)

-- The first two words of a header.
header_parts :
    (number rest : List ℕ)
    → lacks b' ' number ≡ true
    → (split b' ' (codes "goroutine " ++ (number ++ b' ' ∷ rest))).1
      ≡ number ∷ (split b' ' rest).0 ∷ (split b' ' rest).1
header_parts number rest l =
    ap (λ (r : List ℕ × List (List ℕ)). r.1)
      (split-append b' ' (codes "goroutine") (number ++ b' ' ∷ rest) refl)
    ∙ ap (λ (r : List ℕ × List (List ℕ)). r.0 ∷ r.1) (split-append b' ' number rest l)

-- A header with the number of a goroutine and its state in brackets, whatever follows, is read as
-- that number and that state, and counts as blocked exactly if the state is a blocking one.
pub parse_goroutine_header_lem :
    (n : ℕ) (reason tail : List ℕ)
    → n < 2 ^ 64
    → lacks b']' reason ≡ true
    → parse_goroutine_header
        (codes "goroutine " ++ (decimal n ++ b' ' ∷ b'[' ∷ (reason ++ b']' ∷ tail)))
      ≡ (n, reason, is_blocking_state reason)
unfolding parse_goroutine_header header_words
parse_goroutine_header_lem n reason tail h l =
    let inner = b'[' ∷ (reason ++ b']' ∷ tail) in
    ap header_words
      (header_parts (decimal n) inner (digits_lack_space (decimal n) (decimal-IsDigits n)))
    ∙ (ap
          (λ (m : Option ℕ).
            header_reason (elim m [ none ↦ 0 | some k ↦ k ])
              (join b' ' (split b' ' inner).0 (split b' ' inner).1))
          (parse_uint-decimal n h)
        ∙ (ap (header_reason n) (join-split b' ' inner) ∙ header_reason_lem n reason tail l))
