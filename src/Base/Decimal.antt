-- ===== src/Base/Decimal.antt =====
-- Decimal numbers in texts: `%d` of fmt, strconv.Itoa and Atoi, and
-- strconv.ParseUint(s, 10, 64).
use Prim.Native.Nat.{ℕ, zero, suc, ◌+◌, ◌-◌, ◌*◌, ◌/◌, ◌%◌, ◌^◌, ◌≤◌, ◌<◌}
use mathlib.Core.Path.{◌≡◌, refl, ap, ◌∙◌}
use mathlib.Core.Bool.{Bool, true, false, ◌&&◌}
use mathlib.Core.Option.{Option, none, some}
use mathlib.Core.List.{List, [], ◌∷◌}
use native.Mathlib.Omega.{arith}
use runm.Base.Tests.{leb, ltb, nat_eq, if◌then◌else◌, ℤ, pos, negsuc}

abbrev pub is_digit : ℕ → Bool
is_digit c = leb b'0' c && leb c b'9'

-- The digits of `n` before `out`; each round divides by ten, so `n` rounds are enough.
digits : ℕ → ℕ → List ℕ → List ℕ
digits zero n out = out
digits (suc f) n out =
    let rest = digits f (n / 10) ((b'0' + n % 10) ∷ out) in if nat_eq n 0 then out else rest

unfoldable pub decimal : ℕ → List ℕ
unfolding digits
decimal n = if nat_eq n 0 then b'0' ∷ [] else digits n n []

scan : List ℕ → ℕ → Option ℕ
scan [] n = if ltb n (2 ^ 64) then some n else none
scan (c ∷ s) n = let rest = scan s (n * 10 + (c - b'0')) in if is_digit c then rest else none

unfoldable pub parse_uint : List ℕ → Option ℕ
unfolding scan
parse_uint [] = none
parse_uint (c ∷ s) = scan (c ∷ s) 0

scan-digits : (f n : ℕ) (out : List ℕ) → n ≤ f → scan (digits f n out) 0 ≡ scan out n
unfolding digits scan
scan-digits zero n out h = ground arith
scan-digits (suc f) n out h = ground (arith, scan-digits f (n / 10) ((b'0' + n % 10) ∷ out))

abbrev pub IsDigits : List ℕ → Type 0
IsDigits [] = Unit {0}
IsDigits (c ∷ s) = (is_digit c ≡ true) × IsDigits s

digits-IsDigits : (f n : ℕ) (out : List ℕ) → IsDigits out → IsDigits (digits f n out)
unfolding digits
digits-IsDigits zero n out h = h
digits-IsDigits (suc f) n out h =
    ground (arith, digits-IsDigits f (n / 10) ((b'0' + n % 10) ∷ out) (ground arith, h))

pub decimal-IsDigits : (n : ℕ) → IsDigits (decimal n)
unfolding decimal
decimal-IsDigits n = ground (arith, digits-IsDigits n n [] tt)

abbrev is_cons : List ℕ → Bool
is_cons [] = false
is_cons (c ∷ s) = true

digits-is_cons : (f n : ℕ) (out : List ℕ) → is_cons out ≡ true → is_cons (digits f n out) ≡ true
unfolding digits
digits-is_cons zero n out h = h
digits-is_cons (suc f) n out h = ground (arith, digits-is_cons f (n / 10) ((b'0' + n % 10) ∷ out))

parse_uint-scan : (s : List ℕ) → is_cons s ≡ true → parse_uint s ≡ scan s 0
unfolding parse_uint
parse_uint-scan [] h = ground arith
parse_uint-scan (c ∷ s) h = refl

decimal-is_cons : (n : ℕ) → is_cons (decimal n) ≡ true
unfolding decimal digits
decimal-is_cons zero = refl
decimal-is_cons (suc n) = ground (arith, digits-is_cons n (suc n / 10) ((b'0' + suc n % 10) ∷ []))

scan-decimal : (n : ℕ) → n < 2 ^ 64 → scan (decimal n) 0 ≡ some n
unfolding decimal scan
scan-decimal n h = ground (arith, scan-digits n n [])

-- Every uint64 is read back from its decimal digits.
pub parse_uint-decimal : (n : ℕ) → n < 2 ^ 64 → parse_uint (decimal n) ≡ some n
parse_uint-decimal n h = parse_uint-scan (decimal n) (decimal-is_cons n) ∙ scan-decimal n h

abbrev neg : ℕ → ℤ
neg zero = pos 0
neg (suc n) = negsuc n

-- A number that int64 has room for, below zero if `s` says so
abbrev in_int64 : Bool → Option ℕ → Option ℤ
in_int64 s none = none
in_int64 false (some n) = if ltb n (2 ^ 63) then some (pos n) else none
in_int64 true (some n) = if leb n (2 ^ 63) then some (neg n) else none

-- strconv.Atoi, without the error's text
unfoldable pub atoi : List ℕ → Option ℤ
atoi [] = none
atoi (c ∷ s) =
    if nat_eq c b'-'
    then in_int64 true (parse_uint s)
    else (if nat_eq c b'+'
        then in_int64 false (parse_uint s)
        else in_int64 false (parse_uint (c ∷ s)))

-- strconv.Itoa
unfoldable pub itoa : ℤ → List ℕ
itoa (pos n) = decimal n
itoa (negsuc n) = b'-' ∷ decimal (suc n)

abbrev pub FitsInt64 : ℤ → Type 0
FitsInt64 (pos n) = n < 2 ^ 63
FitsInt64 (negsuc n) = n < 2 ^ 63

atoi-unsigned : (s : List ℕ) → IsDigits s → atoi s ≡ in_int64 false (parse_uint s)
unfolding atoi parse_uint
atoi-unsigned [] h = refl
atoi-unsigned (c ∷ s) (d, h) = ground (arith, d)

-- Every int is read back from its decimal text.
pub atoi-itoa : (i : ℤ) → FitsInt64 i → atoi (itoa i) ≡ some i
unfolding atoi itoa
atoi-itoa (pos n) h =
    atoi-unsigned (decimal n) (decimal-IsDigits n)
    ∙ ap (in_int64 false) (parse_uint-decimal n (omega arith))
    ∙ ground (arith, h)
atoi-itoa (negsuc n) h =
    ap (in_int64 true) (parse_uint-decimal (suc n) (omega arith)) ∙ ground (arith, h)
