-- ===== src/Base/Text.antt =====
-- Texts that the program searches, as lists of code points: strings.Contains and strings.ToLower.
use Prim.Native.Nat.{ℕ, ◌+◌}
use Prim.Native.Char.{code}
use Prim.Native.String.{String}
use mathlib.Core.Path.{◌≡◌, refl}
use mathlib.Core.Bool.{Bool, true, false, ◌&&◌, ◌||◌}
use mathlib.Core.List.{List, [], ◌∷◌, map}
use native.Mathlib.Omega.{arith}
use runm.Base.Tests.{leb, nat_eq, if◌then◌else◌}

abbrev pub codes : String → List ℕ
codes String.[] = []
codes (String.◌∷◌ c s) = code c ∷ codes s

-- strings.HasPrefix
has_prefix : List ℕ → List ℕ → Bool
has_prefix xs [] = true
has_prefix [] (p ∷ ps) = false
has_prefix (x ∷ xs) (p ∷ ps) = nat_eq x p && has_prefix xs ps

-- strings.Contains
unfoldable pub contains : List ℕ → List ℕ → Bool
unfolding has_prefix
contains [] ps = has_prefix [] ps
contains (x ∷ xs) ps = has_prefix (x ∷ xs) ps || contains xs ps

abbrev pub same_text : List ℕ → List ℕ → Bool
same_text [] [] = true
same_text (x ∷ xs) (y ∷ ys) = nat_eq x y && same_text xs ys
same_text _ _ = false

-- strings.HasSuffix
unfoldable pub has_suffix : List ℕ → List ℕ → Bool
has_suffix [] ps = same_text [] ps
has_suffix (x ∷ xs) ps = same_text (x ∷ xs) ps || has_suffix xs ps

same_text-has_prefix : (xs ps : List ℕ) → same_text xs ps ≡ true → has_prefix xs ps ≡ true
unfolding has_prefix
same_text-has_prefix [] [] h = refl
same_text-has_prefix [] (p ∷ ps) h = ground arith
same_text-has_prefix (x ∷ xs) [] h = refl
same_text-has_prefix (x ∷ xs) (p ∷ ps) h = grind (arith, same_text-has_prefix xs ps)

-- A text contains its suffixes.
pub has_suffix-contains : (xs ps : List ℕ) → has_suffix xs ps ≡ true → contains xs ps ≡ true
unfolding has_suffix contains
has_suffix-contains [] ps h = same_text-has_prefix [] ps h
has_suffix-contains (x ∷ xs) ps h =
    grind (arith, same_text-has_prefix (x ∷ xs) ps, has_suffix-contains xs ps)

-- strings.ToLower on the letters A to Z. No other code point is lowered to a letter of the one
-- text that is searched for in a lowered text.
lower_code : ℕ → ℕ
lower_code c = if leb b'A' c && leb c b'Z' then c + 32 else c

unfoldable pub to_lower : List ℕ → List ℕ
unfolding lower_code
to_lower = map lower_code

-- strings.Split(s, "\n")[0]
unfoldable pub first_line : List ℕ → List ℕ
first_line [] = []
first_line (c ∷ cs) = if nat_eq c 10 then [] else c ∷ first_line cs

contains_inside : contains (codes "runc: does not exist") (codes "does not exist") ≡ true
unfolding contains
contains_inside = refl

contains_nothing : contains (codes "does not") (codes "does not exist") ≡ false
unfolding contains
contains_nothing = refl
