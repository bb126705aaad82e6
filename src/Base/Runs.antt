-- ===== src/Base/Runs.antt =====
-- What a method that returns has gone through.
use mathlib.Core.Path.{◌≡◌, refl}
use runm.Base.Errors.{Error}
use runm.Base.Go.{Go, Outcome, ok, err, panic, ◌>>=◌, map_err, call}
use native.Mathlib.Omega.{arith}

module _ {S A : Type 0} where
  pub map_err-ok :
      (f : Error → Error) (m : Go S A) (s t : S) (a : A)
      → map_err f m s ≡ (ok a, t)
      → m s ≡ (ok a, t)
  map_err-ok f m s t a e = ground (arith, e)

module _ {S A B : Type 0} where
  pub bind-ok :
      (m : Go S A) (f : A → Go S B) (s u : S) (b : B)
      → (m >>= f) s ≡ (ok b, u)
      → (a : A) × (t : S) × (m s ≡ (ok a, t)) × (f a t ≡ (ok b, u))
  bind-ok m f s u b e = go (m s) refl
    where
      go :
          (x : Outcome A × S)
          → m s ≡ x
          → (a : A) × (t : S) × (m s ≡ (ok a, t)) × (f a t ≡ (ok b, u))
      go (ok a, t) k = (a, t, k, ground (arith, k, e))
      go (err x, t) k = absurd (ground (arith, k, e))
      go (panic, t) k = absurd (ground (arith, k, e))

module _ {P W A : Type 0} where
  pub call-ok :
      (m : Go W A) (s t : P × W) (a : A)
      → call m s ≡ (ok a, t)
      → (m s.1 ≡ (ok a, t.1)) × (t.0 ≡ s.0)
  call-ok m s t a e = ground (arith, e)
