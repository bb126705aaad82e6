-- ===== src/Base/After.antt =====
-- What holds after a method: `P` of its value and the state if it returns, `Q` of the state if it
-- returns an error, and nothing if it panics; and how the shapes of Go methods keep that.
use runm.Base.Errors.{Error}
use runm.Base.Go.{
  Go, Outcome, Done, ok, err, panic, ◌>>=◌, map_err, ignore, attempt, on_err, defer_call,
}
use mathlib.Core.Path.{◌≡◌, refl}
use mathlib.Core.Logic.{◌⊎◌, inl, inr}

abbrev pub Holds : {S A : Type 0} → (A → S → Type 0) → (S → Type 0) → Outcome A × S → Type 0
Holds P Q (ok a, s) = P a s
Holds P Q (err e, s) = Q s
Holds P Q (panic, s) = Unit {0}

pub record After {S A : Type 0} (P : A → S → Type 0) (Q : S → Type 0) (x : Outcome A × S)
    : Type 0 where
  pub holds : Holds P Q x

module _ {S A : Type 0} where
  pub After-weaken :
      {P P' : A → S → Type 0} {Q Q' : S → Type 0} (x : Outcome A × S)
      → After P Q x
      → ((a : A) (s : S) → P a s → P' a s)
      → ((s : S) → Q s → Q' s)
      → After P' Q' x
  After-weaken (ok a, s) p f g = record { holds = f a s p.holds }
  After-weaken (err e, s) p f g = record { holds = g s p.holds }
  After-weaken (panic, s) p f g = record { holds = tt }

  pub After-any : (m : Go S A) (s : S) → After (λ a t. Unit {0}) (λ t. Unit {0}) (m s)
  After-any m s = go (m s)
    where
      go : (x : Outcome A × S) → After (λ a t. Unit {0}) (λ t. Unit {0}) x
      go (ok a, s) = record { holds = tt }
      go (err e, s) = record { holds = tt }
      go (panic, s) = record { holds = tt }

  -- What is known of the value of a method that has returned it
  pub After-ok :
      {P : A → S → Type 0} {Q : S → Type 0} (m : Go S A) (s : S)
      → ((t : S) (a : A) → m s ≡ (ok a, t) → P a t)
      → ((t : S) → Q t)
      → After P Q (m s)
  After-ok {P} {Q} m s k q = go (m s) refl
    where
      go : (x : Outcome A × S) → m s ≡ x → After P Q x
      go (ok a, t) e = record { holds = k t a e }
      go (err x, t) e = record { holds = q t }
      go (panic, t) e = record { holds = tt }

  pub After-map_err :
      {P : A → S → Type 0} {Q : S → Type 0} (f : Error → Error) (m : Go S A) (s : S)
      → After P Q (m s)
      → After P Q (map_err f m s)
  After-map_err {P} {Q} f m s p = go (m s) p
    where
      go :
          (x : Outcome A × S)
          → After P Q x
          → After P Q
              (elim x.0 [ ok a ↦ (ok a, x.1) | err e ↦ (err (f e), x.1) | panic ↦ (panic, x.1) ])
      go (ok a, s) p = record { holds = p.holds }
      go (err e, s) p = record { holds = p.holds }
      go (panic, s) p = record { holds = tt }

  pub After-ignore :
      {P : S → Type 0} {Q : S → Type 0} (m : Go S A) (s : S)
      → After (λ a. P) P (m s)
      → After (λ a. P) Q (ignore m s)
  After-ignore {P} {Q} m s p = go (m s) p
    where
      go :
          (x : Outcome A × S)
          → After (λ a. P) P x
          → After
              (λ (a : Done). P)
              Q
              (elim x.0 [ ok a ↦ (ok tt, x.1) | err e ↦ (ok tt, x.1) | panic ↦ (panic, x.1) ])
      go (ok a, s) p = record { holds = p.holds }
      go (err e, s) p = record { holds = p.holds }
      go (panic, s) p = record { holds = tt }

  pub After-attempt :
      {P : A → S → Type 0} {Q R : S → Type 0} (m : Go S A) (s : S)
      → After P Q (m s)
      → After (λ r t. elim r [ inl e ↦ Q t | inr a ↦ P a t ]) R (attempt m s)
  After-attempt {P} {Q} {R} m s p = go (m s) p
    where
      go :
          (x : Outcome A × S)
          → After P Q x
          → After
              (λ (r : Error ⊎ A) t. elim r [ inl e ↦ Q t | inr a ↦ P a t ])
              R
              (elim x.0 [
                | ok a ↦ (ok (inr a), x.1)
                | err e ↦ (ok (inl e), x.1)
                | panic ↦ (panic, x.1)
              ])
      go (ok a, s) p = record { holds = p.holds }
      go (err e, s) p = record { holds = p.holds }
      go (panic, s) p = record { holds = tt }

  pub After-on_err :
      {P : A → S → Type 0} {Q R : S → Type 0} (m : Go S A) (d : Go S Done) (s : S)
      → After P Q (m s)
      → ((t : S) → Q t → After (λ a. R) R (d t))
      → After P R (on_err m d s)
  After-on_err {P} {Q} {R} m d s p k = go (m s) p
    where
      close :
          (e : Error) (x : Outcome Done × S)
          → After (λ a. R) R x
          → After P R
              (elim x.0 [ panic ↦ (panic, x.1) | ok _ ↦ (err e, x.1) | err _ ↦ (err e, x.1) ])
      close e (ok a, s) p = record { holds = p.holds }
      close e (err f, s) p = record { holds = p.holds }
      close e (panic, s) p = record { holds = tt }

      go :
          (x : Outcome A × S)
          → After P Q x
          → After P R (elim x.0 [
            | ok a ↦ (ok a, x.1)
            | panic ↦ (panic, x.1)
            | err e ↦
                (let (r', s'') = d x.1 in
                  elim r' [ panic ↦ (panic, s'') | ok _ ↦ (err e, s'') | err _ ↦ (err e, s'') ])
          ])
      go (ok a, s) p = record { holds = p.holds }
      go (err e, s) p = close e (d s) (k s p.holds)
      go (panic, s) p = record { holds = tt }

  pub After-defer_call :
      {P Q : S → Type 0} (m : Go S A) (d : Go S Done) (s : S)
      → After (λ a. P) P (m s)
      → ((t : S) → P t → After (λ a. Q) Q (d t))
      → After (λ a. Q) Q (defer_call m d s)
  After-defer_call {P} {Q} m d s p k = go (m s) p
    where
      gone :
          (x : Outcome Done × S)
          → After
              (λ (a : A). Q)
              Q
              (elim x.0 [ panic ↦ (panic, x.1) | ok _ ↦ (panic, x.1) | err _ ↦ (panic, x.1) ])
      gone (ok a, s) = record { holds = tt }
      gone (err f, s) = record { holds = tt }
      gone (panic, s) = record { holds = tt }

      close :
          (r : Outcome A) (x : Outcome Done × S)
          → After (λ a. Q) Q x
          → After
              (λ (b : A). Q)
              Q
              (elim x.0 [ panic ↦ (panic, x.1) | ok _ ↦ (r, x.1) | err _ ↦ (r, x.1) ])
      close (ok b) (ok a, s) p = record { holds = p.holds }
      close (ok b) (err f, s) p = record { holds = p.holds }
      close (err e) (ok a, s) p = record { holds = p.holds }
      close (err e) (err f, s) p = record { holds = p.holds }
      close panic (ok a, s) p = record { holds = tt }
      close panic (err f, s) p = record { holds = tt }
      close r (panic, s) p = record { holds = tt }

      go :
          (x : Outcome A × S)
          → After (λ a. P) P x
          → After
              (λ (b : A). Q)
              Q
              (let (r', s'') = d x.1 in
                elim r' [ panic ↦ (panic, s'') | ok _ ↦ (x.0, s'') | err _ ↦ (x.0, s'') ])
      go (ok a, s) p = close (ok a) (d s) (k s p.holds)
      go (err e, s) p = close (err e) (d s) (k s p.holds)
      go (panic, s) p = gone (d s)

module _ {S A B : Type 0} where
  pub After-bind :
      {P : A → S → Type 0} {R : B → S → Type 0} {Q : S → Type 0} (m : Go S A) (f : A → Go S B)
      (s : S)
      → After P Q (m s)
      → ((a : A) (t : S) → P a t → After R Q (f a t))
      → After R Q ((m >>= f) s)
  After-bind {P} {R} {Q} m f s p k = go (m s) p
    where
      go :
          (x : Outcome A × S)
          → After P Q x
          → After R Q (elim x.0 [ ok a ↦ f a x.1 | err e ↦ (err e, x.1) | panic ↦ (panic, x.1) ])
      go (ok a, s) p = k a s p.holds
      go (err e, s) p = record { holds = p.holds }
      go (panic, s) p = record { holds = tt }
