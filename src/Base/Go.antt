-- ===== src/Base/Go.antt =====
-- A Go method: it reads and writes a state, and returns, returns an error, or panics. What was
-- written stays written on every way out.

use mathlib.Core.Bool.{Bool, true, false}
use mathlib.Core.Logic.{◌⊎◌, inl, inr}
use runm.Base.Errors.{Error}

pub data Outcome (A : Type 0) : Type 0 where
  ok : A → Outcome A
  err : Error → Outcome A
  panic : Outcome A

abbrev pub is_err : {A : Type 0} → Outcome A → Bool
is_err (err e) = true
is_err _ = false

abbrev pub Go : Type 0 → Type 0 → Type 0
Go S A = S → Outcome A × S

abbrev pub Done : Type 0
Done = Unit {0}

module _ {S A : Type 0} where
  abbrev pub pure : A → Go S A
  pure a s = (ok a, s)

  -- return err
  abbrev pub fail : Error → Go S A
  fail e s = (err e, s)

  abbrev pub panics : Go S A
  panics s = (panic, s)

  -- `if err := m; err != nil { return f(err) }`
  abbrev pub map_err : (Error → Error) → Go S A → Go S A
  map_err f m s =
      let (r, s') = m s in
      elim r [ ok a ↦ (ok a, s') | err e ↦ (err (f e), s') | panic ↦ (panic, s') ]

  -- `defer` of a statement that only writes the state: it runs on every way out.
  abbrev pub finally : Go S A → (S → S) → Go S A
  finally m f s = let (r, s') = m s in (r, f s')

module _ {S A B : Type 0} where
  infixl 5 ◌>>=◌
  abbrev pub ◌>>=◌ : Go S A → (A → Go S B) → Go S B
  ◌>>=◌ m f s =
      let (r, s') = m s in elim r [ ok a ↦ f a s' | err e ↦ (err e, s') | panic ↦ (panic, s') ]

module _ {S B : Type 0} where
  infixl 5 ◌>>◌
  abbrev pub ◌>>◌ : Go S Done → Go S B → Go S B
  m >> k = m >>= λ _. k

module _ {S : Type 0} where
  abbrev pub skip : Go S Done
  skip = pure tt

  abbrev pub modify : (S → S) → Go S Done
  modify f s = (ok tt, f s)

  abbrev pub gets : {A : Type 0} → (S → A) → Go S A
  gets f s = (ok (f s), s)

  -- `_ = m`, `m` as a statement, or `if err := m; err != nil { log }`: its error is dropped.
  abbrev pub ignore : {A : Type 0} → Go S A → Go S Done
  ignore m s =
      let (r, s') = m s in elim r [ ok a ↦ (ok tt, s') | err e ↦ (ok tt, s') | panic ↦ (panic, s') ]

  -- `if err := m; err != nil { panic(err) }`
  abbrev pub or_panic : Go S Done → Go S Done
  or_panic m s =
      let (r, s') = m s in elim r [ ok a ↦ (ok tt, s') | err e ↦ (panic, s') | panic ↦ (panic, s') ]

  -- A deferred `recover()`: a panic becomes a normal return of the zero value, here a nil error.
  abbrev pub recover : Go S Done → Go S Done
  recover m s =
      let (r, s') = m s in elim r [ ok a ↦ (ok a, s') | err e ↦ (err e, s') | panic ↦ (ok tt, s') ]

-- A call into what lies outside the object `P`: it has the world and leaves the object alone.
abbrev pub call : {P W A : Type 0} → Go W A → Go (P × W) A
call m s = let (r, w) = m s.1 in (r, (s.0, w))

-- A call outside that can neither fail nor panic.
abbrev pub ask : {P W A : Type 0} → (W → A × W) → Go (P × W) A
ask f s = let (a, w) = f s.1 in (ok a, (s.0, w))

abbrev pub update : {P W : Type 0} → (P → P) → Go (P × W) Done
update f s = (ok tt, (f s.0, s.1))

abbrev pub self : {P W : Type 0} → Go (P × W) P
self s = (ok s.0, s)

-- `defer d()` of a call: it runs on every way out, its error is dropped, and its panic wins.
abbrev pub defer_call : {S A : Type 0} → Go S A → Go S Done → Go S A
defer_call m d s =
    let (r, s') = m s in let (r', s'') = d s' in elim r' [ panic ↦ (panic, s'') | _ ↦ (r, s'') ]

module _ {S A : Type 0} where
  -- `a, err := m`, with what follows in both cases; a panic passes.
  abbrev pub attempt : Go S A → Go S (Error ⊎ A)
  attempt m s =
      let (r, s') = m s in
      elim r [ ok a ↦ (ok (inr a), s') | err e ↦ (ok (inl e), s') | panic ↦ (panic, s') ]

  -- `defer func() { if retErr != nil { d() } }()` around `m`
  abbrev pub on_err : Go S A → Go S Done → Go S A
  on_err m d s =
      let (r, s') = m s in
      elim r [
        | ok a ↦ (ok a, s')
        | panic ↦ (panic, s')
        | err e ↦
            (let (r', s'') = d s' in
              elim r' [ panic ↦ (panic, s'') | ok _ ↦ (err e, s'') | err _ ↦ (err e, s'') ])
      ]

  -- A call that can neither fail nor panic
  abbrev pub asks : (S → A × S) → Go S A
  asks f s = let (a, s') = f s in (ok a, s')
