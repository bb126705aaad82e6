-- ===== src/Container/Race.antt =====
-- Calls of Exec and Delete that interleave: each locked section of the container is a step.
use runm.Base.{set, ℕ, suc, ◌≡◌, true, false, String, none, eq_iff, if◌then◌else◌, is_some, arith}
use runm.Container.{Container, reserve, release, process_add, process_remove}

-- The container, and the number of Execs at an id that have their reservation and are not done.
pub record Race : Type 0 where
  pub container : Container
  pub adding : String → ℕ

pub data Step (x y : Race) : Type 0 where
  -- ReserveProcess succeeds
  reserves :
      (id : String) (c : Container)
      → reserve id x.container ≡ (true, c)
      → y ≡ record { container = c; adding = set id (suc (x.adding id)) x.adding }
      → Step x y
  -- Exec adds its process
  adds :
      (id : String) (p n : ℕ)
      → x.adding id ≡ suc n
      → y ≡ record { container = process_add id p x.container; adding = set id n x.adding }
      → Step x y
  -- Exec fails, and its reservation is let go
  gives_up :
      (id : String) (n : ℕ)
      → x.adding id ≡ suc n
      → y ≡ record { container = release id x.container; adding = set id n x.adding }
      → Step x y
  -- Delete of an exec process
  removes :
      (id : String)
      → y ≡ record { container = process_remove id x.container; adding = x.adding }
      → Step x y

pub data Reach (x : Race) : Race → Type 0 where
  here : Reach x x
  next : {y z : Race} → Reach x y → Step y z → Reach x z

-- An id is reserved while one Exec, and no more, is adding it, and has no process then.
record IsExclusive (x : Race) : Type 0 where
  one : (k : String) → x.adding k ≡ (if x.container.reserved k then 1 else 0)
  apart :
      (k : String)
      → (if x.container.reserved k then is_some (x.container.processes k) else false) ≡ false

Step-IsExclusive : {x y : Race} → Step x y → IsExclusive x → IsExclusive y
unfolding reserve release process_add process_remove
Step-IsExclusive (reserves id c h e) i = record {
  one = λ k. ground (arith, e, eq_iff id k, i.one k, i.one id);
  apart = λ k. ground (arith, e, eq_iff id k, i.apart k, i.one id);
}
Step-IsExclusive (adds id p n h e) i = record {
  one = λ k. ground (arith, e, eq_iff id k, i.one k, i.one id);
  apart = λ k. ground (arith, e, eq_iff id k, i.apart k, i.one id);
}
Step-IsExclusive (gives_up id n h e) i = record {
  one = λ k. ground (arith, e, eq_iff id k, i.one k, i.one id);
  apart = λ k. ground (arith, e, eq_iff id k, i.apart k, i.one id);
}
Step-IsExclusive (removes id e) i = record {
  one = λ k. ground (arith, e, i.one k);
  apart = λ k. ground (arith, e, eq_iff id k, i.apart k);
}

Reach-IsExclusive : {x y : Race} → Reach x y → IsExclusive x → IsExclusive y
Reach-IsExclusive here i = i
Reach-IsExclusive (next r s) i = Step-IsExclusive s (Reach-IsExclusive r i)

-- From a container with no reservation and no Exec under way, in every interleaving of Execs and
-- Deletes: an Exec that has reserved its id is the only one at that id, and no process is there.
pub exec_finds_free :
    (x y : Race) (id : String) (n : ℕ)
    → ((k : String) → x.container.reserved k ≡ false)
    → ((k : String) → x.adding k ≡ 0)
    → Reach x y
    → y.adding id ≡ suc n
    → (n ≡ 0) × (y.container.processes id ≡ none)
exec_finds_free x y id n free idle r a =
    let i =
      Reach-IsExclusive r (record {
        one = λ k. ground (arith, free k, idle k);
        apart = λ k. ground (arith, free k);
      }) in
    (ground (arith, i.one id), ground (arith, i.one id, i.apart id))
