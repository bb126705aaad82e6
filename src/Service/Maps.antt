-- ===== src/Service/Maps.antt =====
-- The maps of the service. A map with lists for values is kept as the list of its entries, in the
-- order in which they were appended; a key that is missing and one with an empty list are the same.
use runm.Base.{
  ◌≡◌, refl, Bool, true, false, ◌&&◌, String, List, [], ◌∷◌, ◌++◌, ℤ, pos, negsuc, nat_eq, ◌==◌,
  if◌then◌else◌, arith, eq_iff,
}

abbrev pub int_eq : ℤ → ℤ → Bool
int_eq (pos a) (pos b) = nat_eq a b
int_eq (negsuc a) (negsuc b) = nat_eq a b
int_eq _ _ = false

-- The key containerPid.
pub record ContainerPid : Type 0 where
  pub pid : ℤ
  pub container_id : String

abbrev pub same_pid : ContainerPid → ContainerPid → Bool
same_pid a b = int_eq a.pid b.pid && a.container_id == b.container_id

pub same_pid_refl : (k : ContainerPid) → same_pid k k ≡ true
same_pid_refl k = ground (arith, eq_iff k.container_id k.container_id)

pub same_pid_sym : (a b : ContainerPid) → same_pid a b ≡ same_pid b a
same_pid_sym a b =
    ground (arith, eq_iff a.container_id b.container_id, eq_iff b.container_id a.container_id)

pub same_pid_trans : (a b c : ContainerPid) → same_pid a b ≡ true → same_pid a c ≡ same_pid b c
same_pid_trans a b c h = ground (
  arith,
  eq_iff a.container_id b.container_id,
  eq_iff a.container_id c.container_id,
  eq_iff b.container_id c.container_id,
)

-- A multimap: the values at a key, and what is left without the key.
module _ {V : Type 0} where
  abbrev pub values : ContainerPid → List (ContainerPid × V) → List V
  values k [] = []
  values k ((j, v) ∷ m) = let rest = values k m in if same_pid j k then v ∷ rest else rest

  abbrev pub without : ContainerPid → List (ContainerPid × V) → List (ContainerPid × V)
  without k [] = []
  without k ((j, v) ∷ m) = let rest = without k m in if same_pid j k then rest else (j, v) ∷ rest

  pub values-append :
      (k : ContainerPid) (m n : List (ContainerPid × V))
      → values k (m ++ n) ≡ values k m ++ values k n
  values-append k [] n = refl
  values-append k ((j, v) ∷ m) n = ground (arith, values-append k m n)

  pub values-without_self :
      (k : ContainerPid) (m : List (ContainerPid × V)) → values k (without k m) ≡ []
  values-without_self k [] = refl
  values-without_self k ((j, v) ∷ m) = ground (arith, values-without_self k m)

  pub values-without_ne :
      (k j : ContainerPid) (m : List (ContainerPid × V))
      → same_pid j k ≡ false
      → values k (without j m) ≡ values k m
  values-without_ne k j [] h = refl
  values-without_ne k j ((i, v) ∷ m) h =
      ground (arith, values-without_ne k j m h, same_pid_trans i j k)
