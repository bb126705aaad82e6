-- ===== src/Container/Ids.antt =====
-- One Exec, and one Delete after it.
use runm.Base.{ℕ, ◌≡◌, true, false, String, some, ◌==◌, eq_iff, if◌then◌else◌, is_some, arith}
use runm.Base.Go.{ok, err, panic, is_err}
use runm.Container.{
  Container, Calls, reserve, release, process_add, process_remove, find_process, container_delete,
  container_exec, reserve_and_exec,
}

module _ {S : Type 0} (calls : Calls S) where
  -- Exec of a container that has an init process. If the id is taken by a process or a reservation,
  -- the call fails and changes nothing. Otherwise the new process, if the init process makes one, is
  -- at its id, and no other id changes; and unless that panics no reservation changes.
  reserve_and_exec_lem :
      (id k : String) (c : Container) (t : S) (i : ℕ)
      → c.process ≡ some i
      → let (r, u) = reserve_and_exec calls id (c, t) in
        if is_some (c.processes id)
        then (is_err r ≡ true) × (u ≡ (c, t))
        else (if c.reserved id
            then (is_err r ≡ true) × (u ≡ (c, t))
            else (r ≡ (calls.exec i id t).0)
              × (u.0.processes k ≡ elim ((calls.exec i id t).0) [
                | ok p ↦ (if id == k then some p else c.processes k)
                | err e ↦ c.processes k
                | panic ↦ c.processes k
              ])
              × (u.0.reserved k ≡ elim ((calls.exec i id t).0) [
                | ok p ↦ c.reserved k
                | err e ↦ c.reserved k
                | panic ↦ (if id == k then true else c.reserved k)
              ]))
  unfolding reserve_and_exec reserve release process_add container_exec
  reserve_and_exec_lem id k c t i h = ground (arith, eq_iff id k)

  -- A process that Exec adds and Delete takes away again: Delete hands back that process, and then
  -- the container has at each id what it had before.
  delete-exec :
      (id k : String) (c d e : Container) (t u v : S) (p q : ℕ)
      → (id == "") ≡ false
      → reserve_and_exec calls id (c, t) ≡ (ok p, (d, u))
      → container_delete calls id (d, u) ≡ (ok q, (e, v))
      → (q ≡ p) × (e.processes k ≡ c.processes k) × (e.reserved k ≡ c.reserved k)
  unfolding reserve_and_exec reserve release process_add process_remove find_process container_exec
      container_delete
  delete-exec id k c d e t u v p q n h g = ground (arith, eq_iff id k, eq_iff id id)
