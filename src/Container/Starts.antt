-- ===== src/Container/Starts.antt =====
-- Start of the container on an exec process of process/exec.go that is not there to be started.
use runm.Base.{ℕ, String, ◌≡◌, ◌≢◌, ap, true, false, some, ◌==◌, arith}
use runm.Base.Go.{Go, Done, is_err}
use runm.Process.Host.{Host}
use runm.Process.Init.{Init}
use runm.Process.Exec.{Exec, exec_created, start_exec}
use runm.Process.Exec.Life.{start_exec_refused}
use runm.Container.{Container, Calls, find_process, container_start}

module _ {W : Type 0} (h : Host W) (parent : Init) (calls : Calls (Exec × W)) where
  -- Where the container's process at an id is an exec process that is not in the state created, Start
  -- of that id is an error that changes nothing, and it hands back the process, which keeps its pid.
  refused_start_hands_back :
      (id : String) (p : ℕ) (c : Container) (e : Exec) (w : W)
      → calls.start p ≡ start_exec h parent
      → (id == "") ≡ false
      → c.processes id ≡ some p
      → e.state ≢ exec_created
      → let (r, u) = container_start calls id (c, (e, w)) in
        (r.0 ≡ some p) × (is_err r.1 ≡ true) × (u ≡ (c, (e, w)))
  unfolding container_start find_process
  refused_start_hands_back id p c e w s n i g =
      ground
        (arith, ap (λ (f : Go (Exec × W) Done). f (e, w)) s, start_exec_refused h parent (e, w) g)
