-- ===== src/Process/Init/Frame.antt =====
-- What the methods that open pipes and consoles leave alone: the fields that the states turn on.
use runm.Base.{ℕ, ℤ, ◌≡◌, Bool, true, false, Option, none, some, String, arith}
use runm.Process.Host.{Host, Handle, Stdio, RestoreOpts}
use runm.Process.Io.{ProcessIo}
use runm.Process.Init.{
  Init, open_stdin, set_exited, start, kill, update_resources, delete, checkpoint, CheckpointConfig,
}
use runm.Process.Init.Create.{copy_io, open_stdin_if}
use runm.Process.Init.States.{restore, restore_with, after_restore}

-- `q` is in the same stage of its life as `p`.
pub record Same (p q : Init) : Type 0 where
  pub state : q.state ≡ p.state
  pub wait_closed : q.wait_closed ≡ p.wait_closed
  pub pausing : q.pausing ≡ p.pausing
  pub status : q.status ≡ p.status
  pub exited : q.exited ≡ p.exited

module _ {W : Type 0} (h : Host W) where
  -- Calls that write nothing of the process.
  pub start_self : (s : Init × W) → (start h s).1.0 ≡ s.0
  unfolding start
  start_self s = ground arith

  pub delete_self : (s : Init × W) → (delete h s).1.0 ≡ s.0
  unfolding delete
  delete_self s = ground arith

  pub kill_self : (signal : ℕ) (all : Bool) (s : Init × W) → (kill h signal all s).1.0 ≡ s.0
  unfolding kill
  kill_self signal all s = ground arith

  pub update_self : (r : String) (s : Init × W) → (update_resources h r s).1.0 ≡ s.0
  unfolding update_resources
  update_self r s = ground arith

  pub checkpoint_self : (r : CheckpointConfig) (s : Init × W) → (checkpoint h r s).1.0 ≡ s.0
  unfolding checkpoint
  checkpoint_self r s = ground arith

  -- setExited leaves the state to its caller.
  pub set_exited-state : (status : ℤ) (s : Init × W) → (set_exited h status s).1.0.state ≡ s.0.state
  unfolding set_exited
  set_exited-state status s = ground arith

  pub open_stdin_if-Same : (path : String) (s : Init × W) → Same s.0 (open_stdin_if h path s).1.0
  unfolding open_stdin_if open_stdin
  open_stdin_if-Same path s = ground arith

  pub copy_io-Same :
      (socket : Option Handle) (pio : Option ProcessIo) (stdio : Stdio) (s : Init × W)
      → Same s.0 (copy_io h socket pio stdio s).1.0
  unfolding copy_io
  copy_io-Same (some socket) pio stdio s = ground arith
  copy_io-Same none none stdio s = ground arith
  copy_io-Same none (some pio) stdio s = ground arith

  after_restore-Same :
      (o : RestoreOpts) (socket : Option Handle) (stdio : Stdio) (s : Init × W)
      → Same s.0 (after_restore h o socket stdio s).1.0
  unfolding after_restore
  after_restore-Same o socket stdio s =
      let a = (open_stdin_if h stdio.stdin s).1 in
      ground (arith, open_stdin_if-Same stdio.stdin s, copy_io-Same socket a.0.io stdio a)

  restore_with-Same :
      (o : RestoreOpts) (socket : Option Handle) (s : Init × W)
      → Same s.0 (restore_with h o socket s).1.0
  unfolding restore_with
  restore_with-Same o socket s = grind (arith, after_restore-Same)

  pub restore-Same :
      (o : RestoreOpts) (terminal : Bool) (s : Init × W) → Same s.0 (restore h o terminal s).1.0
  unfolding restore
  restore-Same o true s = grind (arith, restore_with-Same)
  restore-Same o false s = restore_with-Same o none s
