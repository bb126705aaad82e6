-- ===== src/Process/Init/Cleanup.antt =====
-- What Delete reports.
use runm.Base.{◌≡◌, ap, refl}
use runm.Base.Errors.{Error, wrap}
use runm.Base.Go.{Outcome, Done, ok, err, map_err}
use runm.Process.Host.{Host}
use runm.Process.Io.{io_close}
use runm.Process.Init.{
  InitState, created, created_checkpoint, running, paused, stopped, deleted, Init, delete,
}
use runm.Process.Init.States.{methods, delete_init}

module _ {W : Type 0} (h : Host W) where
  -- The host, with the runtime's answer to Delete given: an error or success, and nothing done.
  abbrev pub answering : Outcome Done → Host W
  answering r = record h { runtime_delete = λ id w. (r, w) }

  on_delete_lost :
      (e : Error) (st : InitState) (s : Init × W)
      → (methods (answering (err e)) st).on_delete s ≡ (methods (answering (ok tt)) st).on_delete s
  unfolding methods delete io_close
  on_delete_lost e created s = refl
  on_delete_lost e (created_checkpoint o) s = refl
  on_delete_lost e running s = refl
  on_delete_lost e paused s = refl
  on_delete_lost e stopped s = refl
  on_delete_lost e deleted s = refl

  -- Whatever error the runtime gives for deleting the container, Delete of the process does and
  -- returns what it would have if the runtime had succeeded: the error is lost.
  pub delete_error_lost :
      (e : Error) (s : Init × W)
      → delete_init (answering (err e)) s ≡ delete_init (answering (ok tt)) s
  unfolding delete_init
  delete_error_lost e s =
      ap (λ (x : Outcome Done × (Init × W)). map_err (wrap "deleting init process") (λ _. x) s)
        (on_delete_lost e s.0.state s)
