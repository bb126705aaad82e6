-- ===== src/Reaper/Tests.antt =====
-- Two subscribers and an exit, and the theorems at such inputs.
use runm.Base.{ℕ, suc, ◌≡◌, refl, true, false, none, some, [], ◌∷◌, pos, arith}
use runm.Service.Lifecycle.{Exit}
use runm.Reaper.{Monitor}
use runm.Reaper.Notify.{System, start_notify, offer, offers, retries, finishes, here, next, Reach}
use runm.Reaper.Deliver.{notify_once}
use runm.Reaper.Reap.{
  Wait4, child, echild, WaitStatus, exit_status, reap, reap_lem, no_child, one_exit,
}

abbrev exited : Exit
exited = record { pid = pos 7; status = pos 3 }

abbrev nobody : Monitor
nobody = record { subscribers = []; buffer = λ c. []; closed = λ c. false; next = 0 }

abbrev two : Monitor
two = record { subscribers = 1 ∷ 0 ∷ []; buffer = λ c. []; closed = λ c. false; next = 2 }

-- The timer fires once before the exit is in channel 0, which is tried again.
abbrev after_late : System
after_late = offer exited 1 false (offer exited 0 true (start_notify two))

abbrev second_round : System
second_round = record after_late { pending = 1 ∷ 0 ∷ []; failed = false }

abbrev notified : System
notified = record (offer exited 0 false (offer exited 1 false second_round)) { done = true }

notified-Reach : Reach exited (start_notify two) notified
unfolding start_notify offer
notified-Reach =
    next
      (next
        (next
          (next (next (next here (offers 0 true refl refl refl)) (offers 1 false refl refl refl))
            (retries refl refl refl refl))
          (offers 1 false refl refl refl))
        (offers 0 false refl refl refl))
      (finishes refl refl refl refl)

notified_done : notified.done ≡ true
notified_done = refl

notified_open : notified.monitor.closed 0 ≡ false
unfolding start_notify offer
notified_open = refl

notify_once_example : notified.sent 0 ≡ exited ∷ []
notify_once_example =
    notify_once exited two notified 0 refl (omega arith) notified-Reach notified_done notified_open

-- The world is the number of children that have exited and are not yet reaped.
abbrev killed : WaitStatus
killed = record { signaled = true; signal = 9; exit_status = pos 0 }

abbrev children : ℕ → Wait4 × ℕ
children ℕ.zero = (echild, 0)
children (suc n) = (child (pos (suc n)) killed, n)

reap_lem_example :
    reap children 3 2
    ≡ some (
      (
        record { pid = pos 2; status = pos 137 } ∷ record { pid = pos 1; status = pos 137 } ∷ [],
        none,
      ),
      0,
    )
unfolding exit_status
reap_lem_example =
    reap_lem children 3
      (one_exit (pos 2) killed refl refl (one_exit (pos 1) killed refl refl (no_child refl)))
      (omega arith)
