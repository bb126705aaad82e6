-- ===== src/Service/Early.antt =====
-- Exits that come before the service knows the process they belong to.
use runm.Base.{ℕ, ◌≡◌, List, [], ◌∷◌, ◌++◌, if◌then◌else◌}
use runm.Base.Go.{Outcome, Done, ok}
use runm.Service.Maps.{ContainerPid, same_pid}
use runm.Service.Lifecycle.{
  Exit, ReaperExit, Subscription, Service, Processes, unsubscribe, exit_key, inform, handle_exits,
  started_key,
}

-- The exits of a list that belong to a key, in order.
abbrev pub matching : ContainerPid → List ReaperExit → List Exit
matching k [] = []
matching k (ce ∷ ces) =
    let rest = matching k ces in if same_pid (exit_key ce) k then ce.exit ∷ rest else rest

abbrev entries : List ReaperExit → List (ContainerPid × Exit)
entries [] = []
entries (ce ∷ ces) = (exit_key ce, ce.exit) ∷ entries ces

abbrev inform_all : List ReaperExit → List Subscription → List Subscription
inform_all [] us = us
inform_all (ce ∷ ces) us = inform_all ces (inform ce us)

-- How handleStarted deals with the exits that came early: it handles each of them, or the process
-- runs.
module _ {S : Type 0} (ps : Processes S) where
  abbrev pub Meets : List Exit → ℕ → ℕ → ℕ → Service × S → Outcome Done × (Service × S) → Type 0
  Meets [] a c p u r = r ≡ (
    ok tt,
    (
      record u.0 {
        exit_subscribers = unsubscribe a u.0.exit_subscribers;
        running =
            u.0.running
            ++ (started_key ps c (ps.process_pid p u.1), record { container = c; process = p })
              ∷ [];
      },
      u.1,
    ),
  )
  Meets (e ∷ es) a c p u r =
      r
      ≡ handle_exits ps (e ∷ es) c p
          (record u.0 { exit_subscribers = unsubscribe a u.0.exit_subscribers }, u.1)
