-- ===== src/Reaper/Notify.antt =====
-- core/runc/runtime/gorunc/reaper/reaper_unix.go: one call of notify, while subscribers come, go and
-- receive, and while other calls of notify send.
use runm.Base.{ℕ, ◌≡◌, Bool, true, false, not, ◌&&◌, List, [], ◌∷◌, ◌++◌, put, if◌then◌else◌}
use runm.Service.Lifecycle.{Exit}
use runm.Reaper.{Monitor, has, drop, subscribe, unsubscribe, has_room, push}

-- The monitor, and the goroutine of notify: the subscribers of its round that it has not come to,
-- whether one of the round has failed, those that have the exit, and whether it is done. `sent` is
-- what it has put into each channel.
pub record System : Type 0 where
  pub monitor : Monitor
  pub pending : List ℕ
  pub failed : Bool
  pub success : ℕ → Bool
  pub done : Bool
  pub sent : ℕ → List Exit

unfoldable pub start_notify : Monitor → System
start_notify m = record {
  monitor = m;
  pending = m.subscribers;
  failed = false;
  success = λ c. false;
  done = false;
  sent = λ c. [];
}

-- The call of `s.do`. `late` is that the timer fires while there is room in the channel.
unfoldable pub offer : Exit → ℕ → Bool → System → System
offer e c late x =
    if x.monitor.closed c
    then record x { pending = drop c x.pending }
    else (if x.success c
        then record x { pending = drop c x.pending }
        else (if has_room c x.monitor && not late
            then record x {
              monitor = push c e x.monitor;
              pending = drop c x.pending;
              success = put c true x.success;
              sent = put c (x.sent c ++ e ∷ []) x.sent;
            }
            else record x { pending = drop c x.pending; failed = true }))

pub data Step (e : Exit) (x y : System) : Type 0 where
  -- A turn of the loop over the subscribers of a round, which are in any order
  offers :
      (c : ℕ) (late : Bool)
      → x.done ≡ false
      → has c x.pending ≡ true
      → y ≡ offer e c late x
      → Step e x y
  -- A round is over in which a subscriber has failed: the next one
  retries :
      x.done ≡ false
      → x.pending ≡ []
      → x.failed ≡ true
      → y ≡ record x { pending = x.monitor.subscribers; failed = false }
      → Step e x y
  -- All subscribers of a round have the exit
  finishes :
      x.done ≡ false → x.pending ≡ [] → x.failed ≡ false → y ≡ record x { done = true } → Step e x y
  -- Subscribe
  subscribes : y ≡ record x { monitor = (subscribe x.monitor).1 } → Step e x y
  -- Unsubscribe
  unsubscribes : (c : ℕ) → y ≡ record x { monitor = unsubscribe c x.monitor } → Step e x y
  -- The reader of a channel takes an exit
  receives :
      (c : ℕ) (f : Exit) (rest : List Exit)
      → x.monitor.buffer c ≡ f ∷ rest
      → y ≡ record x { monitor = record x.monitor { buffer = put c rest x.monitor.buffer } }
      → Step e x y
  -- Another call of notify sends
  another_sends :
      (c : ℕ) (f : Exit)
      → has_room c x.monitor ≡ true
      → y ≡ record x { monitor = push c f x.monitor }
      → Step e x y

pub data Reach (e : Exit) (x : System) : System → Type 0 where
  here : Reach e x x
  next : {y z : System} → Reach e x y → Step e y z → Reach e x z
