-- ===== src/Reaper/Deliver.antt =====
-- core/runc/runtime/gorunc/reaper/reaper_unix.go: notify hands an exit to every subscriber once.
use runm.Base.{
  ℕ, ◌≡◌, refl, true, false, not, ◌&&◌, ◌||◌, List, [], ◌∷◌, nat_eq, ◌<◌, if◌then◌else◌, arith,
}
use runm.Service.Lifecycle.{Exit}
use runm.Reaper.{Monitor, has, drop, subscribe, unsubscribe}
use runm.Reaper.Notify.{
  System, start_notify, offer, Step, offers, retries, finishes, subscribes, unsubscribes, receives,
  another_sends, Reach, here, next,
}

pub has-drop : (k c : ℕ) (l : List ℕ) → has k (drop c l) ≡ (not (nat_eq c k) && has k l)
has-drop k c [] = ground arith
has-drop k c (d ∷ l) = ground (arith, has-drop k c l)

-- What notify owes to subscriber `c`: it is closed, or it is subscribed and has the exit, is still
-- to come in this round, or will be tried again.
record IsOwed (e : Exit) (c : ℕ) (x : System) : Type 0 where
  sent_once : x.sent c ≡ (if x.success c then e ∷ [] else [])
  owed :
      (x.monitor.closed c
        || (has c x.monitor.subscribers && (has c x.pending || x.success c || x.failed)))
      ≡ true
  over : (not x.done || not (has c x.pending || x.failed)) ≡ true
  fresh : c < x.monitor.next

Step-IsOwed : {e : Exit} {x y : System} (c : ℕ) → Step e x y → IsOwed e c x → IsOwed e c y
unfolding offer subscribe unsubscribe
Step-IsOwed {x = x} c (offers d late n p q) i = record {
  sent_once = ground (arith, q, i.sent_once);
  owed = ground (arith, q, i.owed, has-drop c d x.pending);
  over = ground (arith, q, i.over, has-drop c d x.pending);
  fresh = ground (arith, q, i.fresh);
}
Step-IsOwed c (retries n p f q) i = record {
  sent_once = ground (arith, q, i.sent_once);
  owed = ground (arith, q, i.owed);
  over = ground (arith, q, i.over);
  fresh = ground (arith, q, i.fresh);
}
Step-IsOwed c (finishes n p f q) i = record {
  sent_once = ground (arith, q, i.sent_once);
  owed = ground (arith, q, i.owed);
  over = ground (arith, q, p);
  fresh = ground (arith, q, i.fresh);
}
Step-IsOwed c (subscribes q) i = record {
  sent_once = ground (arith, q, i.sent_once);
  owed = ground (arith, q, i.owed, i.fresh);
  over = ground (arith, q, i.over);
  fresh = ground (arith, q, i.fresh);
}
Step-IsOwed {x = x} c (unsubscribes d q) i = record {
  sent_once = ground (arith, q, i.sent_once);
  owed = ground (arith, q, i.owed, has-drop c d x.monitor.subscribers);
  over = ground (arith, q, i.over);
  fresh = ground (arith, q, i.fresh);
}
Step-IsOwed c (receives d f rest b q) i = record {
  sent_once = ground (arith, q, i.sent_once);
  owed = ground (arith, q, i.owed);
  over = ground (arith, q, i.over);
  fresh = ground (arith, q, i.fresh);
}
Step-IsOwed c (another_sends d f r q) i = record {
  sent_once = ground (arith, q, i.sent_once);
  owed = ground (arith, q, i.owed);
  over = ground (arith, q, i.over);
  fresh = ground (arith, q, i.fresh);
}

Reach-IsOwed : {e : Exit} {x y : System} (c : ℕ) → Reach e x y → IsOwed e c x → IsOwed e c y
Reach-IsOwed c here i = i
Reach-IsOwed c (next r s) i = Step-IsOwed c s (Reach-IsOwed c r i)

-- In every interleaving: when notify is done, a channel that was subscribed when it began and is
-- not closed has had the exit from it, once.
pub notify_once :
    (e : Exit) (m : Monitor) (x : System) (c : ℕ)
    → has c m.subscribers ≡ true
    → c < m.next
    → Reach e (start_notify m) x
    → x.done ≡ true
    → x.monitor.closed c ≡ false
    → x.sent c ≡ e ∷ []
unfolding start_notify
notify_once e m x c h n r d o =
    let i =
      Reach-IsOwed c r (record { sent_once = refl; owed = ground arith; over = refl; fresh = n }) in
    ground (arith, i.sent_once, i.owed, i.over)
