-- ===== src/Reaper.antt =====
-- core/runc/runtime/gorunc/reaper/reaper_unix.go: the monitor that hands the exits of child
-- processes to its subscribers. A channel is a number; what is in it is in the record.
pub mod Notify
pub mod Deliver
pub mod Reap
mod Tests
use runm.Base.{
  ℕ, suc, Bool, true, false, not, ◌&&◌, List, [], ◌∷◌, ◌++◌, ℤ, negsuc, length, ltb, nat_eq, put,
  if◌then◌else◌, Option, none, some,
}
use runm.Base.Errors.{Error, new}
use runm.Service.Lifecycle.{Exit}
use runm.Service.Maps.{int_eq}

-- Monitor, with the buffers of all channels that Subscribe has made, and whether they are closed
pub record Monitor : Type 0 where
  pub subscribers : List ℕ
  pub buffer : ℕ → List Exit
  pub closed : ℕ → Bool
  pub next : ℕ

-- The keys of a map of channels
abbrev pub has : ℕ → List ℕ → Bool
has c [] = false
has c (d ∷ ds) = let rest = has c ds in if nat_eq d c then true else rest

abbrev pub drop : ℕ → List ℕ → List ℕ
drop c [] = []
drop c (d ∷ ds) = let rest = drop c ds in if nat_eq d c then rest else d ∷ rest

abbrev pub buffer_size : ℕ
buffer_size = 32

-- Subscribe
unfoldable pub subscribe : Monitor → ℕ × Monitor
subscribe m = (
  m.next,
  record {
    subscribers = m.next ∷ m.subscribers;
    buffer = put m.next [] m.buffer;
    closed = put m.next false m.closed;
    next = suc m.next;
  },
)

-- Unsubscribe
unfoldable pub unsubscribe : ℕ → Monitor → Monitor
unsubscribe c m =
    if has c m.subscribers
    then record m { subscribers = drop c m.subscribers; closed = put c true m.closed }
    else m

-- A send to a channel, if there is room in its buffer
abbrev pub has_room : ℕ → Monitor → Bool
has_room c m = not (m.closed c) && ltb (length (m.buffer c)) buffer_size

abbrev pub push : ℕ → Exit → Monitor → Monitor
push c e m = record m { buffer = put c (m.buffer c ++ e ∷ []) m.buffer }

-- Wait on the exits that its channel yields until it is closed: it stops at the exit of its process,
-- where it unsubscribes; `some e` is its error.
unfoldable pub wait : ℤ → ℕ → List Exit → Monitor → (ℤ × Option Error) × Monitor
wait pid c [] m = ((negsuc 0, some (new "no such process")), m)
wait pid c (e ∷ es) m =
    let rest = wait pid c es m in
    if int_eq e.pid pid then ((e.status, none), unsubscribe c m) else rest
