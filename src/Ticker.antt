-- ===== src/Ticker.antt =====
-- pkg/ticker/ticker.go: a ticker that logs, its goroutine `run`, and Stop. The runtime's timer puts a
-- tick into the channel `c`, which has room for one, until the timer is stopped; it does not close `c`.
-- Stop writes `stopped` first and stops the timer after that, and a tick may come in between.
mod Tests
use runm.Base.{
  ℕ, suc, ◌≡◌, refl, ◌∙◌, ◌%◌, Bool, true, false, ◌||◌, not, ℤ, pos, negsuc, ltb, nat_eq, is_zero,
  if◌then◌else◌, arith,
}

-- Where the goroutine is: at the channel, behind it with a tick, or at an end
pub data Loop : Type 0 where
  not_run ranging ticked returned panicked : Loop

abbrev is_idle : Loop → Bool
is_idle not_run = true
is_idle _ = false

abbrev is_returned : Loop → Bool
is_returned returned = true
is_returned _ = false

pub record Ticker : Type 0 where
  pub start_burst : ℤ
  pub frequency : ℤ
  pub ticks : ℕ
  pub started : Bool
  pub stopped : Bool
  pub timer : Bool
  pub c : Bool
  pub loop : Loop
  pub logged : ℕ

abbrev pub new_ticker : ℤ → ℤ → Ticker
new_ticker burst frequency = record {
  start_burst = burst;
  frequency = frequency;
  ticks = 0;
  started = false;
  stopped = false;
  timer = true;
  c = false;
  loop = not_run;
  logged = 0;
}

-- `n < burst`, and `n % frequency == 0` of a frequency that is not 0
abbrev before_burst : ℕ → ℤ → Bool
before_burst n (pos b) = ltb n b
before_burst n (negsuc b) = false

abbrev divides : ℤ → ℕ → Bool
divides (pos f) n = nat_eq (n % f) 0
divides (negsuc f) n = nat_eq (n % suc f) 0

-- The body of the loop of run
unfoldable pub handle_tick : Ticker → Ticker
handle_tick x =
    let n = suc x.ticks in
    if x.stopped
    then record x { loop = returned }
    else (if before_burst n x.start_burst
        then record x { ticks = n; loop = ranging; logged = suc x.logged }
        else (if is_zero x.frequency
            then record x { ticks = n; loop = panicked }
            else (if divides x.frequency n
                then record x { ticks = n; loop = ranging; logged = suc x.logged }
                else record x { ticks = n; loop = ranging })))

-- Stop: `t.stopped = true`, and `t.ticker.Stop()` behind it
unfoldable pub mark_stopped : Ticker → Ticker
mark_stopped x = record x { stopped = true }

unfoldable pub stop_timer : Ticker → Ticker
stop_timer x = record x { timer = false }

-- RunWithWaiter, RunWithWaitOnContext and RunAsDefer start the goroutine once.
unfoldable pub run_ticker : Ticker → Ticker
run_ticker x = if x.started then x else record x { started = true; loop = ranging }

pub data Step (x y : Ticker) : Type 0 where
  runs : y ≡ run_ticker x → Step x y
  fires : x.timer ≡ true → y ≡ record x { c = true } → Step x y
  receives : x.loop ≡ ranging → x.c ≡ true → y ≡ record x { c = false; loop = ticked } → Step x y
  handles : x.loop ≡ ticked → y ≡ handle_tick x → Step x y
  marks : x.stopped ≡ false → y ≡ mark_stopped x → Step x y
  stops : x.stopped ≡ true → y ≡ stop_timer x → Step x y

pub data Reach (x : Ticker) : Ticker → Type 0 where
  here : Reach x x
  next : {y z : Ticker} → Reach x y → Step y z → Reach x z

-- What holds in every run: a goroutine is there once one has been started, a timer is stopped only
-- behind the mark, and a goroutine returns only behind it.
record IsTicker (x : Ticker) : Type 0 where
  ran : (x.started || is_idle x.loop) ≡ true
  marked : (x.stopped || x.timer) ≡ true
  ended : (x.stopped || not (is_returned x.loop)) ≡ true

Step-IsTicker : {x y : Ticker} → Step x y → IsTicker x → IsTicker y
unfolding run_ticker mark_stopped stop_timer handle_tick
Step-IsTicker (runs q) i = ground (arith, q, i.ran, i.marked, i.ended)
Step-IsTicker (fires s q) i = ground (arith, q, i.ran, i.marked, i.ended)
Step-IsTicker (receives l c q) i = ground (arith, q, i.ran, i.marked, i.ended, l)
Step-IsTicker (handles l q) i = ground (arith, q, i.ran, i.marked, i.ended, l)
Step-IsTicker (marks s q) i = ground (arith, q, i.ran, i.marked, i.ended)
Step-IsTicker (stops s q) i = ground (arith, q, s, i.ran, i.marked, i.ended)

Reach-IsTicker : {x y : Ticker} → Reach x y → IsTicker x → IsTicker y
Reach-IsTicker here i = i
Reach-IsTicker (next r s) i = Step-IsTicker s (Reach-IsTicker r i)

-- The timer is stopped, and the goroutine waits at an empty channel.
record IsStuck (x : Ticker) : Type 0 where
  ran : x.started ≡ true
  off : x.timer ≡ false
  empty : x.c ≡ false
  waits : x.loop ≡ ranging

Step-IsStuck : {x y : Ticker} → Step x y → IsStuck x → IsStuck y
unfolding run_ticker mark_stopped stop_timer
Step-IsStuck (runs q) i = record {
  ran = ground (arith, q, i.ran);
  off = ground (arith, q, i.ran, i.off);
  empty = ground (arith, q, i.ran, i.empty);
  waits = ground (arith, q, i.ran, i.waits);
}
Step-IsStuck (fires s q) i = absurd (ground (arith, s, i.off))
Step-IsStuck (receives l c q) i = absurd (ground (arith, c, i.empty))
Step-IsStuck (handles l q) i = absurd (ground (arith, l, i.waits))
Step-IsStuck (marks s q) i = record {
  ran = ground (arith, q, i.ran);
  off = ground (arith, q, i.off);
  empty = ground (arith, q, i.empty);
  waits = ground (arith, q, i.waits);
}
Step-IsStuck (stops s q) i = record {
  ran = ground (arith, q, i.ran);
  off = ground (arith, q);
  empty = ground (arith, q, i.empty);
  waits = ground (arith, q, i.waits);
}

Reach-IsStuck : {x y : Ticker} → Reach x y → IsStuck x → IsStuck y
Reach-IsStuck here i = i
Reach-IsStuck (next r s) i = Step-IsStuck s (Reach-IsStuck r i)

-- In every run of a new ticker: when Stop has stopped the timer while the goroutine waits at the
-- channel and no tick is in it, Stop has marked the ticker as stopped before, and in every
-- interleaving of what follows the goroutine never returns, but waits there still.
pub stop_never_ends :
    (burst frequency : ℤ) (x y : Ticker)
    → Reach (new_ticker burst frequency) x
    → x.timer ≡ false
    → x.loop ≡ ranging
    → x.c ≡ false
    → Reach x y
    → (x.stopped ≡ true) × (y.loop ≡ ranging) × (y.c ≡ false)
stop_never_ends burst frequency x y before off l c r =
    let v = Reach-IsTicker before (record { ran = refl; marked = refl; ended = refl }) in
    let i =
      Reach-IsStuck r
        (record { ran = ground (arith, l, v.ran); off = off; empty = c; waits = l }) in
    (ground (arith, off, v.marked), i.waits, i.empty)
