-- ===== src/Ticker/Tests.antt =====
-- A ticker that is stopped before its first tick.
use runm.Base.{◌≡◌, refl, true, false, pos}
use runm.Ticker.{
  Ticker, ranging, new_ticker, run_ticker, mark_stopped, stop_timer, runs, marks, stops, Reach,
  here, next, stop_never_ends,
}

abbrev running : Ticker
running = record (new_ticker (pos 5) (pos 60)) { started = true; loop = ranging }

abbrev stopped : Ticker
stopped = record running { stopped = true; timer = false }

stopped-Reach : Reach (new_ticker (pos 5) (pos 60)) stopped
unfolding run_ticker mark_stopped stop_timer
stopped-Reach =
    next
      (next {z = record running { stopped = true }} (next {z = running} here (runs refl))
        (marks refl refl))
      (stops refl refl)

-- A second call of Run changes nothing.
again : Reach stopped stopped
unfolding run_ticker
again = next here (runs refl)

stop_never_ends_example : (stopped.stopped ≡ true) × (stopped.loop ≡ ranging) × (stopped.c ≡ false)
stop_never_ends_example =
    stop_never_ends (pos 5) (pos 60) stopped stopped stopped-Reach refl refl refl again
