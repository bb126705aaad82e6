-- ===== src/Service/Order/Tests.antt =====
-- A run of the service: the init process is started, and then an exec; the init process exits and
-- then the exec, and the waiter publishes the exit of the init process.
use runm.Base.{List, ℕ, ◌+◌, ◌≡◌, refl, true, false, [], ◌∷◌, pos}
use runm.Service.Lifecycle.{
  ReaperExit, ContainerProcess, task_start, task_exec_started, send, begin_start, pre_start, claim,
  claim_exits, collect, hold_init_exit, report_exit, handle_process_exit, exec_done, receive,
}
use runm.Service.Tests.{processes, idle, init_exit, exec_exit, reaped}
use runm.Service.Order.{
  System, alive, held, published, Step, begin, init_begins, init_announced, init_registered,
  announced, registered, exec_exits, init_exits, reported, finished, publishes, released, kept,
  woken, stashed, Reach, here, next, execs, IsRegularRun,
}
use runm.Service.Order.Last.{IsFresh, counter_counts}

abbrev init_reaped : ReaperExit
init_reaped = record { container_id = "c"; exit = init_exit }

abbrev at_first : System ℕ
at_first = record {
  service = record idle { running = [] };
  world = 0;
  starting = 0;
  handling = 0;
  phase = alive;
}

abbrev init_begun : System ℕ
init_begun = record at_first { service = (begin_start processes false 5 (at_first.service, 0)).1.0 }

abbrev init_sent : System ℕ
init_sent = record init_begun { service = send (task_start "c" 100) init_begun.service }

abbrev init_runs : System ℕ
init_runs = record init_sent { service = (claim processes 0 5 0 (pos 100) init_sent.service).1 }

abbrev admitted : System ℕ
admitted = record init_runs {
  service = (begin_start processes true 5 (init_runs.service, 0)).1.0;
  starting = 1;
}

abbrev exec_sent : System ℕ
exec_sent = record admitted { service = send (task_exec_started "c" "p" 101) admitted.service }

abbrev runs : System ℕ
runs = record exec_sent {
  service = (claim processes 1 5 1 (pos 101) exec_sent.service).1;
  starting = 0;
}

abbrev init_gone : System ℕ
init_gone = record runs {
  service = (collect processes init_reaped runs.service).1;
  phase = stashed;
}

abbrev waits : System ℕ
waits = record init_gone {
  service = (hold_init_exit processes init_exit 5 0 (init_gone.service, 0)).1.0;
  phase = held;
}

abbrev exec_gone : System ℕ
exec_gone = record waits { service = (collect processes reaped waits.service).1; handling = 1 }

abbrev exec_reported : System ℕ
exec_reported = record exec_gone {
  service = (report_exit processes exec_exit 5 1 (exec_gone.service, 0)).1.0;
  world = 2;
}

abbrev exec_counted : System ℕ
exec_counted = record exec_reported { service = exec_done 5 exec_reported.service; handling = 0 }

abbrev told : System ℕ
told = record exec_counted { service = receive 5 [] exec_counted.service; phase = released }

abbrev all_published : System ℕ
all_published = record told {
  service = (handle_process_exit processes init_exit 5 0 (told.service, 2)).1.0;
  world = 4;
  phase = published;
}

at_first-IsFresh : IsFresh processes 5 at_first
at_first-IsFresh = record {
  counted = refl;
  starting = refl;
  handling = refl;
  running = refl;
  phase = refl;
}

abbrev init_found : List ContainerProcess
init_found = record { container = 5; process = 0 } ∷ []

abbrev exec_found : List ContainerProcess
exec_found = record { container = 5; process = 1 } ∷ []

started_run : Reach processes 5 at_first runs
unfolding begin_start pre_start claim claim_exits
started_run =
    next
      (next
        (next
          (next
            (next (next here (init_begins 0 init_begun.service 0 refl refl))
              (init_announced 0 refl))
            (init_registered 0 0 (pos 100) init_runs.service refl refl refl refl))
          (begin 1 admitted.service 0 refl refl))
        (announced 1 0 refl refl))
      (registered 1 0 1 (pos 101) runs.service refl refl refl refl refl)

counted_run : Reach processes 5 at_first exec_counted
unfolding begin_start pre_start claim claim_exits collect hold_init_exit handle_process_exit
    exec_done
counted_run =
    next
      (next
        (next
          (next
            (next started_run (init_exits init_reaped init_found init_gone.service refl refl refl))
            (kept init_exit 0 waits.service 0 refl refl refl))
          (exec_exits reaped exec_found exec_gone.service refl refl refl))
        (reported exec_exit 1 0 exec_reported.service 2 refl refl refl))
      (finished 0 refl refl)

published_run : Reach processes 5 at_first all_published
unfolding begin_start pre_start claim claim_exits collect hold_init_exit handle_process_exit
    exec_done
published_run =
    next (next counted_run (woken (pos 0) [] refl refl refl))
      (publishes init_exit 0 all_published.service 4 refl refl refl refl refl)

-- One more report of the exit of the exec, which names no running process now.
abbrev stray : System ℕ
stray = record all_published { service = (collect processes reaped all_published.service).1 }

stray_run : Step processes 5 all_published stray
unfolding begin_start pre_start claim claim_exits collect hold_init_exit handle_process_exit
    exec_done
stray_run = exec_exits reaped [] stray.service refl refl refl

started_run-IsRegular : IsRegularRun processes 5 started_run
unfolding started_run begin_start pre_start
started_run-IsRegular = ((((((tt, refl), refl), tt), tt), tt), tt)

counted_run-IsRegular : IsRegularRun processes 5 counted_run
unfolding counted_run
counted_run-IsRegular = (((((started_run-IsRegular, refl), tt), tt), tt), tt)

counter_counts_example :
    exec_counted.service.running_execs 5
    ≡ pos (0 + 0 + execs processes exec_counted.service.running)
counter_counts_example =
    counter_counts processes 5 at_first exec_counted at_first-IsFresh counted_run
      counted_run-IsRegular
