-- ===== src/Service/Order.antt =====
-- The shim serves one container, `c`, that Create has made. Its calls of Start, for the init process
-- and for execs, the reaper's reports and the handling of exits interleave between the locked
-- sections of task/service.go: a step relation over them. `IsRegular` says of a step what the
-- processes outside must not do for the counter of execs and for the order of the last exit to be
-- right; the source does not rule it out. Delete comes after all of this.

mod Effects
pub mod Last
mod Drain
mod Tests
use runm.Base.{
  ℕ, suc, ◌+◌, ◌≡◌, Bool, true, false, Option, none, some, List, [], ◌∷◌, ℤ, pos, is_zero, nat_eq,
  ◌&&◌, ◌||◌, if◌then◌else◌,
}
use runm.Base.Go.{Outcome, Done, ok}
use runm.Service.Maps.{ContainerPid}
use runm.Service.Lifecycle.{
  Exit, ReaperExit, ContainerProcess, Waiter, Service, Processes, claim, collect,
  handle_process_exit, send, begin_start, report_exit, exec_done, hold_init_exit, receive, forget,
  task_start, task_exec_started, to_u32,
}

-- How far the exit of the init process has come: it runs; its exit has been stashed; a waiter holds
-- it; it is let go, to be published; it has been published. `unheld` is the exit that handleStarted
-- finds.
pub data InitPhase : Type 0 where
  alive stashed held released published unheld : InitPhase

-- The service, the world of its processes, and the goroutines between two locked sections: the
-- Starts of execs that have been admitted and are not settled, and the exits of execs that have
-- been taken and not yet been counted.
pub record System (S : Type 0) : Type 0 where
  pub service : Service
  pub world : S
  pub starting : ℕ
  pub handling : ℕ
  pub phase : InitPhase

abbrev pub count : List Exit → ℕ
count [] = 0
count (e ∷ es) = suc (count es)

module _ {S : Type 0} (ps : Processes S) where
  -- The execs among the running processes, and among those that a report names
  abbrev pub execs : List (ContainerPid × ContainerProcess) → ℕ
  execs [] = 0
  execs ((k, cp) ∷ m) = let rest = execs m in if ps.is_init cp.process then rest else suc rest

  abbrev pub execs_of : List ContainerProcess → ℕ
  execs_of [] = 0
  execs_of (cp ∷ m) = let rest = execs_of m in if ps.is_init cp.process then rest else suc rest

module _ {S : Type 0} (ps : Processes S) (c : ℕ) where
  -- Whether a report names the init process of the container
  abbrev pub names_init : List ContainerProcess → Bool
  names_init [] = false
  names_init (cp ∷ cps) = (ps.is_init cp.process && nat_eq cp.container c) || names_init cps

  pub data Step (x y : System S) : Type 0 where
    -- the processes, and calls into them, change their world
    outside : (t : S) → y ≡ record x { world = t } → Step x y
    -- Start of an exec is admitted
    begin :
        (a : ℕ) (s : Service) (t : S)
        → begin_start ps true c (x.service, x.world) ≡ (ok a, (s, t))
        → y ≡ record x { service = s; world = t; starting = suc x.starting }
        → Step x y
    -- Start of the init process, which takes it out of the running processes
    init_begins :
        (a : ℕ) (s : Service) (t : S)
        → begin_start ps false c (x.service, x.world) ≡ (ok a, (s, t))
        → y ≡ record x { service = s; world = t }
        → Step x y
    -- the container fails to start an exec: its count is given back, and then its subscription
    failed :
        (n : ℕ)
        → x.starting ≡ suc n
        → y ≡ record x { service = exec_done c x.service; starting = n }
        → Step x y
    -- handleStarted of no process, or of one that has no pid, after a failed start
    dropped :
        (a p : ℕ) (pid : ℤ) (s : Service)
        → is_zero pid ≡ true
        → claim ps a c p pid x.service ≡ ([], s)
        → y ≡ record x { service = s }
        → Step x y
    -- handleStarted of an exec that has a pid, after a failed start: it is entered as running, or its
    -- exits are handled
    failed_registers :
        (a p : ℕ) (pid : ℤ) (es : List Exit) (s : Service)
        → ps.is_init p ≡ false
        → is_zero pid ≡ false
        → claim ps a c p pid x.service ≡ (es, s)
        → y ≡ record x { service = s; handling = x.handling + count es }
        → Step x y
    -- Start sends that the exec, or the init process, has started
    announced :
        (p n : ℕ)
        → x.starting ≡ suc n
        → y ≡ record x {
          service =
              send
                (task_exec_started
                  (ps.container_id c)
                  (ps.process_id p)
                  (to_u32 (ps.process_pid p x.world)))
                x.service;
        }
        → Step x y
    init_announced :
        (p : ℕ)
        → y ≡ record x {
          service =
              send (task_start (ps.container_id c) (to_u32 (ps.process_pid p x.world))) x.service;
        }
        → Step x y
    -- handleStarted of an exec finds no exit
    registered :
        (a n p : ℕ) (pid : ℤ) (s : Service)
        → x.starting ≡ suc n
        → ps.is_init p ≡ false
        → is_zero pid ≡ false
        → claim ps a c p pid x.service ≡ ([], s)
        → y ≡ record x { service = s; starting = n }
        → Step x y
    -- handleStarted of an exec that has been started without a pid: it is entered nowhere
    pidless :
        (a n p : ℕ) (pid : ℤ) (s : Service)
        → x.starting ≡ suc n
        → ps.is_init p ≡ false
        → is_zero pid ≡ true
        → claim ps a c p pid x.service ≡ ([], s)
        → y ≡ record x { service = s; starting = n }
        → Step x y
    -- handleStarted of an exec finds exits
    early :
        (a n p : ℕ) (pid : ℤ) (e : Exit) (es : List Exit) (s : Service)
        → x.starting ≡ suc n
        → ps.is_init p ≡ false
        → claim ps a c p pid x.service ≡ (e ∷ es, s)
        → y ≡ record x { service = s; starting = n; handling = x.handling + count (e ∷ es) }
        → Step x y
    -- handleStarted of the init process, after a start or a failed one, finds no exit
    init_registered :
        (a p : ℕ) (pid : ℤ) (s : Service)
        → ps.is_init p ≡ true
        → is_zero pid ≡ false
        → claim ps a c p pid x.service ≡ ([], s)
        → y ≡ record x { service = s }
        → Step x y
    -- handleStarted of the init process finds exits, and publishes them with no regard to execs
    init_early :
        (a p : ℕ) (pid : ℤ) (e : Exit) (es : List Exit) (s : Service)
        → ps.is_init p ≡ true
        → claim ps a c p pid x.service ≡ (e ∷ es, s)
        → y ≡ record x { service = s; phase = unheld }
        → Step x y
    unheld_published :
        (e : Exit) (p : ℕ) (s : Service) (t : S)
        → x.phase ≡ unheld
        → ps.is_init p ≡ true
        → handle_process_exit ps e c p (x.service, x.world) ≡ (ok tt, (s, t))
        → y ≡ record x { service = s; world = t }
        → Step x y
    -- a report that names execs only, or nothing
    exec_exits :
        (ce : ReaperExit) (cps : List ContainerProcess) (s : Service)
        → names_init cps ≡ false
        → collect ps ce x.service ≡ (cps, s)
        → y ≡ record x { service = s; handling = x.handling + execs_of ps cps }
        → Step x y
    -- a report that names the init process
    init_exits :
        (ce : ReaperExit) (cps : List ContainerProcess) (s : Service)
        → names_init cps ≡ true
        → collect ps ce x.service ≡ (cps, s)
        → y ≡ record x { service = s; handling = x.handling + execs_of ps cps; phase = stashed }
        → Step x y
    -- handleProcessExit of an exec: its exit is published, and then it is counted
    reported :
        (e : Exit) (p n : ℕ) (s : Service) (t : S)
        → x.handling ≡ suc n
        → report_exit ps e c p (x.service, x.world) ≡ (ok tt, (s, t))
        → y ≡ record x { service = s; world = t }
        → Step x y
    finished :
        (n : ℕ)
        → x.handling ≡ suc n
        → y ≡ record x { service = exec_done c x.service; handling = n }
        → Step x y
    -- handleInitExit has nothing to wait for, or leaves the exit to its goroutine
    freed :
        (e : Exit) (p : ℕ) (s : Service) (t : S)
        → x.phase ≡ stashed
        → hold_init_exit ps e c p (x.service, x.world) ≡ (ok true, (s, t))
        → y ≡ record x { service = s; world = t; phase = released }
        → Step x y
    kept :
        (e : Exit) (p : ℕ) (s : Service) (t : S)
        → x.phase ≡ stashed
        → hold_init_exit ps e c p (x.service, x.world) ≡ (ok false, (s, t))
        → y ≡ record x { service = s; world = t; phase = held }
        → Step x y
    -- the goroutine receives a number
    woken :
        (n : ℤ) (ch : List ℤ)
        → x.phase ≡ held
        → x.service.exec_count_subscribers c ≡ some (n ∷ ch)
        → y ≡ record x {
          service = receive c ch x.service;
          phase = (if is_zero n then released else held);
        }
        → Step x y
    -- handleProcessExit of the init process, with the exit that was stashed
    publishes :
        (e : Exit) (p : ℕ) (s : Service) (t : S)
        → x.phase ≡ released
        → ps.is_init p ≡ true
        → x.service.container_init_exit c ≡ some e
        → handle_process_exit ps e c p (x.service, x.world) ≡ (ok tt, (s, t))
        → y ≡ record x { service = s; world = t; phase = published }
        → Step x y
    -- the goroutine's last locked section
    forgotten : x.phase ≡ published → y ≡ record x { service = forget c x.service } → Step x y

  pub data Reach (x : System S) : System S → Type 0 where
    here : Reach x x
    next : {y z : System S} → Reach x y → Step y z → Reach x z

  -- What a regular step does not do: it starts no init process at whose pid an exec runs, or whose
  -- exit is known already; it hands back no exec with a pid from a failed start, and no exec without
  -- one from a start; it finds no exec to have exited twice, and no exit of an init process that is
  -- not alive.
  abbrev pub IsRegular : {x y : System S} → Step x y → Type 0
  IsRegular {x} {y} (init_begins a s t h q) =
      execs ps y.service.running ≡ execs ps x.service.running
  IsRegular {x} {y} (init_announced p q) = x.phase ≡ alive
  IsRegular {x} {y} (failed_registers a p pid es s i z h q) = ⊥
  IsRegular {x} {y} (pidless a n p pid s k i z h q) = ⊥
  IsRegular {x} {y} (early a n p pid e es s k i h q) = es ≡ []
  IsRegular {x} {y} (init_early a p pid e es s i h q) = x.phase ≡ alive
  IsRegular {x} {y} (init_exits ce cps s i h q) = x.phase ≡ alive
  IsRegular s = Unit {0}

  abbrev pub IsRegularRun : {x y : System S} → Reach x y → Type 0
  IsRegularRun here = Unit {0}
  IsRegularRun (next r s) = IsRegularRun r × IsRegular s
