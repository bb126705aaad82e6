-- ===== src/TaskGroup/Run.antt =====
-- Calls of Go and TryGo, the goroutines of the tasks, one call of Wait and one of Close on a group,
-- in every interleaving of the parts that Group.antt has as functions. The goroutines are counted by
-- how far they have come; where a step takes a task's number, any number is allowed.
use runm.Base.{ℕ, suc, ◌-◌, ◌≡◌, String, true, false, Option, none, some, List}
use runm.Base.Errors.{Error, Sentinel}
use runm.TaskGroup.Group.{
  Group, Ending, canceled, running as now_running, admit, acquire, release, give_back, start_group,
  update_task_status, set_fundamental_error, end_task, report_error, cancel_with_reason,
}

-- `mu`, as far as it is held from one step to another: only Wait does that.
pub data Lock : Type 0 where
  free by_wait : Lock

-- cleanupOnce: not yet called, called and not returned, or done.
pub data Once : Type 0 where
  fresh wait_in close_in done : Once

pub data WaitPhase : Type 0 where
  not_called waits locked cleaning clearing_up returned : WaitPhase

pub data ClosePhase : Type 0 where
  not_closed cancelling closing clearing closed : ClosePhase

pub record System : Type 0 where
  pub group : Group
  -- calls of Go and TryGo: before the semaphore, and behind it
  pub queued : ℕ
  pub admitted : ℕ
  -- goroutines: not yet running, running the task's function, with an error to report, with a token
  -- to give back, and with wg.Done to call
  pub launched : ℕ
  pub running : ℕ
  pub ended : ℕ
  pub reported : ℕ
  pub leaving : ℕ
  pub lock : Lock
  pub once : Once
  pub waiter : WaitPhase
  pub closer : ClosePhase

module _ (sentinel_text : Sentinel → List ℕ) where
  pub data Step (x y : System) : Type 0 where
    -- the parent's context, or the timeout
    cancels : y ≡ record x { group = record x.group { cancelled = true } } → Step x y
    -- executeTask
    admits :
        (name : String) (i : ℕ) (g : Group)
        → x.lock ≡ free
        → admit name x.group ≡ (some i, g)
        → y ≡ record x { group = g; queued = suc x.queued }
        → Step x y
    refuses :
        (name : String) (g : Group)
        → x.lock ≡ free
        → admit name x.group ≡ (none, g)
        → y ≡ record x { group = g }
        → Step x y
    acquires :
        (n : ℕ) (g : Group)
        → x.queued ≡ suc n
        → acquire x.group ≡ some g
        → y ≡ record x { group = g; queued = n; admitted = suc x.admitted }
        → Step x y
    gives_back :
        (i n : ℕ)
        → x.queued ≡ suc n
        → acquire x.group ≡ none
        → y ≡ record x { group = give_back i x.group; queued = n }
        → Step x y
    gives_up :
        (i n : ℕ) (e : Error)
        → x.queued ≡ suc n
        → x.group.cancelled ≡ true
        → x.lock ≡ free
        → y ≡ record x {
          group = set_fundamental_error e (update_task_status i canceled x.group);
          queued = n;
        }
        → Step x y
    launches :
        (n : ℕ)
        → x.admitted ≡ suc n
        → y ≡ record x {
          group = record x.group { wg = suc x.group.wg };
          admitted = n;
          launched = suc x.launched;
        }
        → Step x y
    -- the goroutine
    begins :
        (i n : ℕ)
        → x.launched ≡ suc n
        → x.lock ≡ free
        → y ≡ record x {
          group = update_task_status i now_running x.group;
          launched = n;
          running = suc x.running;
        }
        → Step x y
    ends :
        (i n : ℕ) (how : Ending)
        → x.running ≡ suc n
        → x.lock ≡ free
        → y ≡ record x { group = end_task i how x.group; running = n; ended = suc x.ended }
        → Step x y
    reports :
        (name : String) (e : Option Error) (n : ℕ)
        → x.ended ≡ suc n
        → x.lock ≡ free
        → y ≡ record x {
          group = report_error sentinel_text name e x.group;
          ended = n;
          reported = suc x.reported;
        }
        → Step x y
    releases :
        (n : ℕ)
        → x.reported ≡ suc n
        → y ≡ record x { group = release x.group; reported = n; leaving = suc x.leaving }
        → Step x y
    leaves :
        (n : ℕ)
        → x.leaving ≡ suc n
        → y ≡ record x { group = record x.group { wg = x.group.wg - 1 }; leaving = n }
        → Step x y
    -- Wait
    wait_starts :
        x.waiter ≡ not_called
        → x.lock ≡ free
        → y ≡ record x { group = start_group x.group; waiter = waits }
        → Step x y
    wait_sees_all_done :
        x.waiter ≡ waits
        → x.group.wg ≡ 0
        → x.group.finished ≡ false
        → x.lock ≡ free
        → y ≡ record x {
          group = record x.group { finished = true; cancelled = true };
          lock = by_wait;
          waiter = locked;
        }
        → Step x y
    wait_sees_cancelled :
        (e : Error)
        → x.waiter ≡ waits
        → x.group.cancelled ≡ true
        → x.group.finished ≡ false
        → x.lock ≡ free
        → y ≡ record x {
          group = record (set_fundamental_error e x.group) { finished = true; cancelled = true };
          lock = by_wait;
          waiter = locked;
        }
        → Step x y
    wait_sees_finished :
        x.waiter ≡ waits
        → x.group.finished ≡ true
        → x.lock ≡ free
        → y ≡ record x { waiter = returned }
        → Step x y
    -- executeCleanup, called by Wait: `once`, and inside it `tg.mu.RLock()`
    wait_enters_once :
        x.waiter ≡ locked
        → x.once ≡ fresh
        → y ≡ record x { once = wait_in; waiter = cleaning }
        → Step x y
    wait_reads :
        x.waiter ≡ cleaning → x.lock ≡ free → y ≡ record x { waiter = clearing_up } → Step x y
    -- The functions have run, behind `tg.mu.RUnlock()`
    wait_clears :
        x.waiter ≡ clearing_up
        → y ≡ record x { lock = free; once = done; waiter = returned }
        → Step x y
    wait_skips_once :
        x.waiter ≡ locked
        → x.once ≡ done
        → y ≡ record x { lock = free; waiter = returned }
        → Step x y
    -- Close
    close_cancels :
        x.closer ≡ not_closed
        → x.group.finished ≡ false
        → x.lock ≡ free
        → y ≡ record x { group = cancel_with_reason "Close() called" x.group; closer = cancelling }
        → Step x y
    close_sees_finished :
        x.closer ≡ not_closed
        → x.group.finished ≡ true
        → x.lock ≡ free
        → y ≡ record x { closer = closed }
        → Step x y
    close_enters_once :
        x.closer ≡ cancelling
        → x.once ≡ fresh
        → y ≡ record x { once = close_in; closer = closing }
        → Step x y
    close_reads : x.closer ≡ closing → x.lock ≡ free → y ≡ record x { closer = clearing } → Step x y
    close_clears : x.closer ≡ clearing → y ≡ record x { once = done; closer = closed } → Step x y
    close_skips_once :
        x.closer ≡ cancelling → x.once ≡ done → y ≡ record x { closer = closed } → Step x y

  pub data Reach (x : System) : System → Type 0 where
    here : Reach x x
    next : {y z : System} → Reach x y → Step y z → Reach x z

-- A group that has just been made, with a limit
pub record IsNew (limit : ℕ) (x : System) : Type 0 where
  pub limited : x.group.capacity ≡ some limit
  pub no_tokens : x.group.tokens ≡ 0
  pub no_goroutines : x.group.wg ≡ 0
  pub unfinished : x.group.finished ≡ false
  pub idle :
      (x.admitted ≡ 0)
      × (x.launched ≡ 0)
      × (x.running ≡ 0)
      × (x.ended ≡ 0)
      × (x.reported ≡ 0)
      × (x.leaving ≡ 0)
  pub unlocked : x.lock ≡ free
  pub uncleaned : x.once ≡ fresh
  pub not_waited : x.waiter ≡ not_called
  pub open_still : x.closer ≡ not_closed
