-- ===== src/Service/Api/Calls.antt =====
-- cmd/containerd-shim-runm-v2/task/service.go: the other calls of the API, and the API as a whole.
use runm.Base.{
  ℕ, String, Bool, true, false, ◌||◌, Option, none, some, List, [], ◌∷◌, ℤ, pos, ◌==◌,
  if◌then◌else◌,
}
use runm.Base.Errors.{wrap, sentinel, err_not_found}
use runm.Base.Go.{Go, Done, ok, pure, fail, map_err, call, update, ◌>>=◌, ◌>>◌}
use runm.Service.Maps.{int_eq}
use runm.Service.Lifecycle.{task_paused, task_resumed, to_u32}
use runm.Service.Api.{
  Shim, Containers, Request, create, start, delete, exec, state, wait, close_io, resize_pty, kill,
  pause, resume, pids, connect, stats, checkpoint, update_task, shutdown, TaskStatus, unknown,
  created, running, stopped, paused, pausing, Answer, empty, state_response, pids_response,
  wait_response, connect_response, stats_response, lookup,
}
use runm.Service.Api.Handlers.{
  get_container, to_container, publish, create_handler, start_handler, delete_handler, exec_handler,
}

-- The switch of State
abbrev pub to_status : String → TaskStatus
to_status st =
    if st == "created"
    then created
    else (if st == "running"
        then running
        else (if st == "stopped"
            then stopped
            else (if st == "paused"
                then paused
                else (if st == "pausing" then pausing else unknown))))

module _ {S : Type 0} (cs : Containers S) where
  -- A call that only goes through to the container: ResizePty, Kill, Checkpoint and Update
  unfoldable pub pass_on : String → (ℕ → Go S Done) → Go (Shim × S) Answer
  pass_on id m = do c ← get_container cs id; to_container cs (m c); pure empty

  -- CloseIO, whose error does not go through ToGRPC
  unfoldable pub close_io_handler : String → String → Go (Shim × S) Answer
  close_io_handler id e = do c ← get_container cs id; call (cs.close_io c e); pure empty

  -- Pause and Resume
  unfoldable pub pause_handler : String → Go (Shim × S) Answer
  pause_handler id = do
    c ← get_container cs id
    to_container cs (cs.pause c)
    publish cs (task_paused (cs.processes.container_id c))
    pure empty

  unfoldable pub resume_handler : String → Go (Shim × S) Answer
  resume_handler id = do
    c ← get_container cs id
    to_container cs (cs.resume c)
    publish cs (task_resumed (cs.processes.container_id c))
    pure empty

  -- State
  unfoldable pub state_handler : String → String → Go (Shim × S) Answer
  state_handler id e = do
    c ← get_container cs id
    p ← to_container cs (cs.find c e)
    st ← call (cs.status p)
    (λ (h, t). (
      ok (
          state_response (cs.processes.process_id p) (to_u32 (cs.processes.process_pid p t))
            (to_status st) (to_u32 (cs.exit_status p t)) (cs.processes.exited_at p t)),
      (h, t),
    ))

  -- Wait
  unfoldable pub wait_handler : String → String → Go (Shim × S) Answer
  wait_handler id e = do
    c ← get_container cs id
    p ← to_container cs (cs.find c e)
    call (cs.wait p)
    (λ (h, t).
        (ok (wait_response (to_u32 (cs.exit_status p t)) (cs.processes.exited_at p t)), (h, t)))

  -- Connect: an unknown container has the pid 0.
  unfoldable pub connect_handler : String → Go (Shim × S) Answer
  connect_handler id (h, t) = elim (lookup id h.containers) [
    | none ↦ (ok (connect_response (to_u32 cs.shim_pid) 0), (h, t))
    | some c ↦ (
      ok (connect_response (to_u32 cs.shim_pid) (to_u32 (cs.processes.container_pid c t))),
      (h, t),
    )
  ]

  abbrev is_none_left : List (String × ℕ) → Bool
  is_none_left [] = true
  is_none_left (_ ∷ _) = false

  -- Shutdown
  unfoldable pub shutdown_handler : Bool → Go (Shim × S) Answer
  shutdown_handler now =
      update (λ h. if now || is_none_left h.containers then record h { stopping = true } else h)
      >> pure empty

  -- Stats
  unfoldable pub stats_handler : String → Go (Shim × S) Answer
  stats_handler id = do
    c ← get_container cs id
    elim (cs.stat c) [
      | none ↦ fail (wrap "cgroup does not exist" (sentinel err_not_found))
      | some m ↦ (do st ← call m; pure (stats_response st))
    ]

  -- getContainerPids
  unfoldable pub get_container_pids : ℕ → Go (Shim × S) (List ℤ)
  get_container_pids c = do p ← to_container cs (cs.find c ""); call (cs.ps p)

  -- The id of the first exec process with a pid
  abbrev pub exec_with_pid : S → ℕ → List ℕ → Option String
  exec_with_pid t pid [] = none
  exec_with_pid t pid (p ∷ ps) =
      let rest = exec_with_pid t pid ps in
      if int_eq (cs.processes.process_pid p t) (pos pid)
      then some (cs.processes.process_id p)
      else rest

  abbrev pub process_infos : S → List ℕ → List ℤ → List (ℕ × Option String)
  process_infos t ps [] = []
  process_infos t ps (i ∷ is) = (to_u32 i, exec_with_pid t (to_u32 i) ps) ∷ process_infos t ps is

  -- Pids
  unfoldable pub pids_handler : String → Go (Shim × S) Answer
  pids_handler id = do
    c ← get_container cs id
    is ← map_err cs.to_grpc (get_container_pids c)
    (λ (h, t). (ok (pids_response (process_infos t (cs.execd_processes c t) is)), (h, t)))

  -- The service's methods
  unfoldable pub serve : Request → Go (Shim × S) Answer
  serve (create r) = create_handler cs r
  serve (start id e) = start_handler cs id e
  serve (delete id e) = delete_handler cs id e
  serve (exec id e) = exec_handler cs id e
  serve (state id e) = state_handler id e
  serve (wait id e) = wait_handler id e
  serve (close_io id e) = close_io_handler id e
  serve (resize_pty id e w h) = pass_on id (λ c. cs.resize_pty c e w h)
  serve (kill id e n all) = pass_on id (λ c. cs.kill c e n all)
  serve (pause id) = pause_handler id
  serve (resume id) = resume_handler id
  serve (pids id) = pids_handler id
  serve (connect id) = connect_handler id
  serve (stats id) = stats_handler id
  serve (checkpoint id r) = pass_on id (λ c. cs.checkpoint c r)
  serve (update_task id r) = pass_on id (λ c. cs.update c r)
  serve (shutdown now) = shutdown_handler now

  -- One request after another
  unfoldable pub serve_all : List Request → Shim × S → Shim × S
  serve_all [] s = s
  serve_all (r ∷ rs) s = serve_all rs (serve r s).1
