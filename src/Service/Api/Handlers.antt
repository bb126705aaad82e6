-- ===== src/Service/Api/Handlers.antt =====
-- cmd/containerd-shim-runm-v2/task/service.go: Create, Start, Delete and Exec, each from its start
-- to its answer. Create holds the service's mutex throughout.
use runm.Base.{put, suc, ℕ, String, not, Option, none, some, ◌==◌, if◌then◌else◌}
use runm.Base.Errors.{Error, wrap, sentinel, err_not_found, err_already_exists}
use runm.Base.Go.{
  Go, Outcome, Done, ok, err, panic, pure, fail, skip, map_err, finally, call, update, ◌>>=◌, ◌>>◌,
}
use runm.Service.Lifecycle.{
  Service, Event, task_create, task_delete, task_exec_added, to_u32, send, pre_start,
  handle_started, cleanup, begin_start, fail_start, end_start,
}
use runm.Service.Api.{
  Shim, CreateRequest, Containers, Answer, empty, create_response, start_response, delete_response,
  lookup, insert, remove,
}

abbrev pub not_created : Error
not_created = wrap "container not created" (sentinel err_not_found)

module _ {S : Type 0} (cs : Containers S) where
  -- A part of the service that Lifecycle models
  abbrev pub on_service : {A : Type 0} → Go (Service × S) A → Go (Shim × S) A
  on_service m (h, t) = let (r, u) = m (h.service, t) in (r, (record h { service = u.0 }, u.1))

  abbrev pub publish : Event → Go (Shim × S) Done
  publish ev = update (λ h. record h { service = send ev h.service })

  -- A call of the container whose error goes through errgrpc.ToGRPC
  abbrev pub to_container : {A : Type 0} → Go S A → Go (Shim × S) A
  to_container m = map_err cs.to_grpc (call m)

  -- getContainer
  unfoldable pub get_container : String → Go (Shim × S) ℕ
  get_container id (h, t) = elim (lookup id h.containers) [
    | none ↦ (err not_created, (h, t))
    | some c ↦ (ok c, (h, t))
  ]

  -- `uint32(p.Pid())` and `uint32(container.Pid())`
  abbrev pub process_pid : ℕ → Go (Shim × S) ℕ
  process_pid p (h, t) = (ok (to_u32 (cs.processes.process_pid p t)), (h, t))

  abbrev pub container_pid : ℕ → Go (Shim × S) ℕ
  container_pid c (h, t) = (ok (to_u32 (cs.processes.container_pid c t)), (h, t))

  -- The deferred cleanup of a subscription
  abbrev pub close_subscription : ℕ → Shim × S → Shim × S
  close_subscription a (h, t) = (record h { service = cleanup cs.processes a h.service }, t)

  abbrev found : Outcome ℕ → Option ℕ
  found (ok p) = some p
  found _ = none

  -- Create after the container is in the map: its process is looked up, and an error of that is
  -- dropped.
  unfoldable pub announce : ℕ → CreateRequest → ℕ → Go (Shim × S) Answer
  announce a r c = do
    pid ← container_pid c
    publish (task_create r.id r.bundle pid)
    (λ (h, t).
        let (p, t') = cs.find c "" t in
        on_service (handle_started cs.processes a c (found p)) (h, t'))
    pid ← container_pid c
    pure (create_response pid)

  -- Create after the container is made: only now is it refused, if there has been one before.
  unfoldable pub admit_container : ℕ → CreateRequest → ℕ → Go (Shim × S) Answer
  admit_container a r c (h, t) =
      if h.primary_container_id == ""
      then announce a r c
          (record h { primary_container_id = r.id; containers = insert r.id c h.containers }, t)
      else (err (sentinel err_already_exists), (h, t))

  -- Create after preStart
  unfoldable pub create_container : ℕ → CreateRequest → Go (Shim × S) Answer
  create_container a r = do
    call (cs.serve_grpc r.bundle)
    update (λ h. record h { callbacks = suc h.callbacks })
    map_err (wrap "reading spec") (call (cs.read_spec r.bundle))
    c ← call (cs.new_container r)
    admit_container a r c

  -- Create
  unfoldable pub create_handler : CreateRequest → Go (Shim × S) Answer
  create_handler r = do
    a ← on_service (pre_start cs.processes none)
    finally (create_container a r) (close_subscription a)

  -- Start after preStart, where `a` is the subscription. A nil process that has started would be
  -- dereferenced.
  unfoldable pub start_with : ℕ → String → ℕ → Go (Shim × S) Answer
  start_with c e a (h, t) =
      let ((p, r), t') = cs.start c e t in
      elim r [
        | panic ↦ (panic, (h, t'))
        | err x ↦
            (on_service (fail_start cs.processes (not (e == "")) c a p) >> fail (cs.to_grpc x))
              (h, t')
        | ok _ ↦ elim p [
          | none ↦ (panic, (h, t'))
          | some q ↦
              (do
                on_service (end_start cs.processes (not (e == "")) c a q)
                pid ← process_pid q
                pure (start_response pid))
                (h, t')
        ]
      ]

  -- Start
  unfoldable pub start_handler : String → String → Go (Shim × S) Answer
  start_handler id e = do
    c ← get_container id
    a ← on_service (begin_start cs.processes (not (e == "")) c)
    finally (start_with c e a) (close_subscription a)

  -- Delete, of an init process, once that is deleted: its container is forgotten.
  unfoldable pub forget_container : String → ℕ → ℕ → Go (Shim × S) Done
  forget_container id c p = do
    update (λ h. record h { containers = remove id h.containers })
    (λ (h, t).
        publish
          (task_delete (cs.processes.container_id c) (to_u32 (cs.processes.process_pid p t))
            (to_u32 (cs.exit_status p t)) (cs.processes.exited_at p t))
          (h, t))
    update (λ h. record h {
      service = record h.service { container_init_exit = put c none h.service.container_init_exit };
    })

  -- Delete
  unfoldable pub delete_handler : String → String → Go (Shim × S) Answer
  delete_handler id e = do
    c ← get_container id
    p ← to_container (cs.delete c e)
    if e == "" then forget_container id c p else skip
    (λ (h, t). (
      ok (
          delete_response (to_u32 (cs.exit_status p t)) (cs.processes.exited_at p t)
            (to_u32 (cs.processes.process_pid p t))),
      (h, t),
    ))

  -- Exec after the id is reserved: an error gives it back.
  unfoldable pub exec_reserved : ℕ → String → Go (Shim × S) Answer
  exec_reserved c e (h, t) =
      let (r, t') = cs.exec c e t in
      elim r [
        | ok p ↦
            (publish (task_exec_added (cs.processes.container_id c) (cs.processes.process_id p))
                >> pure empty)
              (h, t')
        | err x ↦ (err (cs.to_grpc x), (h, cs.release c e t'))
        | panic ↦ (panic, (h, t'))
      ]

  -- Exec
  unfoldable pub exec_handler : String → String → Go (Shim × S) Answer
  exec_handler id e = do
    c ← get_container id
    free ← call (cs.reserve c e)
    if free then exec_reserved c e else fail (wrap "id" (sentinel err_already_exists))
