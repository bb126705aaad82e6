-- ===== src/Service/Api/Table.antt =====
-- cmd/containerd-shim-runm-v2/task/service.go: what a request does to the service's map of
-- containers.
use runm.Base.{
  true, false, Bool-cases, ℕ, String, Bool, ◌≡◌, none, ◌==◌, arith, eq_iff, ◌⊎◌, inl, inr, subst,
  sym,
}
use runm.Service.Lifecycle.{pre_start}
use runm.Service.Api.{
  Shim, CreateRequest, Containers, Request, create, start, delete, exec, state, wait, close_io,
  resize_pty, kill, pause, resume, pids, connect, stats, checkpoint, update_task, shutdown, insert,
  remove,
}
use runm.Service.Api.Handlers.{
  get_container, on_service, start_with, start_handler, exec_handler, exec_reserved, announce,
  delete_handler, forget_container, create_container, admit_container, create_handler,
}
use runm.Service.Api.Calls.{
  pass_on, close_io_handler, pause_handler, resume_handler, state_handler, wait_handler,
  connect_handler, shutdown_handler, stats_handler, get_container_pids, pids_handler, serve,
}

-- `h'` has the containers of `h`.
pub record Same (h h' : Shim) : Type 0 where
  pub containers : h'.containers ≡ h.containers
  pub primary_container_id : h'.primary_container_id ≡ h.primary_container_id

-- The moves of the map: it is kept, a first container comes in by Create, or a container goes by
-- the Delete of its init process.
pub data Change (h : Shim) : Request → Shim → Type 0 where
  kept : {r : Request} {h' : Shim} → Same h h' → Change h r h'
  added :
      {q : CreateRequest} {h' : Shim} (c : ℕ)
      → h.primary_container_id ≡ ""
      → h'.containers ≡ insert q.id c h.containers
      → h'.primary_container_id ≡ q.id
      → Change h (create q) h'
  removed :
      {id : String} {h' : Shim}
      → h'.containers ≡ remove id h.containers
      → h'.primary_container_id ≡ h.primary_container_id
      → Change h (delete id "") h'

module _ {S : Type 0} (cs : Containers S) where
  pass_on-Same : (id : String) (m : _) (h : Shim) (t : S) → Same h (pass_on cs id m (h, t)).1.0
  unfolding pass_on get_container
  pass_on-Same id m h t = ground arith

  pub start-Same : (id e : String) (h : Shim) (t : S) → Same h (start_handler cs id e (h, t)).1.0
  unfolding start_handler start_with get_container
  start-Same id e h t = ground arith

  exec-Same : (id e : String) (h : Shim) (t : S) → Same h (exec_handler cs id e (h, t)).1.0
  unfolding exec_handler exec_reserved get_container
  exec-Same id e h t = ground arith

  pub announce-Same :
      (a : ℕ) (r : CreateRequest) (c : ℕ) (h : Shim) (t : S) → Same h (announce cs a r c (h, t)).1.0
  unfolding announce
  announce-Same a r c h t = ground arith

  pids-Same : (id : String) (h : Shim) (t : S) → Same h (pids_handler cs id (h, t)).1.0
  unfolding pids_handler get_container_pids get_container
  pids-Same id h t = ground arith

  state-Same : (id e : String) (h : Shim) (t : S) → Same h (state_handler cs id e (h, t)).1.0
  unfolding state_handler get_container
  state-Same id e h t = ground arith

  pause-Same : (id : String) (h : Shim) (t : S) → Same h (pause_handler cs id (h, t)).1.0
  unfolding pause_handler get_container
  pause-Same id h t = ground arith

  stats-Same : (id : String) (h : Shim) (t : S) → Same h (stats_handler cs id (h, t)).1.0
  unfolding stats_handler get_container
  stats-Same id h t = ground arith

  connect-Same : (id : String) (h : Shim) (t : S) → Same h (connect_handler cs id (h, t)).1.0
  unfolding connect_handler
  connect-Same id h t = ground arith

  shutdown-Same : (now : Bool) (h : Shim) (t : S) → Same h (shutdown_handler cs now (h, t)).1.0
  unfolding shutdown_handler
  shutdown-Same now h t = ground arith

  resume-Same : (id : String) (h : Shim) (t : S) → Same h (resume_handler cs id (h, t)).1.0
  unfolding resume_handler get_container
  resume-Same id h t = ground arith

  wait-Same : (id e : String) (h : Shim) (t : S) → Same h (wait_handler cs id e (h, t)).1.0
  unfolding wait_handler get_container
  wait-Same id e h t = ground arith

  close_io-Same : (id e : String) (h : Shim) (t : S) → Same h (close_io_handler cs id e (h, t)).1.0
  unfolding close_io_handler get_container
  close_io-Same id e h t = ground arith

  delete_lem :
      (id e : String) (h : Shim) (t : S)
      → let h' = (delete_handler cs id e (h, t)).1.0 in
        Same h h'
        ⊎ ((e ≡ "")
            × (h'.containers ≡ remove id h.containers)
            × (h'.primary_container_id ≡ h.primary_container_id))
  unfolding delete_handler forget_container get_container
  delete_lem id e h t = ground (arith, eq_iff e "")

  -- The state of a service into which a container has just come.
  abbrev pub entered : CreateRequest → ℕ → Shim → Shim
  entered r c h = record h { primary_container_id = r.id; containers = insert r.id c h.containers }

  abbrev Entered : CreateRequest → Shim → Shim → Type 0
  Entered r h h' =
      Same h h'
      ⊎ ((c : ℕ) × (h.primary_container_id ≡ "")
          × (h'.containers ≡ insert r.id c h.containers)
          × (h'.primary_container_id ≡ r.id))

  admit_open :
      (a : ℕ) (r : CreateRequest) (c : ℕ) (h : Shim) (t : S)
      → (h.primary_container_id == "") ≡ true
      → Same (entered r c h) (admit_container cs a r c (h, t)).1.0
  unfolding admit_container
  admit_open a r c h t k = ground (arith, announce-Same a r c (entered r c h) t)

  admit_shut :
      (a : ℕ) (r : CreateRequest) (c : ℕ) (h : Shim) (t : S)
      → (h.primary_container_id == "") ≡ false
      → Same h (admit_container cs a r c (h, t)).1.0
  unfolding admit_container
  admit_shut a r c h t k = ground arith

  admit-Entered :
      (a : ℕ) (r : CreateRequest) (c : ℕ) (h : Shim) (t : S)
      → Entered r h (admit_container cs a r c (h, t)).1.0
  admit-Entered a r c h t = elim (Bool-cases (h.primary_container_id == "")) [
    | inr k ↦ inl (admit_shut a r c h t k)
    | inl k ↦
        let e = admit_open a r c h t k in
        inr (
          c,
          ground (arith, eq_iff h.primary_container_id ""),
          e.containers,
          e.primary_container_id,
        )
  ]

  create_container-Entered :
      (a : ℕ) (r : CreateRequest) (h : Shim) (t : S)
      → Entered r h (create_container cs a r (h, t)).1.0
  unfolding create_container
  create_container-Entered a r h t = grind (arith, admit-Entered)

  delete-Change :
      (id e : String) (h : Shim) (t : S)
      → Change h (delete id e) (delete_handler cs id e (h, t)).1.0
  delete-Change id e h t = elim (delete_lem id e h t) [
    | inl k ↦ kept k
    | inr (q, k, l) ↦
        subst (λ f. Change h (delete id f) (delete_handler cs id e (h, t)).1.0) (sym q)
          (removed k l)
  ]

  create-Change :
      (r : CreateRequest) (h : Shim) (t : S) → Change h (create r) (create_handler cs r (h, t)).1.0
  unfolding create_handler pre_start
  create-Change r h t =
      let h' = (on_service cs (pre_start cs.processes none) (h, t)).1.0 in
      elim (create_container-Entered h.service.next_address r h' t) [
        | inl k ↦
            kept
              (record { containers = k.containers; primary_container_id = k.primary_container_id })
        | inr (c, k, l, m) ↦ added c k l m
      ]

  -- serve
  pub serve-Change : (r : Request) (h : Shim) (t : S) → Change h r (serve cs r (h, t)).1.0
  unfolding serve
  serve-Change (create r) h t = create-Change r h t
  serve-Change (start id e) h t = kept (start-Same id e h t)
  serve-Change (delete id e) h t = delete-Change id e h t
  serve-Change (exec id e) h t = kept (exec-Same id e h t)
  serve-Change (state id e) h t = kept (state-Same id e h t)
  serve-Change (wait id e) h t = kept (wait-Same id e h t)
  serve-Change (close_io id e) h t = kept (close_io-Same id e h t)
  serve-Change (resize_pty id e w g) h t = kept (pass_on-Same id (λ c. cs.resize_pty c e w g) h t)
  serve-Change (kill id e n all) h t = kept (pass_on-Same id (λ c. cs.kill c e n all) h t)
  serve-Change (pause id) h t = kept (pause-Same id h t)
  serve-Change (resume id) h t = kept (resume-Same id h t)
  serve-Change (pids id) h t = kept (pids-Same id h t)
  serve-Change (connect id) h t = kept (connect-Same id h t)
  serve-Change (stats id) h t = kept (stats-Same id h t)
  serve-Change (checkpoint id r) h t = kept (pass_on-Same id (λ c. cs.checkpoint c r) h t)
  serve-Change (update_task id r) h t = kept (pass_on-Same id (λ c. cs.update c r) h t)
  serve-Change (shutdown now) h t = kept (shutdown-Same now h t)
