-- ===== src/Service/Api/Known.antt =====
-- cmd/containerd-shim-runm-v2/task/service.go: which containers the API knows, by their ids.
use runm.Base.{
  ℕ, ◌≡◌, Bool, not, ◌&&◌, ◌||◌, String, Option, none, some, is_some, List, [], ◌∷◌, ◌==◌,
  if◌then◌else◌, arith, eq_iff,
}
use runm.Base.Go.{ok, err}
use runm.Base.Errors.{Error}
use runm.Service.Lifecycle.{pre_start}
use runm.Service.Api.{
  Shim, CreateRequest, Containers, Request, Answer, create, start, delete, exec, state, wait,
  close_io, resize_pty, kill, pause, resume, pids, connect, stats, checkpoint, update_task,
  shutdown, lookup, insert, remove,
}
use runm.Service.Api.Handlers.{
  not_created, get_container, create_container, admit_container, create_handler, start_handler,
  delete_handler, exec_handler, forget_container,
}
use runm.Service.Api.Calls.{
  serve, pass_on, close_io_handler, pause_handler, resume_handler, state_handler, wait_handler,
  stats_handler, pids_handler,
}
use runm.Service.Api.Table.{Same, announce-Same, entered}

abbrev pub known : String → List (String × ℕ) → Bool
known id m = is_some (lookup id m)

pub known-insert :
    (id j : String) (c : ℕ) (m : List (String × ℕ))
    → known id (insert j c m) ≡ (j == id || known id m)
known-insert id j c [] = ground arith
known-insert id j c ((k, d) ∷ m) =
    ground (arith, known-insert id j c m, eq_iff k j, eq_iff k id, eq_iff j id)

pub known-remove :
    (id j : String) (m : List (String × ℕ)) → known id (remove j m) ≡ (not (j == id) && known id m)
known-remove id j [] = ground arith
known-remove id j ((k, d) ∷ m) =
    ground (arith, known-remove id j m, eq_iff k j, eq_iff k id, eq_iff j id)

-- The container that a request names, for the requests that look for it.
abbrev pub container_of : Request → Option String
container_of (create q) = none
container_of (connect id) = none
container_of (shutdown now) = none
container_of (start id e) = some id
container_of (delete id e) = some id
container_of (exec id e) = some id
container_of (state id e) = some id
container_of (wait id e) = some id
container_of (close_io id e) = some id
container_of (resize_pty id e w h) = some id
container_of (kill id e n all) = some id
container_of (pause id) = some id
container_of (resume id) = some id
container_of (pids id) = some id
container_of (stats id) = some id
container_of (checkpoint id r) = some id
container_of (update_task id r) = some id

-- The ids that are known after a request that was answered.
abbrev pub answered : Request → String → Bool → Bool
answered (create q) id k = q.id == id || k
answered (delete j e) id k = if e == "" then not (j == id) && k else k
answered _ id k = k

module _ {S : Type 0} (cs : Containers S) where
  -- A request that looks for a container whose id is unknown is refused, and nothing changes.
  pub unknown_refused :
      (r : Request) (id : String) (h : Shim) (t : S)
      → container_of r ≡ some id
      → lookup id h.containers ≡ none
      → serve cs r (h, t) ≡ (err not_created, (h, t))
  unfolding serve get_container start_handler delete_handler exec_handler state_handler wait_handler
      close_io_handler pass_on pause_handler resume_handler pids_handler stats_handler
  unknown_refused (create q) id h t e k = ground arith
  unknown_refused (connect i) id h t e k = ground arith
  unknown_refused (shutdown now) id h t e k = ground arith
  unknown_refused (start i f) id h t e k = ground arith
  unknown_refused (delete i f) id h t e k = ground arith
  unknown_refused (exec i f) id h t e k = ground arith
  unknown_refused (state i f) id h t e k = ground arith
  unknown_refused (wait i f) id h t e k = ground arith
  unknown_refused (close_io i f) id h t e k = ground arith
  unknown_refused (checkpoint i f) id h t e k = ground arith
  unknown_refused (update_task i f) id h t e k = ground arith
  unknown_refused (resize_pty i f w g) id h t e k = ground arith
  unknown_refused (kill i f n all) id h t e k = ground arith
  unknown_refused (pause i) id h t e k = ground arith
  unknown_refused (resume i) id h t e k = ground arith
  unknown_refused (pids i) id h t e k = ground arith
  unknown_refused (stats i) id h t e k = ground arith

  admit-known :
      (a : ℕ) (r : CreateRequest) (c : ℕ) (id : String) (h : Shim) (t : S) (x : Answer)
      → (admit_container cs a r c (h, t)).0 ≡ ok x
      → known id (admit_container cs a r c (h, t)).1.0.containers
        ≡ (r.id == id || known id h.containers)
  unfolding admit_container
  admit-known a r c id h t x e =
      ground
        (arith, announce-Same cs a r c (entered cs r c h) t, known-insert id r.id c h.containers)

  pub create-known :
      (r : CreateRequest) (id : String) (h : Shim) (t : S) (a : Answer)
      → (create_handler cs r (h, t)).0 ≡ ok a
      → known id (create_handler cs r (h, t)).1.0.containers ≡ (r.id == id || known id h.containers)
  unfolding create_handler create_container pre_start
  create-known r id h t a e = grind (arith, admit-known)

  pub delete-known :
      (j f id : String) (h : Shim) (t : S) (a : Answer)
      → (delete_handler cs j f (h, t)).0 ≡ ok a
      → known id (delete_handler cs j f (h, t)).1.0.containers
        ≡ (if f == "" then not (j == id) && known id h.containers else known id h.containers)
  unfolding delete_handler forget_container get_container
  delete-known j f id h t a e = ground (arith, known-remove id j h.containers)

  pub delete_failed :
      (j f : String) (h : Shim) (t : S) (x : Error)
      → (delete_handler cs j f (h, t)).0 ≡ err x
      → Same h (delete_handler cs j f (h, t)).1.0
  unfolding delete_handler forget_container get_container
  delete_failed j f h t x e = ground arith
