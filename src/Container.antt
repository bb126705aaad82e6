-- ===== src/Container.antt =====
-- cmd/containerd-shim-runm-v2/runm/container.go: the container's processes and the ids that are
-- reserved for processes to come; and the use that Exec of task/service.go makes of them. Maps are
-- functions, processes are pointers, and `process` is the init process once there is one.
pub mod Ids
pub mod Race
pub mod Starts
pub mod Passes
pub mod Create
pub mod Fresh
mod Tests
mod Making
use runm.Base.{set, ℕ, Bool, true, false, String, Option, none, some, ◌==◌, if◌then◌else◌, is_some}
use runm.Base.Errors.{wrap, sentinel, err_not_found, err_failed_precondition, err_already_exists}
use runm.Base.Go.{
  Outcome, Go, Done, ok, err, panic, fail, pure, skip, map_err, call, update, self, ◌>>=◌, ◌>>◌,
}

pub record Container : Type 0 where
  pub process : Option ℕ
  pub processes : String → Option ℕ
  pub reserved : String → Bool

-- What the container calls on its processes (process.Process), over a world `S`. `exec` is Exec of
-- the init process, with the decoding of the request's spec: the new process.
pub record Calls (S : Type 0) : Type 0 where
  pub start : ℕ → Go S Done
  pub delete : ℕ → Go S Done
  pub kill : ℕ → ℕ → Bool → Go S Done
  pub close_io : ℕ → Go S Done
  pub exec : ℕ → String → Go S ℕ

-- ReserveProcess; its second result is `release` of the same id.
unfoldable pub reserve : String → Container → Bool × Container
reserve id c =
    if is_some (c.processes id)
    then (false, c)
    else (if c.reserved id
        then (false, c)
        else (true, record c { reserved = set id true c.reserved }))

unfoldable pub release : String → Container → Container
release id c = record c { reserved = set id false c.reserved }

-- ProcessAdd of a process with this id
unfoldable pub process_add : String → ℕ → Container → Container
process_add id p c = record c {
  reserved = set id false c.reserved;
  processes = set id (some p) c.processes;
}

-- ProcessRemove
unfoldable pub process_remove : String → Container → Container
process_remove id c = record c { processes = set id none c.processes }

-- Process
unfoldable pub find_process : String → Container → Outcome ℕ
find_process id c =
    if id == ""
    then elim c.process [
      | none ↦ err (wrap "container must be created" (sentinel err_failed_precondition))
      | some p ↦ ok p
    ]
    else elim (c.processes id) [
      | none ↦ err (wrap "process does not exist" (sentinel err_not_found))
      | some p ↦ ok p
    ]

module _ {S : Type 0} (calls : Calls S) where
  abbrev find : String → Go (Container × S) ℕ
  find id s = (find_process id s.0, s)

  -- Start. When the process fails to start, it is handed back with the error: the first component.
  unfoldable pub container_start :
      String → Container × S → (Option ℕ × Outcome Done) × (Container × S)
  container_start id (c, t) = elim (find_process id c) [
    | err e ↦ ((none, err (wrap "process does not exist" (sentinel err_not_found))), (c, t))
    | panic ↦ ((none, panic), (c, t))
    | ok p ↦
        let (r, s) = map_err (wrap "failed to start process") (call (calls.start p)) (c, t) in
        ((some p, r), s)
  ]

  -- Delete
  unfoldable pub container_delete : String → Go (Container × S) ℕ
  container_delete id = do
    p ← find id
    call (calls.delete p)
    if id == "" then skip else update (process_remove id)
    pure p

  -- Kill
  unfoldable pub container_kill : String → ℕ → Bool → Go (Container × S) Done
  container_kill id signal all = do
    p ← find id
    call (calls.close_io p)
    call (calls.kill p signal all)

  -- Exec; the type assertion on a process that is not there panics.
  unfoldable pub container_exec : String → Go (Container × S) ℕ
  container_exec id (c, t) = elim c.process [
    | none ↦ (panic, (c, t))
    | some init ↦ (do p ← call (calls.exec init id); update (process_add id p); pure p) (c, t)
  ]

  -- Exec of task/service.go on the container: the id is reserved first, and let go if Exec fails.
  unfoldable pub reserve_and_exec : String → Go (Container × S) ℕ
  reserve_and_exec id (c, t) =
      let (free, c') = reserve id c in
      if free
      then (let (r, s) = container_exec id (c', t) in
          elim r [ ok p ↦ (ok p, s) | err e ↦ (err e, (release id s.0, s.1)) | panic ↦ (panic, s) ])
      else (err (sentinel err_already_exists), (c, t))
