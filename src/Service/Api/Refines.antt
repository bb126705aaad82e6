-- ===== src/Service/Api/Refines.antt =====
-- cmd/containerd-shim-runm-v2/task/service.go: the ids that the API knows, as a set that a request
-- changes.
use runm.Base.{
  ℕ, ◌≡◌, ◌≢◌, refl, ap, Bool, true, false, String, List, [], ◌∷◌, if◌then◌else◌, arith, ◌⊎◌, inl,
  inr,
}
use runm.Base.Errors.{Error}
use runm.Base.Go.{Outcome, ok, err, panic, is_err}
use runm.Service.Counts.{IsQuiet, handle_process_exit_lem}
use runm.Service.Lifecycle.{
  Service, Exit, pre_start, handle_started, handle_exits, handle_process_exit,
}
use runm.Service.Api.{Shim, CreateRequest, Containers, Request, Answer, create, delete}
use runm.Service.Api.Handlers.{
  create_container, admit_container, announce, create_handler, delete_handler,
}
use runm.Service.Api.Calls.{serve}
use runm.Service.Api.Table.{Change, kept, added, removed, serve-Change, entered}
use runm.Service.Api.Known.{known, answered, create-known, delete-known, delete_failed}

Outcome-cases :
    {A : Type 0} (o : Outcome A) → o ≢ panic → ((a : A) × (o ≡ ok a)) ⊎ ((e : Error) × (o ≡ err e))
Outcome-cases (ok a) n = inl (a, refl)
Outcome-cases (err e) n = inr (e, refl)
Outcome-cases panic n = absurd (n refl)

-- Neither Create nor Delete
abbrev others : Request → Bool
others (create q) = false
others (delete id e) = false
others _ = true

Change-others :
    (h h' : Shim) (r : Request) → others r ≡ true → Change h r h' → h'.containers ≡ h.containers
Change-others h h' r o (kept e) = e.containers
Change-others h h' (create q) o (added c k l m) = ground arith
Change-others h h' (delete id e) o (removed k l) = ground arith

-- What a request does to the fact that an id is known: nothing, if it fails.
abbrev pub after : Request → Outcome Answer → String → Bool → Bool
after r o id k = if is_err o then k else answered r id k

module _ {S : Type 0} (cs : Containers S) where
  handle_exits-ok :
      (es : List Exit) (c p : ℕ) (s : Service) (t : S)
      → IsQuiet cs.processes
      → (handle_exits cs.processes es c p (s, t)).0 ≡ ok tt
  unfolding handle_exits
  handle_exits-ok [] c p s t q = refl
  handle_exits-ok (e ∷ es) c p s t q =
      let u = (handle_process_exit cs.processes e c p (s, t)).1 in
      ground (
        arith,
        (handle_process_exit_lem cs.processes e c p s t q).0,
        handle_exits-ok es c p u.0 u.1 q,
      )

  announce-fails :
      (a : ℕ) (r : CreateRequest) (c : ℕ) (h : Shim) (t : S)
      → IsQuiet cs.processes
      → is_err (announce cs a r c (h, t)).0 ≡ false
  unfolding announce handle_started
  announce-fails a r c h t q = grind (arith, handle_exits-ok)

  admit_failed :
      (a : ℕ) (r : CreateRequest) (c : ℕ) (h : Shim) (t : S)
      → IsQuiet cs.processes
      → is_err (admit_container cs a r c (h, t)).0 ≡ true
      → (admit_container cs a r c (h, t)).1.0.containers ≡ h.containers
  unfolding admit_container
  admit_failed a r c h t q e = ground (arith, announce-fails a r c (entered cs r c h) t q)

  create_failed :
      (r : CreateRequest) (h : Shim) (t : S)
      → IsQuiet cs.processes
      → is_err (create_handler cs r (h, t)).0 ≡ true
      → (create_handler cs r (h, t)).1.0.containers ≡ h.containers
  unfolding create_handler create_container pre_start
  create_failed r h t q e = grind (arith, admit_failed)

  create-after :
      (r : CreateRequest) (id : String) (h : Shim) (t : S)
      → IsQuiet cs.processes
      → let (o, (h', t')) = create_handler cs r (h, t) in
        o ≢ panic → known id h'.containers ≡ after (create r) o id (known id h.containers)
  create-after r id h t q n = elim (Outcome-cases (create_handler cs r (h, t)).0 n) [
    | inl (a, e) ↦ ground (arith, create-known cs r id h t a e)
    | inr (x, e) ↦ ground (arith, create_failed r h t q (ap is_err e))
  ]

  delete-after :
      (j e id : String) (h : Shim) (t : S)
      → let (o, (h', t')) = delete_handler cs j e (h, t) in
        o ≢ panic → known id h'.containers ≡ after (delete j e) o id (known id h.containers)
  delete-after j e id h t n = elim (Outcome-cases (delete_handler cs j e (h, t)).0 n) [
    | inl (a, k) ↦ ground (arith, delete-known cs j e id h t a k)
    | inr (x, k) ↦ ground (arith, (delete_failed cs j e h t x k).containers)
  ]

  others-after :
      (r : Request) (id : String) (o : Outcome Answer) (h h' : Shim)
      → others r ≡ true
      → Change h r h'
      → known id h'.containers ≡ after r o id (known id h.containers)
  others-after (create q) id o h h' k c = ground (arith, Change-others h h' (create q) k c)
  others-after (delete i f) id o h h' k c = ground (arith, Change-others h h' (delete i f) k c)
  others-after r id o h h' k c = ground (arith, Change-others h h' r k c)

  -- Over processes that record exits without an error, a request that does not panic changes the ids
  -- that are known as `after` says.
  pub serve-after :
      (r : Request) (id : String) (h : Shim) (t : S)
      → IsQuiet cs.processes
      → let (o, (h', t')) = serve cs r (h, t) in
        o ≢ panic → known id h'.containers ≡ after r o id (known id h.containers)
  unfolding serve
  serve-after (create r) id h t q n = create-after r id h t q n
  serve-after (delete j e) id h t q n = delete-after j e id h t n
  serve-after r id h t q n =
      others-after r id (serve cs r (h, t)).0 h (serve cs r (h, t)).1.0 refl (serve-Change cs r h t)
