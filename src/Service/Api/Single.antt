-- ===== src/Service/Api/Single.antt =====
-- cmd/containerd-shim-runm-v2/task/service.go: one container for a shim.
use runm.Base.{
  Bool-cases, not, ◌||◌, ℕ, suc, ◌≡◌, ◌≢◌, refl, sym, ◌∙◌, ap, Bool, true, false, ◌&&◌, String,
  List, [], ◌∷◌, ◌==◌, arith, eq_iff, ◌⊎◌, inl, inr,
}
use runm.Base.Errors.{sentinel, err_already_exists}
use runm.Base.Go.{Outcome, ok, err}
use runm.Service.Lifecycle.{pre_start, cleanup}
use runm.Service.Api.{Shim, CreateRequest, Containers, Request, create, delete, remove, insert}
use runm.Service.Api.Handlers.{create_container, admit_container, create_handler}
use runm.Service.Api.Calls.{serve, serve_all}
use runm.Service.Api.Known.{known, known-remove}
use runm.Service.Api.Table.{Same, Change, kept, added, removed, serve-Change}

-- The map is empty, or has the one container that Create has let in.
pub data Single (h : Shim) : Type 0 where
  no_container : h.containers ≡ [] → Single h
  one_container :
      (c : ℕ) (p : String)
      → p ≢ ""
      → h.primary_container_id ≡ p
      → h.containers ≡ (p, c) ∷ []
      → Single h

-- A request to create a container has its id.
abbrev pub named : Request → Bool
named (create q) = not (q.id == "")
named _ = true

abbrev pub all_named : List Request → Bool
all_named [] = true
all_named (r ∷ rs) = named r && all_named rs

id_nonempty : (q : CreateRequest) → named (create q) ≡ true → q.id ≢ ""
id_nonempty q k e = ground (arith, eq_iff q.id "")

remove-one :
    (id p : String) (c : ℕ)
    → (remove id ((p, c) ∷ []) ≡ []) ⊎ (remove id ((p, c) ∷ []) ≡ (p, c) ∷ [])
remove-one id p c = ground arith

Single-Same : (h h' : Shim) → Same h h' → Single h → Single h'
Single-Same h h' e (no_container k) = no_container (e.containers ∙ k)
Single-Same h h' e (one_container c p n q k) =
    one_container c p n (e.primary_container_id ∙ q) (e.containers ∙ k)

Change-Single : (h h' : Shim) (r : Request) → named r ≡ true → Single h → Change h r h' → Single h'
Change-Single h h' r n s (kept e) = Single-Same h h' e s
Change-Single h h' (create q) n (no_container m) (added c k l p) =
    one_container c q.id (id_nonempty q n) p (l ∙ ap (insert q.id c) m)
Change-Single h h' (create q) n (one_container d p x y m) (added c k l o) = absurd (x (sym y ∙ k))
Change-Single h h' (delete id e) n (no_container m) (removed k p) =
    no_container (k ∙ ap (remove id) m)
Change-Single h h' (delete id e) n (one_container d p x y m) (removed k q) =
    elim (remove-one id p d) [
      | inl g ↦ no_container (k ∙ ap (remove id) m ∙ g)
      | inr g ↦ one_container d p x (q ∙ y) (k ∙ ap (remove id) m ∙ g)
    ]

known_before :
    (h' h : Shim) (id : String)
    → (known id h'.containers ≡ true → known id h.containers ≡ true)
    → (not (known id h'.containers) || known id h.containers) ≡ true
known_before h' h id f = elim (Bool-cases (known id h'.containers)) [
  | inl k ↦ ground (arith, k, f k)
  | inr k ↦ ground (arith, k)
]

abbrev pub is_ok : {A : Type 0} → Outcome A → Bool
is_ok (ok a) = true
is_ok _ = false

module _ {S : Type 0} (cs : Containers S) where
  -- From a service with at most one container, requests in which every Create has an id lead to
  -- such a service.
  pub serve_all-Single :
      (rs : List Request) (h : Shim) (t : S)
      → all_named rs ≡ true
      → Single h
      → Single (serve_all cs rs (h, t)).0
  unfolding serve_all
  serve_all-Single [] h t n s = s
  serve_all-Single (r ∷ rs) h t n s =
      let (h', t') = (serve cs r (h, t)).1 in
      serve_all-Single rs h' t' (ground arith)
        (Change-Single h h' r (ground arith) s (serve-Change cs r h t))

  Change-shut :
      (h h' : Shim) (r : Request) (id : String)
      → h.primary_container_id ≢ ""
      → Change h r h'
      → (h'.primary_container_id ≡ h.primary_container_id)
        × (known id h'.containers ≡ true → known id h.containers ≡ true)
  Change-shut h h' r id n (kept e) =
      (e.primary_container_id, λ k. ap (known id) (sym e.containers) ∙ k)
  Change-shut h h' (create q) id n (added c k l m) = absurd (n k)
  Change-shut h h' (delete j e) id n (removed k p) =
      (p, λ g. ground (arith, known-remove id j h.containers, ap (known id) k))

  -- The id on record stays, and an id that is known was known before.
  serve_all-shut :
      (rs : List Request) (id : String) (h : Shim) (t : S)
      → h.primary_container_id ≢ ""
      → let (h', t') = serve_all cs rs (h, t) in
        (h'.primary_container_id ≡ h.primary_container_id)
        × (known id h'.containers ≡ true → known id h.containers ≡ true)
  unfolding serve_all
  serve_all-shut [] id h t n = (refl, λ k. k)
  serve_all-shut (r ∷ rs) id h t n =
      let (h', t') = (serve cs r (h, t)).1 in
      let (p, back) = Change-shut h h' r id n (serve-Change cs r h t) in
      let (q, again) = serve_all-shut rs id h' t' (λ e. n (sym p ∙ e)) in
      (q ∙ p, λ k. back (again k))

  create_shut :
      (q : CreateRequest) (h : Shim) (t : S)
      → h.primary_container_id ≢ ""
      → is_ok (create_handler cs q (h, t)).0 ≡ false
  unfolding create_handler create_container admit_container pre_start
  create_shut q h t n = ground (arith, eq_iff h.primary_container_id "")

  -- Once a shim has had a container, Create is not answered after any further requests, and no id
  -- becomes known.
  pub create_once :
      (rs : List Request) (q : CreateRequest) (id : String) (h : Shim) (t : S)
      → h.primary_container_id ≢ ""
      → let (h', t') = serve_all cs rs (h, t) in
        (is_ok (create_handler cs q (h', t')).0 ≡ false)
        × ((not (known id h'.containers) || known id h.containers) ≡ true)
  create_once rs q id h t n =
      let (h', t') = serve_all cs rs (h, t) in
      let (p, back) = serve_all-shut rs id h t n in
      (create_shut q h' t' (λ e. n (sym p ∙ e)), known_before h' h id back)

  -- With a container on record, a Create whose calls succeed makes its container, with one more
  -- callback, and is then refused: the map and the events are as before, and the world is as the new
  -- container has left it.
  second_create_lem :
      (r : CreateRequest) (h : Shim) (t : S) (c : ℕ)
      → h.primary_container_id ≢ ""
      → (cs.serve_grpc r.bundle t).0 ≡ ok tt
      → let t1 = (cs.serve_grpc r.bundle t).1 in
        (cs.read_spec r.bundle t1).0 ≡ ok tt
        → let t2 = (cs.read_spec r.bundle t1).1 in
          (cs.new_container r t2).0 ≡ ok c
          → let (o, (h', t')) = create_handler cs r (h, t) in
            (o ≡ err (sentinel err_already_exists))
            × (h'.containers ≡ h.containers)
            × (h'.callbacks ≡ suc h.callbacks)
            × (h'.service.events ≡ h.service.events)
            × (t' ≡ (cs.new_container r t2).1)
  unfolding create_handler create_container admit_container pre_start cleanup
  second_create_lem r h t c n i j k = ground (arith, eq_iff h.primary_container_id "")
