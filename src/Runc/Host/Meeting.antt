-- ===== src/Runc/Host/Meeting.antt =====
-- pkg/conn/proxy.go, ListenAndAcceptSingleNetConn, as core/runc/runtime/grpc/runtime.go calls it: the
-- host listens on a port of its own while the guest, asked by DialOpenListener, dials that port.
use runm.Base.{
  ℕ, ◌≡◌, refl, Bool, true, false, Option, none, some, List, [], ◌∷◌, ◌⊎◌, inl, inr, arith,
}
use runm.Base.Errors.{Error, wrap}
use runm.Base.Go.{is_err}
use runm.Runc.State.{State, store_open_vsock_connection}
use runm.Runc.Server.{load_socket, vsock_port}

-- The three goroutines of the host and the handler in the guest. `asked` says that the guest's dial has
-- reached the host, `dialled` is the guest's end of the connection, and `stored` says that its
-- handler has put it into the state; `connch` has room for one.
pub record Meeting : Type 0 where
  pub state : State
  pub asked : Bool
  pub dialled : Option ℕ
  pub stored : Bool
  pub dial_failed : Bool
  pub accepted : Bool
  pub connch : List (Error ⊎ ℕ)
  pub returned : Option (Error ⊎ ℕ)

abbrev pub start_meeting : State → Meeting
start_meeting s = record {
  state = s;
  asked = false;
  dialled = none;
  stored = false;
  dial_failed = false;
  accepted = false;
  connch = [];
  returned = none;
}

pub data Step (port : ℕ) (x y : Meeting) : Type 0 where
  -- vsock.Dial of DialOpenListener, in the guest, asks for the host's port, and returns
  asks : x.asked ≡ false → y ≡ record x { asked = true } → Step port x y
  dials :
      (v : ℕ)
      → x.asked ≡ true
      → x.dialled ≡ none
      → x.dial_failed ≡ false
      → y ≡ record x { dialled = some v }
      → Step port x y
  -- DialOpenListener stores the connection
  stores :
      (v : ℕ)
      → x.dialled ≡ some v
      → x.stored ≡ false
      → y ≡ record x { state = store_open_vsock_connection port v x.state; stored = true }
      → Step port x y
  -- The dial callback fails
  dial_fails :
      (e : Error)
      → x.dialled ≡ none
      → x.dial_failed ≡ false
      → x.connch ≡ []
      → y ≡ record x { dial_failed = true; connch = inl (wrap "dialing connection" e) ∷ [] }
      → Step port x y
  -- Accept returns, once the guest has asked; its Dial may not have returned yet
  accepts :
      (c : ℕ)
      → x.asked ≡ true
      → x.accepted ≡ false
      → x.connch ≡ []
      → y ≡ record x { accepted = true; connch = inr c ∷ [] }
      → Step port x y
  -- The select takes what came first
  returns_conn :
      (c : ℕ)
      → x.returned ≡ none
      → x.connch ≡ inr c ∷ []
      → y ≡ record x { connch = []; returned = some (inr c) }
      → Step port x y
  returns_error :
      (e : Error)
      → x.returned ≡ none
      → x.connch ≡ inl e ∷ []
      → y ≡ record x { connch = []; returned = some (inl (wrap "waiting for connection" e)) }
      → Step port x y
  -- The context is done, or ten seconds are over
  times_out :
      (e : Error) → x.returned ≡ none → y ≡ record x { returned = some (inl e) } → Step port x y

pub data Reach (port : ℕ) (x : Meeting) : Meeting → Type 0 where
  here : Reach port x x
  next : {y z : Meeting} → Reach port x y → Step port y z → Reach port x z

abbrev pub is_conn : Option (Error ⊎ ℕ) → Bool
is_conn (some (inr c)) = true
is_conn _ = false

abbrev pub has_conn : List (Error ⊎ ℕ) → Bool
has_conn [] = false
has_conn (inr c ∷ rs) = true
has_conn (inl e ∷ rs) = has_conn rs

-- The host may go on with its connection before the guest has stored the other end; a call that
-- names the port is then refused.
pub returned_too_early :
    (port v c : ℕ) (s : State)
    → s.open_vsocks port ≡ none
    → (x : Meeting) × Reach port (start_meeting s) x
      × (x.returned ≡ some (inr c))
      × (is_err (load_socket (vsock_port port) x.state) ≡ true)
unfolding load_socket
returned_too_early port v c s n =
    let x1 = record (start_meeting s) { asked = true } in
    let x2 = record x1 { dialled = some v } in
    let x3 = record x2 { accepted = true; connch = inr c ∷ [] } in
    let x4 = record x3 { connch = []; returned = some (inr c) } in
    let r1 = next {y = start_meeting s} {z = x1} here (asks refl refl) in
    let r2 = next {y = x1} {z = x2} r1 (dials v refl refl refl refl) in
    let r3 = next {y = x2} {z = x3} r2 (accepts c refl refl refl refl) in
    (x4, next {y = x3} {z = x4} r3 (returns_conn c refl refl refl), refl, ground (arith, n))
