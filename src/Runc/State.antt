-- ===== src/Runc/State.antt =====
-- core/runc/state/state.go: what the server in the guest has open, by reference, and what it has
-- closed. The maps are of pkg/syncmap, which is sync.Map with types.
use runm.Base.{ℕ, String, Option, none, some, set, put}
use runm.Runc.Options.{Stream}

pub record State : Type 0 where
  pub open_ios : String → Option Stream
  pub open_consoles : String → Option Stream
  pub open_vsocks : ℕ → Option ℕ
  pub open_unixes : String → Option ℕ
  pub closed_ios : String → Option Stream
  pub closed_consoles : String → Option Stream
  pub closed_vsocks : ℕ → Option ℕ
  pub closed_unixes : String → Option ℕ

-- NewState
abbrev pub new_state : State
new_state = record {
  open_ios = λ k. none;
  open_consoles = λ k. none;
  open_vsocks = λ k. none;
  open_unixes = λ k. none;
  closed_ios = λ k. none;
  closed_consoles = λ k. none;
  closed_vsocks = λ k. none;
  closed_unixes = λ k. none;
}

unfoldable pub store_open_io : String → Stream → State → State
store_open_io r v s = record s { open_ios = set r (some v) s.open_ios }

unfoldable pub store_open_console : String → Stream → State → State
store_open_console r v s = record s { open_consoles = set r (some v) s.open_consoles }

unfoldable pub store_open_vsock_connection : ℕ → ℕ → State → State
store_open_vsock_connection port v s = record s { open_vsocks = put port (some v) s.open_vsocks }

unfoldable pub store_open_unix_connection : String → ℕ → State → State
store_open_unix_connection path v s = record s { open_unixes = set path (some v) s.open_unixes }

-- LoadAndDelete, and a Store among the closed ones if there was something.
unfoldable pub delete_open_io : String → State → State
delete_open_io r s = elim (s.open_ios r) [
  | none ↦ record s { open_ios = set r none s.open_ios }
  | some v ↦ record s { open_ios = set r none s.open_ios; closed_ios = set r (some v) s.closed_ios }
]

unfoldable pub delete_open_console : String → State → State
delete_open_console r s = elim (s.open_consoles r) [
  | none ↦ record s { open_consoles = set r none s.open_consoles }
  | some v ↦ record s {
    open_consoles = set r none s.open_consoles;
    closed_consoles = set r (some v) s.closed_consoles;
  }
]

unfoldable pub delete_open_vsock_connection : ℕ → State → State
delete_open_vsock_connection port s = elim (s.open_vsocks port) [
  | none ↦ record s { open_vsocks = put port none s.open_vsocks }
  | some v ↦ record s {
    open_vsocks = put port none s.open_vsocks;
    closed_vsocks = put port (some v) s.closed_vsocks;
  }
]

unfoldable pub delete_open_unix_connection : String → State → State
delete_open_unix_connection path s = elim (s.open_unixes path) [
  | none ↦ record s { open_unixes = set path none s.open_unixes }
  | some v ↦ record s {
    open_unixes = set path none s.open_unixes;
    closed_unixes = set path (some v) s.closed_unixes;
  }
]
