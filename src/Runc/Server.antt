-- ===== src/Runc/Server.antt =====
-- core/runc/server/socket.go: the calls by which the host opens, binds and closes consoles, streams
-- and sockets in the guest, and the counters of core/runc/runtime/refid.go. Sockets are numbers.
pub mod References
pub mod Runs
mod Tests
use runm.Base.{
  ℕ, suc, ◌%◌, ◌^◌, String, Bool, true, false, Option, none, some, List, [], ◌∷◌, if◌then◌else◌,
}
use runm.Base.Errors.{Error, wrap, new}
use runm.Base.Go.{
  Go, Outcome, panic, Done, ok, err, pure, fail, skip, map_err, ignore, call, ask, self, update,
  ◌>>=◌, ◌>>◌,
}
use runm.Runc.Options.{Stream}
use runm.Runc.State.{
  State, store_open_io, store_open_console, store_open_vsock_connection, store_open_unix_connection,
  delete_open_io, delete_open_console, delete_open_vsock_connection, delete_open_unix_connection,
}

-- SocketType
pub data SocketType : Type 0 where
  vsock_port : ℕ → SocketType
  unix_socket_path : String → SocketType
  no_socket_type : SocketType

pub record Server : Type 0 where
  pub state : State
  pub console_reference_counter : ℕ
  pub io_reference_counter : ℕ

-- The messages of the host: which is called, with what
pub data Request : Type 0 where
  dial_open_listener : SocketType → Request
  allocate_console : Request
  allocate_io : Bool → Bool → Bool → Request
  bind_console_to_socket : String → SocketType → Request
  bind_io_to_sockets : String → Option SocketType → Option SocketType → Option SocketType → Request
  close_console close_io : String → Request
  close_socket : SocketType → Request
  close_sockets : List SocketType → Request
  resize_console : String → ℕ → ℕ → Request

-- What the server calls of sockets, consoles and the runtime. `socket_type` is Port() or Path() of
-- an allocated socket, `console_reference` and `io_reference` print a counter after a fixed word.
pub record Sockets (W : Type 0) : Type 0 where
  pub dial_vsock : ℕ → Go W ℕ
  pub dial_unix : String → Go W ℕ
  pub socket_type : ℕ → SocketType
  pub console_reference : ℕ → String
  pub io_reference : ℕ → String
  pub new_console_path : W → Stream × W
  pub new_pipe_io : Bool → Bool → Bool → Go W Stream
  pub is_bindable : Stream → Bool
  pub bind_to_allocated_socket : Stream → ℕ → Go W Done
  pub new_allocated_socket_io : Option ℕ → Option ℕ → Option ℕ → W → Stream × W
  pub close_stream : Stream → Go W Done
  pub close_socket : ℕ → Go W Done
  pub receive_master : Stream → Go W ℕ
  pub resize : ℕ → ℕ → ℕ → Go W Done

-- `Add(1)` of a uint64
abbrev pub add_one : ℕ → ℕ
add_one n = suc n % 2 ^ 64

module _ {W : Type 0} where
  -- A write of the state
  abbrev pub on_state : (State → State) → Go (Server × W) Done
  on_state f = update (λ s. record s { state = f s.state })

  -- A look-up in the state, with the error for what is not there
  abbrev pub get : {A : Type 0} → (State → Option A) → String → Go (Server × W) A
  get f m (s, w) = elim (f s.state) [ none ↦ (err (new m), (s, w)) | some a ↦ (ok a, (s, w)) ]

  -- What only reads the state
  abbrev pub read : {A : Type 0} → (State → Outcome A) → Go (Server × W) A
  read f (s, w) = (f s.state, (s, w))

abbrev pub found : String → Option ℕ → Outcome ℕ
found m none = err (new m)
found m (some v) = ok v

-- loadSocket
unfoldable pub load_socket : SocketType → State → Outcome ℕ
load_socket (vsock_port p) s = found "vsock port not found" (s.open_vsocks p)
load_socket (unix_socket_path p) s = found "unix socket path not found" (s.open_unixes p)
load_socket no_socket_type s = err (new "invalid socket type")

abbrev pub loaded : Outcome ℕ → Outcome (Option ℕ)
loaded (ok v) = ok (some v)
loaded (err e) = err e
loaded panic = panic

-- `if req.GetStdinSocket() != nil`
unfoldable pub load_if : Option SocketType → State → Outcome (Option ℕ)
load_if none s = ok none
load_if (some t) s = loaded (load_socket t s)

module _ {W : Type 0} (c : Sockets W) where
  -- deleteSocket
  unfoldable pub delete_socket : ℕ → Go (Server × W) Done
  delete_socket v = elim (c.socket_type v) [
    | vsock_port p ↦ on_state (delete_open_vsock_connection p)
    | unix_socket_path p ↦ on_state (delete_open_unix_connection p)
    | no_socket_type ↦ fail (new "unknown socket type")
  ]

  -- DialOpenListener
  unfoldable pub dial_open_listener_handler : SocketType → Go (Server × W) Done
  dial_open_listener_handler (vsock_port p) = do
    v ← map_err (wrap "failed to open vsock listener") (call (c.dial_vsock p))
    on_state (store_open_vsock_connection p v)
  dial_open_listener_handler (unix_socket_path p) = do
    v ← map_err (wrap "failed to open unix socket listener") (call (c.dial_unix p))
    on_state (store_open_unix_connection p v)
  dial_open_listener_handler no_socket_type = fail (new "invalid listening on")

  -- AllocateConsole, which hands back the reference
  unfoldable pub allocate_console_handler : Go (Server × W) String
  allocate_console_handler = do
    update (λ s. record s { console_reference_counter = add_one s.console_reference_counter })
    s ← self
    path ← ask c.new_console_path
    on_state (store_open_console (c.console_reference s.console_reference_counter) path)
    pure (c.console_reference s.console_reference_counter)

  -- AllocateIO
  unfoldable pub allocate_io_handler : Bool → Bool → Bool → Go (Server × W) String
  allocate_io_handler i o e = do
    update (λ s. record s { io_reference_counter = add_one s.io_reference_counter })
    s ← self
    pio ← map_err (wrap "allocating io") (call (c.new_pipe_io i o e))
    on_state (store_open_io (c.io_reference s.io_reference_counter) pio)
    pure (c.io_reference s.io_reference_counter)

  -- BindConsoleToSocket
  unfoldable pub bind_console_to_socket_handler : String → SocketType → Go (Server × W) Done
  bind_console_to_socket_handler r t = do
    cs ← get (λ s. s.open_consoles r) "cannot bind console to socket: console not found"
    if c.is_bindable cs
        then skip
        else fail (new "cannot bind console to socket: console is not a socket bindable console")
    v ← map_err (wrap "cannot bind console to socket: socket not found") (read (load_socket t))
    map_err (wrap "cannot bind console to socket") (call (c.bind_to_allocated_socket cs v))

  -- BindIOToSockets
  unfoldable pub bind_io_to_sockets_handler :
      String → Option SocketType → Option SocketType → Option SocketType → Go (Server × W) Done
  bind_io_to_sockets_handler r i o e = do
    io ← get (λ s. s.open_ios r) "io not found"
    vi ← read (load_if i)
    vo ← read (load_if o)
    ve ← read (load_if e)
    ignore (call (c.close_stream io))
    ios ← ask (c.new_allocated_socket_io vi vo ve)
    on_state (store_open_io r ios)

  -- CloseConsole
  unfoldable pub close_console_handler : String → Go (Server × W) Done
  close_console_handler r = do
    cs ← get (λ s. s.open_consoles r) "console not found for reference id"
    ignore (call (c.close_stream cs))
    on_state (delete_open_console r)

  -- CloseIO, where a stream that is not open is no error
  unfoldable pub close_io_handler : String → Go (Server × W) Done
  close_io_handler r (s, w) = elim (s.state.open_ios r) [
    | none ↦ (ok tt, (s, w))
    | some io ↦ (ignore (call (c.close_stream io)) >> on_state (delete_open_io r)) (s, w)
  ]

  -- CloseSocket
  unfoldable pub close_socket_handler : SocketType → Go (Server × W) Done
  close_socket_handler t = do
    v ← read (load_socket t)
    ignore (call (c.close_socket v))
    delete_socket v

  -- CloseSockets
  unfoldable pub close_sockets_handler : List SocketType → Go (Server × W) Done
  close_sockets_handler [] = skip
  close_sockets_handler (t ∷ ts) = close_socket_handler t >> close_sockets_handler ts

  -- ResizeConsole, with the size as it is sent, a uint32
  unfoldable pub resize_console_handler : String → ℕ → ℕ → Go (Server × W) Done
  resize_console_handler r width height = do
    cs ← get (λ s. s.open_consoles r) "console not found"
    master ← map_err (wrap "failed to receive master console") (call (c.receive_master cs))
    map_err (wrap "failed to resize console")
        (call (c.resize master (width % 2 ^ 16) (height % 2 ^ 16)))

  -- A message, its answer aside
  unfoldable pub serve : Request → Server × W → Server × W
  serve (dial_open_listener t) s = (dial_open_listener_handler t s).1
  serve allocate_console s = (allocate_console_handler s).1
  serve (allocate_io i o e) s = (allocate_io_handler i o e s).1
  serve (bind_console_to_socket r t) s = (bind_console_to_socket_handler r t s).1
  serve (bind_io_to_sockets r i o e) s = (bind_io_to_sockets_handler r i o e s).1
  serve (close_console r) s = (close_console_handler r s).1
  serve (close_io r) s = (close_io_handler r s).1
  serve (close_socket t) s = (close_socket_handler t s).1
  serve (close_sockets ts) s = (close_sockets_handler ts s).1
  serve (resize_console r width height) s = (resize_console_handler r width height s).1

  unfoldable pub serve_all : List Request → Server × W → Server × W
  serve_all [] s = s
  serve_all (r ∷ rs) s = serve_all rs (serve r s)
