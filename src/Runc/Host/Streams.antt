-- ===== src/Runc/Host/Streams.antt =====
-- core/runc/runtime/grpc/runtime.go: NewPipeIO and NewTempConsoleSocket, with the ports that the host
-- counts up. The host and the guest share the world `W`. A port is allocated in the order in which
-- the guest's handler is over before Accept returns; the others are those of Meeting.
use runm.Base.{
  ℕ, zero, suc, ◌+◌, ◌%◌, ◌^◌, String, Bool, true, false, Option, none, some, List, [], ◌∷◌, nat_eq,
  if◌then◌else◌, is_some,
}
use runm.Base.Errors.{wrap, new}
use runm.Base.Go.{Go, Done, pure, fail, map_err, call, self, update, ◌>>=◌, ◌>>◌}
use runm.Runc.State.{State, store_open_console, store_open_vsock_connection}
use runm.Runc.Server.{
  Server, Sockets, SocketType, vsock_port, dial_open_listener_handler, allocate_console_handler,
  allocate_io_handler, bind_console_to_socket_handler, bind_io_to_sockets_handler,
}
use runm.Runc.Host.{Link, send}

-- GRPCClientRuntime, with the counter of ports, a uint32 of the package.
pub record Host : Type 0 where
  pub vsock_port_counter : ℕ
  pub state : State

-- VSockListen of the virtual machine, and Accept of its listener, and the constructor of the host's
-- console socket
pub record Listener (W : Type 0) : Type 0 where
  pub listen : ℕ → Go W Done
  pub accept : ℕ → Go W ℕ
  -- NewHostUnixConsoleSocketV2 of a reference and a connection: the console socket
  pub new_host_console : String → ℕ → Go W ℕ

-- HostAllocatedStdio
pub record HostStdio : Type 0 where
  pub reference_id : String
  pub stdin_socket : Option ℕ
  pub stdout_socket : Option ℕ
  pub stderr_socket : Option ℕ

-- `vsockPortCounter.Add(1)`, and the port of a number
abbrev pub next_counter : ℕ → ℕ
next_counter n = suc n % 2 ^ 32

abbrev pub port_of : ℕ → ℕ
port_of n = (n + 3300) % 2 ^ 32

-- `allocatedSockets[port]` of a map that is written in the order of the list
abbrev pub socket_at : ℕ → List (ℕ × ℕ) → Option ℕ
socket_at p [] = none
socket_at p ((q, c) ∷ rs) =
    let rest = socket_at p rs in
    if is_some rest then rest else (if nat_eq q p then some c else none)

-- `refs[count2]`, and the list behind it; none if the stream is not opened. There are as many as
-- streams that are opened.
abbrev pub take_ref : Bool → List (ℕ × ℕ) → Option ℕ × List (ℕ × ℕ)
take_ref false rs = (none, rs)
take_ref true [] = (none, [])
take_ref true ((p, c) ∷ rs) = (some p, rs)

abbrev pub socket_type_of : Option ℕ → Option SocketType
socket_type_of none = none
socket_type_of (some p) = some (vsock_port p)

abbrev pub allocated_at : Option ℕ → List (ℕ × ℕ) → Option ℕ
allocated_at none rs = none
allocated_at (some p) rs = socket_at p rs

abbrev pub one_if : Bool → ℕ
one_if b = if b then 1 else 0

module _ {A W : Type 0} (l : Link A W) (ls : Listener W) (c : Sockets W) where
  -- listenToVsockWithDialerCallback
  unfoldable pub listen_to_vsock : ℕ → Go (Server × W) ℕ
  listen_to_vsock p =
      map_err
        (λ e.
          wrap "listening and accepting vsock connection"
            (wrap "listening and accepting vsock connection" e))
        (do
          map_err (wrap "creating listener") (call (ls.listen p))
          map_err (λ e. wrap "waiting for connection" (wrap "dialing connection" e))
              (send l (dial_open_listener_handler c (vsock_port p)))
          map_err (λ e. wrap "waiting for connection" (wrap "accepting connection" e))
              (call (ls.accept p)))

  -- allocateVsockSocket: the port and the connection
  unfoldable pub allocate_vsock_socket : Go (Host × (Server × W)) (ℕ × ℕ)
  allocate_vsock_socket = do
    update (λ h. record h { vsock_port_counter = next_counter h.vsock_port_counter })
    h ← self
    conn ←
        map_err (wrap "listening to vsock") (call (listen_to_vsock (port_of h.vsock_port_counter)))
    pure (port_of h.vsock_port_counter, conn)

  -- `for i := 0; i < count; i++`
  unfoldable pub allocate_sockets : ℕ → Go (Host × (Server × W)) (List (ℕ × ℕ))
  allocate_sockets zero = pure []
  allocate_sockets (suc n) = do
    a ← map_err (wrap "allocating vsock socket") allocate_vsock_socket
    rs ← allocate_sockets n
    pure (a ∷ rs)

  -- NewPipeIO behind the loop: the streams take the sockets in the order stdin, stdout, stderr.
  unfoldable pub bind_pipe_io :
      Bool → Bool → Bool → List (ℕ × ℕ) → Go (Host × (Server × W)) HostStdio
  bind_pipe_io i o e rs = do
    ref ← map_err (wrap "allocating IO") (call (send l (allocate_io_handler c i o e)))
    let (pi, as1) = take_ref i rs
    let (po, as2) = take_ref o as1
    let (pe, as3) = take_ref e as2
    map_err (wrap "binding IO to sockets") (
        call (
          send l (
            bind_io_to_sockets_handler c ref (socket_type_of pi) (socket_type_of po)
              (socket_type_of pe))))
    pure (record {
      reference_id = ref;
      stdin_socket = allocated_at pi rs;
      stdout_socket = allocated_at po rs;
      stderr_socket = allocated_at pe rs;
    })

  -- NewPipeIO
  unfoldable pub new_pipe_io : Bool → Bool → Bool → Go (Host × (Server × W)) HostStdio
  new_pipe_io i o e =
      let count = one_if i + (one_if o + one_if e) in
      if nat_eq count 0
      then fail (new "no sockets to allocate")
      else allocate_sockets count >>= bind_pipe_io i o e

  -- NewTempConsoleSocket: the reference and the host's connection. The closing of a console calls
  -- CloseConsole of its reference.
  unfoldable pub new_temp_console_socket : Go (Host × (Server × W)) (String × ℕ)
  new_temp_console_socket = do
    (p, conn) ← map_err (wrap "allocating vsock socket") allocate_vsock_socket
    ref ← map_err (wrap "creating temp console socket") (call (send l (allocate_console_handler c)))
    map_err (wrap "binding console to socket")
        (call (send l (bind_console_to_socket_handler c ref (vsock_port p))))
    sock ←
        map_err (wrap "creating host console socket") (call (call (ls.new_host_console ref conn)))
    update (λ h. record h {
      state =
          store_open_vsock_connection p conn
            (store_open_console ref (record { pointer = sock; reference = some ref }) h.state);
    })
    pure (ref, conn)
