-- ===== src/Runc/Host/Tests.antt =====
-- A guest whose containers run no more, and the theorems at such inputs.
use runm.Base.{ℕ, suc, ◌≡◌, refl, true, false, none, some, is_some, inr, [], ◌∷◌, pos, arith}
use runm.Base.Text.{codes, has_suffix}
use runm.Base.Errors.{error_text, wrap, new, is_error, err_not_found}
use runm.Base.Go.{ok, err, is_err}
use runm.Process.Kill.{check_kill_error}
use runm.Runc.State.{new_state, store_open_io, store_open_console, store_open_vsock_connection}
use runm.Runc.Options.{Stream, ExecOpts, KillOpts}
use runm.Runc.Server.{
  Server, Sockets, vsock_port, load_socket, dial_open_listener_handler, allocate_console_handler,
  bind_console_to_socket_handler,
}
use runm.Runc.Guest.{Guest}
use runm.Runc.Host.{Link, exec, kill, remote, done}
use runm.Runc.Host.Meeting.{Meeting, Reach, start_meeting, returned_too_early}
use runm.Runc.Host.Streams.{
  Host, Listener, listen_to_vsock, allocate_vsock_socket, new_temp_console_socket,
}
use runm.Runc.Host.Consoles.{console_shared}
use runm.Runc.Host.Remote.{IsUp, kill_not_running}

-- The world is the number of calls; a process is a number.
abbrev guest : Guest ℕ ℕ
guest = record {
  read_pid_file = λ p w. (ok (pos 42), suc w);
  create = λ i b o w. (ok tt, suc w);
  start = λ i w. (ok tt, suc w);
  delete = λ i o w. (ok tt, suc w);
  kill = λ i n o w. (err (new "container not running"), suc w);
  pause = λ i w. (ok tt, suc w);
  resume = λ i w. (ok tt, suc w);
  ps = λ i w. (ok (pos 42 ∷ []), suc w);
  exec = λ i p o w. (err (new "exec failed"), suc w);
  open_file = λ f w. (ok 3, suc w);
  close_stream = λ s w. (ok tt, suc w);
  close_socket = λ v w. (ok tt, suc w);
  unmarshal = λ t. ok 5;
  range = λ s. record { ios = "io:1" ∷ []; consoles = []; vsocks = []; unixes = [] };
  sentinel_text = λ s. [];
}

abbrev link : Link ℕ ℕ
link = record {
  unsent = λ w. none;
  lost = λ w. none;
  carry = λ e. wrap "rpc error" e;
  marshal = λ p. ok "{}";
}

link-IsUp : IsUp link guest
link-IsUp = record { sends = λ w. refl; answers = λ w. refl }

abbrev pipes : Stream
pipes = record { pointer = 1; reference = some "io:1" }

-- What the guest has under that reference: no reference of its own
abbrev guest_pipes : Stream
guest_pipes = record { pointer = 8; reference = none }

abbrev server : Server
server = record {
  state = store_open_io "io:1" guest_pipes new_state;
  console_reference_counter = 0;
  io_reference_counter = 1;
}

abbrev options : ExecOpts
options = record {
  pid_file = "/b/sh.pid";
  io = some pipes;
  detach = true;
  console_socket = none;
  extra_args = [];
}

abbrev no_args : KillOpts
no_args = record { all = false; extra_args = [] }

ended :
    has_suffix
      (error_text guest.sentinel_text (new "container not running"))
      (codes "container not running")
    ≡ true
unfolding has_suffix error_text
ended = refl

kill_not_running_example :
    (remote link guest (kill "c" (pos 9) no_args) (server, 0) ≡ (ok done, (server, 1)))
    × (is_error err_not_found (check_kill_error guest.sentinel_text (new "container not running"))
        ≡ true)
kill_not_running_example =
    kill_not_running link guest "c" (pos 9) no_args server 0 1 (new "container not running")
      link-IsUp (omega arith) refl ended

abbrev sockets : Sockets ℕ
sockets = record {
  dial_vsock = λ p w. (ok p, w);
  dial_unix = λ p w. (ok 1, w);
  socket_type = vsock_port;
  console_reference = λ n. "console:1";
  io_reference = λ n. "io:1";
  new_console_path = λ w. (record { pointer = w; reference = none }, suc w);
  new_pipe_io = λ i o e w. (ok (record { pointer = w; reference = none }), suc w);
  is_bindable = λ s. true;
  bind_to_allocated_socket = λ s v w. (ok tt, w);
  new_allocated_socket_io = λ i o e w. (record { pointer = w; reference = none }, suc w);
  close_stream = λ s w. (ok tt, w);
  close_socket = λ v w. (ok tt, w);
  receive_master = λ s w. (ok 0, w);
  resize = λ m x y w. (ok tt, w);
}

abbrev listener : Listener ℕ
listener = record {
  listen = λ p w. (ok tt, suc w);
  accept = λ p w. (ok 77, suc w);
  new_host_console = λ r c w. (ok 90, w);
}

abbrev host : Host
host = record { vsock_port_counter = 0; state = new_state }

abbrev empty_server : Server
empty_server = record { state = new_state; console_reference_counter = 0; io_reference_counter = 0 }

abbrev host_after : Host
host_after = record {
  vsock_port_counter = 1;
  state = store_open_vsock_connection 3301 77 (
      store_open_console "console:1" (record { pointer = 90; reference = some "console:1" })
        new_state);
}

abbrev server_after : Server
server_after = record {
  state =
      store_open_console "console:1" (record { pointer = 2; reference = none })
        (store_open_vsock_connection 3301 3301 new_state);
  console_reference_counter = 1;
  io_reference_counter = 0;
}

made :
    new_temp_console_socket link listener sockets (host, (empty_server, 0))
    ≡ (ok ("console:1", 77), (host_after, (server_after, 3)))
unfolding new_temp_console_socket allocate_vsock_socket listen_to_vsock dial_open_listener_handler
    allocate_console_handler bind_console_to_socket_handler load_socket store_open_console
    store_open_vsock_connection
made = refl

console_shared_example :
    (is_some (server_after.state.open_consoles "console:1") ≡ true)
    × (is_some (server_after.state.open_vsocks 3301) ≡ true)
    × (is_some (host_after.state.open_consoles "console:1") ≡ true)
    × (host_after.state.open_vsocks 3301 ≡ some 77)
console_shared_example =
    console_shared link listener sockets host host_after empty_server server_after 0 3 "console:1"
      77 made

returned_too_early_example :
    (x : Meeting) × Reach 3301 (start_meeting new_state) x
    × (x.returned ≡ some (inr 77))
    × (is_err (load_socket (vsock_port 3301) x.state) ≡ true)
returned_too_early_example = returned_too_early 3301 5 77 new_state refl
