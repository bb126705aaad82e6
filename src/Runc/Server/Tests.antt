-- ===== src/Runc/Server/Tests.antt =====
-- A guest whose references are as long as the counter, and the theorem at a few calls.
use Prim.Native.Char.{nul}
use runm.Base.{
  ℕ, zero, suc, ◌≡◌, refl, sym, ap, ◌∙◌, String, List, true, false, none, some, is_some, [], ◌∷◌,
  ◌&&◌, ◌||◌, length, arith,
}
use runm.Base.Text.{codes}
use runm.Base.Go.{ok}
use runm.Runc.Server.{
  Sockets, vsock_port, Request, allocate_io, allocate_console, dial_open_listener,
  bind_io_to_sockets, close_io, add_one, serve_all,
}
use runm.Runc.Server.Runs.{new_server, IsNaming, references_fresh}

abbrev tally : ℕ → String
tally zero = String.[]
tally (suc n) = String.◌∷◌ nul (tally n)

length-tally : (n : ℕ) → length (codes (tally n)) ≡ n
length-tally zero = refl
length-tally (suc n) = ap suc (length-tally n)

tally_injective : (a b : ℕ) → tally a ≡ tally b → a ≡ b
tally_injective a b e = sym (length-tally a) ∙ ap (λ s. length (codes s)) e ∙ length-tally b

-- The world is the number of streams that have been made.
abbrev sockets : Sockets ℕ
sockets = record {
  dial_vsock = λ p w. (ok p, w);
  dial_unix = λ p w. (ok 1, w);
  socket_type = vsock_port;
  console_reference = tally;
  io_reference = tally;
  new_console_path = λ w. (record { pointer = w; reference = none }, suc w);
  new_pipe_io = λ i o e w. (ok (record { pointer = w; reference = none }), suc w);
  is_bindable = λ s. true;
  bind_to_allocated_socket = λ s v w. (ok tt, w);
  new_allocated_socket_io = λ i o e w. (record { pointer = w; reference = none }, suc w);
  close_stream = λ s w. (ok tt, w);
  close_socket = λ v w. (ok tt, w);
  receive_master = λ s w. (ok 0, w);
  resize = λ m x y w. (ok tt, w);
}

sockets-IsNaming : IsNaming sockets
sockets-IsNaming = record { io = tally_injective; console = tally_injective }

abbrev requests : List Request
requests =
    allocate_io true true false
    ∷ dial_open_listener (vsock_port 9)
    ∷ bind_io_to_sockets (tally 1) (some (vsock_port 9)) none none
    ∷ close_io (tally 1)
    ∷ allocate_console
    ∷ []

references_fresh_example :
    let (s, w') = serve_all sockets requests (new_server, 0) in
    let i = tally (add_one s.io_reference_counter) in
    let j = tally (add_one s.console_reference_counter) in
    ((is_some (s.state.open_ios (tally 1)) && is_some (s.state.closed_ios (tally 1))) ≡ false)
    × ((is_some (s.state.open_consoles (tally 1)) && is_some (s.state.closed_consoles (tally 1)))
        ≡ false)
    × ((is_some (s.state.open_ios i) || is_some (s.state.closed_ios i)) ≡ false)
    × ((is_some (s.state.open_consoles j) || is_some (s.state.closed_consoles j)) ≡ false)
references_fresh_example =
    references_fresh sockets requests (tally 1) 0 sockets-IsNaming (omega arith)
