-- ===== src/Runc/Host/Consoles.antt =====
-- core/runc/runtime/grpc/runtime.go: what the host and the guest have of a console that
-- NewTempConsoleSocket has made.
use runm.Base.{ℕ, ◌≡◌, sym, ◌∙◌, ap, subst, true, String, some, is_some, arith, eq_iff}
use runm.Base.Errors.{wrap}
use runm.Base.Go.{Go, Done, ok, pure, map_err, call, update, ◌>>=◌, ◌>>◌}
use runm.Base.Runs.{map_err-ok, bind-ok, call-ok}
use runm.Runc.State.{store_open_console, store_open_vsock_connection}
use runm.Runc.Server.{
  Server, Sockets, load_socket, allocate_console_handler, bind_console_to_socket_handler,
  vsock_port,
}
use runm.Runc.Host.{Link, send}
use runm.Runc.Host.Streams.{
  Host, Listener, port_of, next_counter, allocate_vsock_socket, new_temp_console_socket,
}

module _ {A W : Type 0} (l : Link A W) (ls : Listener W) (c : Sockets W) where
  allocate_console_lem :
      (r : String) (s s' : Server) (w w' : W)
      → send l (allocate_console_handler c) (s, w) ≡ (ok r, (s', w'))
      → is_some (s'.state.open_consoles r) ≡ true
  unfolding allocate_console_handler store_open_console
  allocate_console_lem r s s' w w' e = ground (arith, eq_iff r r, e)

  bind_console_lem :
      (r : String) (p : ℕ) (s s' : Server) (w w' : W)
      → send l (bind_console_to_socket_handler c r (vsock_port p)) (s, w) ≡ (ok tt, (s', w'))
      → (s' ≡ s)
        × (is_some (s.state.open_consoles r) ≡ true)
        × (is_some (s.state.open_vsocks p) ≡ true)
  unfolding bind_console_to_socket_handler load_socket
  bind_console_lem r p s s' w w' e = ground (arith, e)

  allocate_vsock_lem :
      (h h' : Host) (x x' : Server × W) (p k : ℕ)
      → allocate_vsock_socket l ls c (h, x) ≡ (ok (p, k), (h', x'))
      → p ≡ port_of (next_counter h.vsock_port_counter)
  unfolding allocate_vsock_socket
  allocate_vsock_lem h h' x x' p k e = ground (arith, e)

  -- NewTempConsoleSocket behind the host's socket, behind the binding, and behind the allocation of
  -- the console
  abbrev register : String → ℕ → ℕ → ℕ → Go (Host × (Server × W)) (String × ℕ)
  register ref p conn sock = do
    update (λ h. record h {
      state =
          store_open_vsock_connection p conn
            (store_open_console ref (record { pointer = sock; reference = some ref }) h.state);
    })
    pure (ref, conn)

  abbrev make_socket : String → ℕ → Go (Host × (Server × W)) ℕ
  make_socket ref conn =
      map_err (wrap "creating host console socket") (call (call (ls.new_host_console ref conn)))

  make_socket_lem :
      (ref : String) (conn k : ℕ) (x x' : Host × (Server × W))
      → make_socket ref conn x ≡ (ok k, x')
      → x'.1.0 ≡ x.1.0
  make_socket_lem ref conn k x x' e = ground (arith, e)

  abbrev with_socket : String → ℕ → ℕ → Done → Go (Host × (Server × W)) (String × ℕ)
  with_socket ref p conn d = make_socket ref conn >>= register ref p conn

  abbrev bind_console : String → ℕ → Go (Host × (Server × W)) Done
  bind_console ref p =
      map_err (wrap "binding console to socket")
        (call (send l (bind_console_to_socket_handler c ref (vsock_port p))))

  abbrev with_console : ℕ → ℕ → String → Go (Host × (Server × W)) (String × ℕ)
  with_console p conn ref = bind_console ref p >>= with_socket ref p conn

  abbrev make_console : Go (Host × (Server × W)) String
  make_console =
      map_err (wrap "creating temp console socket") (call (send l (allocate_console_handler c)))

  abbrev with_port : ℕ × ℕ → Go (Host × (Server × W)) (String × ℕ)
  with_port (p, conn) = make_console >>= with_console p conn

  abbrev count_port : Go (Host × (Server × W)) (ℕ × ℕ)
  count_port = map_err (wrap "allocating vsock socket") (allocate_vsock_socket l ls c)

  register_lem :
      (p conn sock k : ℕ) (ref r : String) (x x' : Host × (Server × W))
      → register ref p conn sock x ≡ (ok (r, k), x')
      → (r ≡ ref)
        × (k ≡ conn)
        × (x'.1 ≡ x.1)
        × (is_some (x'.0.state.open_consoles ref) ≡ true)
        × (x'.0.state.open_vsocks p ≡ some conn)
  unfolding store_open_console store_open_vsock_connection
  register_lem p conn sock k ref r x x' e = (
    ground (arith, e),
    ground (arith, e),
    ground (arith, e),
    ground (arith, e, eq_iff ref ref),
    ground (arith, e),
  )

  -- When NewTempConsoleSocket returns a console, the guest has its reference open, and so has the
  -- host; the host's connection is at the port that it counted up to, which is open in the guest.
  pub console_shared :
      (h h' : Host) (s s' : Server) (w w' : W) (r : String) (k : ℕ)
      → new_temp_console_socket l ls c (h, (s, w)) ≡ (ok (r, k), (h', (s', w')))
      → let p = port_of (next_counter h.vsock_port_counter) in
        (is_some (s'.state.open_consoles r) ≡ true)
        × (is_some (s'.state.open_vsocks p) ≡ true)
        × (is_some (h'.state.open_consoles r) ≡ true)
        × (h'.state.open_vsocks p ≡ some k)
  unfolding new_temp_console_socket
  console_shared h h' s s' w w' r k e =
      let x : Host × (Server × W) = (h, (s, w)) in
      let x' : Host × (Server × W) = (h', (s', w')) in
      let ((p, conn), t, m, f) = bind-ok count_port with_port x x' (r, k) e in
      let (ref, t2, m2, f2) = bind-ok make_console (with_console p conn) t x' (r, k) f in
      let (d, t3, m3, f3) = bind-ok (bind_console ref p) (with_socket ref p conn) t2 x' (r, k) f2 in
      let (sock, t4, m4, f4) =
        bind-ok (make_socket ref conn) (register ref p conn) t3 x' (r, k) f3 in
      let made = make_socket_lem ref conn sock t3 t4 m4 in
      let port =
        allocate_vsock_lem h t.0 (s, w) t.1 p conn
          (map_err-ok (wrap "allocating vsock socket") (allocate_vsock_socket l ls c) x t (p, conn)
            m) in
      let sent = send l (bind_console_to_socket_handler c ref (vsock_port p)) in
      let bound =
        bind_console_lem ref p t2.1.0 t3.1.0 t2.1.1 t3.1.1
          (call-ok sent t2 t3 d
            (map_err-ok (wrap "binding console to socket") (call sent) t2 t3 d m3)).0 in
      let (q, q1, q2, q3, q4) = register_lem p conn sock k ref r t4 x' f4 in
      let same = ap (λ y. y.0) q2 ∙ made ∙ bound.0 in
      (
        subst (λ z. is_some (z.state.open_consoles r) ≡ true) (sym same)
            (subst (λ z. is_some (t2.1.0.state.open_consoles z) ≡ true) (sym q) bound.1),
        subst
            (λ z.
              is_some (z.state.open_vsocks (port_of (next_counter h.vsock_port_counter))) ≡ true)
            (sym same) (subst (λ z. is_some (t2.1.0.state.open_vsocks z) ≡ true) port bound.2),
        subst (λ z. is_some (h'.state.open_consoles z) ≡ true) (sym q) q3,
        subst (λ z. h'.state.open_vsocks z ≡ some k) port (q4 ∙ ap some (sym q1)),
      )
