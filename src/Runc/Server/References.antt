-- ===== src/Runc/Server/References.antt =====
-- core/runc/server/socket.go: the references of consoles and streams.
use runm.Base.{
  ℕ, suc, ◌<◌, ◌^◌, ◌≡◌, ◌≢◌, Bool, false, ◌&&◌, ◌||◌, String, Option, is_some, List, [], ◌∷◌,
  arith, eq_iff,
}
use runm.Runc.Options.{Stream}
use runm.Runc.State.{
  store_open_io, store_open_console, store_open_vsock_connection, store_open_unix_connection,
  delete_open_io, delete_open_console, delete_open_vsock_connection, delete_open_unix_connection,
}
use runm.Runc.Server.{
  Server, SocketType, vsock_port, unix_socket_path, no_socket_type, Sockets, add_one, load_socket,
  delete_socket, dial_open_listener_handler, allocate_console_handler, allocate_io_handler,
  bind_console_to_socket_handler, bind_io_to_sockets_handler, close_console_handler,
  close_io_handler, close_socket_handler, close_sockets_handler, resize_console_handler,
}

-- No reference is both open and closed, and those after the first `n` are neither.
pub record IsTidy (ref : ℕ → String) (opened closed : String → Option Stream) (n : ℕ) : Type 0 where
  pub apart : (k : String) → (is_some (opened k) && is_some (closed k)) ≡ false
  pub unused : (i : ℕ) → n < i → (is_some (opened (ref i)) || is_some (closed (ref i))) ≡ false

pub add_one_lem : (n : ℕ) → suc n < 2 ^ 64 → add_one n ≡ suc n
add_one_lem n h = omega arith

later-ne : (n j : ℕ) → suc n < j → suc n ≢ j
later-ne n j l = omega arith

module _ {W : Type 0} (c : Sockets W) where
  pub record SameIos (s s' : Server) : Type 0 where
    pub opened : s'.state.open_ios ≡ s.state.open_ios
    pub closed : s'.state.closed_ios ≡ s.state.closed_ios
    pub counter : s'.io_reference_counter ≡ s.io_reference_counter

  pub record SameConsoles (s s' : Server) : Type 0 where
    pub opened : s'.state.open_consoles ≡ s.state.open_consoles
    pub closed : s'.state.closed_consoles ≡ s.state.closed_consoles
    pub counter : s'.console_reference_counter ≡ s.console_reference_counter

  pub record SameRefs (s s' : Server) : Type 0 where
    pub ios : SameIos s s'
    pub consoles : SameConsoles s s'

  abbrev pub TidyIos : Server → Type 0
  TidyIos s = IsTidy c.io_reference s.state.open_ios s.state.closed_ios s.io_reference_counter

  abbrev pub TidyConsoles : Server → Type 0
  TidyConsoles s =
      IsTidy c.console_reference s.state.open_consoles s.state.closed_consoles
        s.console_reference_counter

  pub record Tidy (s : Server) : Type 0 where
    pub ios : TidyIos s
    pub consoles : TidyConsoles s

  pub SameIos-Tidy : (s s' : Server) → SameIos s s' → TidyIos s → TidyIos s'
  SameIos-Tidy s s' e t = record {
    apart = λ k. ground (arith, e.opened, e.closed, t.apart k);
    unused = λ j l. ground (arith, e.opened, e.closed, t.unused j (omega (arith, e.counter, l)));
  }

  pub SameConsoles-Tidy : (s s' : Server) → SameConsoles s s' → TidyConsoles s → TidyConsoles s'
  SameConsoles-Tidy s s' e t = record {
    apart = λ k. ground (arith, e.opened, e.closed, t.apart k);
    unused = λ j l. ground (arith, e.opened, e.closed, t.unused j (omega (arith, e.counter, l)));
  }

  pub SameRefs-Tidy : (s s' : Server) → SameRefs s s' → Tidy s → Tidy s'
  SameRefs-Tidy s s' e t = record {
    ios = SameIos-Tidy s s' e.ios t.ios;
    consoles = SameConsoles-Tidy s s' e.consoles t.consoles;
  }

  pub dial-SameRefs :
      (t : SocketType) (s : Server) (w : W) → SameRefs s (dial_open_listener_handler c t (s, w)).1.0
  unfolding dial_open_listener_handler store_open_vsock_connection store_open_unix_connection
  dial-SameRefs (vsock_port p) s w = ground arith
  dial-SameRefs (unix_socket_path p) s w = ground arith
  dial-SameRefs no_socket_type s w = ground arith

  pub close_socket-SameRefs :
      (t : SocketType) (s : Server) (w : W) → SameRefs s (close_socket_handler c t (s, w)).1.0
  unfolding close_socket_handler load_socket delete_socket delete_open_vsock_connection
      delete_open_unix_connection
  close_socket-SameRefs (vsock_port p) s w = ground arith
  close_socket-SameRefs (unix_socket_path p) s w = ground arith
  close_socket-SameRefs no_socket_type s w = ground arith

  pub resize-SameRefs :
      (r : String) (width height : ℕ) (s : Server) (w : W)
      → SameRefs s (resize_console_handler c r width height (s, w)).1.0
  unfolding resize_console_handler
  resize-SameRefs r width height s w = ground arith

  pub bind_console-SameRefs :
      (r : String) (t : SocketType) (s : Server) (w : W)
      → SameRefs s (bind_console_to_socket_handler c r t (s, w)).1.0
  unfolding bind_console_to_socket_handler load_socket
  bind_console-SameRefs r (vsock_port p) s w = ground arith
  bind_console-SameRefs r (unix_socket_path p) s w = ground arith
  bind_console-SameRefs r no_socket_type s w = ground arith

  pub allocate_io-counter :
      (i o e : Bool) (s : Server) (w : W)
      → (allocate_io_handler c i o e (s, w)).1.0.io_reference_counter
        ≡ add_one s.io_reference_counter
  unfolding allocate_io_handler
  allocate_io-counter i o e s w = ground arith

  pub allocate_io-ios :
      (i o e : Bool) (s : Server) (w : W)
      → ((a b : ℕ) → c.io_reference a ≡ c.io_reference b → a ≡ b)
      → suc s.io_reference_counter < 2 ^ 64
      → Tidy s
      → TidyIos (allocate_io_handler c i o e (s, w)).1.0
  unfolding allocate_io_handler store_open_io
  allocate_io-ios i o e s w inj b t =
      let n = s.io_reference_counter in
      record {
        apart = λ k. ground (
          arith,
          add_one_lem n b,
          t.ios.apart k,
          t.ios.unused (suc n) (omega arith),
          eq_iff (c.io_reference (suc n)) k,
        );
        unused = λ j l.
            let m = allocate_io-counter i o e s w in
            let k = add_one_lem n b in
            ground (
              arith,
              k,
              t.ios.unused j (grind (arith, m, k, l)),
              eq_iff (c.io_reference (suc n)) (c.io_reference j),
              inj (suc n) j,
              later-ne n j (grind (arith, m, k, l)),
            );
      }

  pub allocate_io-SameConsoles :
      (i o e : Bool) (s : Server) (w : W) → SameConsoles s (allocate_io_handler c i o e (s, w)).1.0
  unfolding allocate_io_handler store_open_io
  allocate_io-SameConsoles i o e s w = ground arith

  pub allocate_console-SameIos :
      (s : Server) (w : W) → SameIos s (allocate_console_handler c (s, w)).1.0
  unfolding allocate_console_handler store_open_console
  allocate_console-SameIos s w = ground arith

  pub allocate_console-counter :
      (s : Server) (w : W)
      → (allocate_console_handler c (s, w)).1.0.console_reference_counter
        ≡ add_one s.console_reference_counter
  unfolding allocate_console_handler
  allocate_console-counter s w = ground arith

  pub allocate_console-consoles :
      (s : Server) (w : W)
      → ((a b : ℕ) → c.console_reference a ≡ c.console_reference b → a ≡ b)
      → suc s.console_reference_counter < 2 ^ 64
      → Tidy s
      → TidyConsoles (allocate_console_handler c (s, w)).1.0
  unfolding allocate_console_handler store_open_console
  allocate_console-consoles s w inj b t =
      let n = s.console_reference_counter in
      let k = add_one_lem n b in
      record {
        apart = λ j. ground (
          arith,
          k,
          t.consoles.apart j,
          t.consoles.unused (suc n) (omega arith),
          eq_iff (c.console_reference (suc n)) j,
        );
        unused = λ j l. ground (
          arith,
          k,
          t.consoles.unused j (grind (arith, k, l)),
          eq_iff (c.console_reference (suc n)) (c.console_reference j),
          inj (suc n) j,
          later-ne n j (grind (arith, k, l)),
        );
      }

  pub bind_io-SameConsoles :
      (r : String) (i o e : Option SocketType) (s : Server) (w : W)
      → SameConsoles s (bind_io_to_sockets_handler c r i o e (s, w)).1.0
  unfolding bind_io_to_sockets_handler store_open_io
  bind_io-SameConsoles r i o e s w = ground arith

  pub bind_io-counter :
      (r : String) (i o e : Option SocketType) (s : Server) (w : W)
      → (bind_io_to_sockets_handler c r i o e (s, w)).1.0.io_reference_counter
        ≡ s.io_reference_counter
  unfolding bind_io_to_sockets_handler
  bind_io-counter r i o e s w = ground arith

  pub bind_io-ios :
      (r : String) (i o e : Option SocketType) (s : Server) (w : W)
      → Tidy s
      → TidyIos (bind_io_to_sockets_handler c r i o e (s, w)).1.0
  unfolding bind_io_to_sockets_handler store_open_io
  bind_io-ios r i o e s w t = record {
    apart = λ k. ground (arith, t.ios.apart k, eq_iff r k);
    unused = λ j l.
        let m = bind_io-counter r i o e s w in
        ground (arith, t.ios.unused j (omega (arith, m, l)), eq_iff r (c.io_reference j));
  }

  pub close_io-SameConsoles :
      (r : String) (s : Server) (w : W) → SameConsoles s (close_io_handler c r (s, w)).1.0
  unfolding close_io_handler delete_open_io
  close_io-SameConsoles r s w = ground arith

  pub close_io-counter :
      (r : String) (s : Server) (w : W)
      → (close_io_handler c r (s, w)).1.0.io_reference_counter ≡ s.io_reference_counter
  unfolding close_io_handler delete_open_io
  close_io-counter r s w = ground arith

  pub close_io-ios :
      (r : String) (s : Server) (w : W) → Tidy s → TidyIos (close_io_handler c r (s, w)).1.0
  unfolding close_io_handler delete_open_io
  close_io-ios r s w t = record {
    apart = λ k. ground (arith, t.ios.apart k, eq_iff r k);
    unused = λ j l.
        let m = close_io-counter r s w in
        ground (arith, t.ios.unused j (omega (arith, m, l)), eq_iff r (c.io_reference j));
  }

  pub close_console-SameIos :
      (r : String) (s : Server) (w : W) → SameIos s (close_console_handler c r (s, w)).1.0
  unfolding close_console_handler delete_open_console
  close_console-SameIos r s w = ground arith

  pub close_console-counter :
      (r : String) (s : Server) (w : W)
      → (close_console_handler c r (s, w)).1.0.console_reference_counter
        ≡ s.console_reference_counter
  unfolding close_console_handler delete_open_console
  close_console-counter r s w = ground arith

  pub close_console-consoles :
      (r : String) (s : Server) (w : W)
      → Tidy s
      → TidyConsoles (close_console_handler c r (s, w)).1.0
  unfolding close_console_handler delete_open_console
  close_console-consoles r s w t = record {
    apart = λ k. ground (arith, t.consoles.apart k, eq_iff r k);
    unused = λ j l.
        let m = close_console-counter r s w in
        ground (arith, t.consoles.unused j (omega (arith, m, l)), eq_iff r (c.console_reference j));
  }

  pub close_sockets-SameRefs :
      (ts : List SocketType) (s : Server) (w : W)
      → SameRefs s (close_sockets_handler c ts (s, w)).1.0
  unfolding close_sockets_handler
  close_sockets-SameRefs [] s w = ground arith
  close_sockets-SameRefs (t ∷ ts) s w =
      let (r, (s', w')) = close_socket_handler c t (s, w) in
      ground (arith, close_socket-SameRefs t s w, close_sockets-SameRefs ts s' w')
