-- ===== src/Runc/Server/Runs.antt =====
-- core/runc/server/socket.go: any sequence of calls, and the references that it leaves.
use runm.Base.{
  ℕ, suc, ◌+◌, ◌<◌, ◌≤◌, ◌^◌, ◌≡◌, refl, sym, subst, false, ◌&&◌, ◌||◌, String, is_some, List, [],
  ◌∷◌, length, arith,
}
use runm.Runc.State.{new_state}
use runm.Runc.Server.{
  Server, Request, dial_open_listener, allocate_console, allocate_io, bind_console_to_socket,
  bind_io_to_sockets, close_console, close_io, close_socket, close_sockets, resize_console, Sockets,
  add_one, serve, serve_all,
}
use runm.Runc.Server.References.{
  Tidy, SameRefs, SameIos-Tidy, SameConsoles-Tidy, SameRefs-Tidy, add_one_lem, dial-SameRefs,
  close_socket-SameRefs, close_sockets-SameRefs, resize-SameRefs, bind_console-SameRefs,
  allocate_io-counter, allocate_io-ios, allocate_io-SameConsoles, allocate_console-SameIos,
  allocate_console-counter, allocate_console-consoles, bind_io-counter, bind_io-ios,
  bind_io-SameConsoles, close_io-counter, close_io-ios, close_io-SameConsoles,
  close_console-counter, close_console-consoles, close_console-SameIos,
}

-- A server that has just started
abbrev pub new_server : Server
new_server = record { state = new_state; console_reference_counter = 0; io_reference_counter = 0 }

module _ {W : Type 0} (c : Sockets W) where
  -- Counters are printed apart.
  pub record IsNaming : Type 0 where
    pub io : (a b : ℕ) → c.io_reference a ≡ c.io_reference b → a ≡ b
    pub console : (a b : ℕ) → c.console_reference a ≡ c.console_reference b → a ≡ b

  -- A call takes one number at most.
  record Counts (n : ℕ) (s : Server) : Type 0 where
    ios : s.io_reference_counter ≤ n
    consoles : s.console_reference_counter ≤ n

  SameRefs-Counts : (n : ℕ) (s s' : Server) → SameRefs c s s' → Counts n s → Counts (suc n) s'
  SameRefs-Counts n s s' e k = record {
    ios = omega (arith, e.ios.counter, k.ios);
    consoles = omega (arith, e.consoles.counter, k.consoles);
  }

  record Good (n : ℕ) (s : Server) : Type 0 where
    tidy : Tidy c s
    counts : Counts n s

  SameRefs-Good : (n : ℕ) (s s' : Server) → SameRefs c s s' → Good n s → Good (suc n) s'
  SameRefs-Good n s s' e g = record {
    tidy = SameRefs-Tidy c s s' e g.tidy;
    counts = SameRefs-Counts n s s' e g.counts;
  }

  serve-Good :
      (r : Request) (n : ℕ) (s : Server) (w : W)
      → IsNaming
      → suc n < 2 ^ 64
      → Good n s
      → Good (suc n) (serve c r (s, w)).0
  unfolding serve
  serve-Good (dial_open_listener t) n s w i b g = SameRefs-Good n s _ (dial-SameRefs c t s w) g
  serve-Good (bind_console_to_socket r t) n s w i b g =
      SameRefs-Good n s _ (bind_console-SameRefs c r t s w) g
  serve-Good (close_socket t) n s w i b g = SameRefs-Good n s _ (close_socket-SameRefs c t s w) g
  serve-Good (close_sockets ts) n s w i b g =
      SameRefs-Good n s _ (close_sockets-SameRefs c ts s w) g
  serve-Good (resize_console r x y) n s w i b g =
      SameRefs-Good n s _ (resize-SameRefs c r x y s w) g
  serve-Good allocate_console n s w i b g =
      let e = allocate_console-SameIos c s w in
      let k : suc s.console_reference_counter < 2 ^ 64 = omega (arith, b, g.counts.consoles) in
      record {
        tidy = record {
          ios = SameIos-Tidy c s _ e g.tidy.ios;
          consoles = allocate_console-consoles c s w i.console k g.tidy;
        };
        counts = record {
          ios = omega (arith, e.counter, g.counts.ios);
          consoles = omega (
            arith,
            allocate_console-counter c s w,
            add_one_lem s.console_reference_counter k,
            g.counts.consoles,
          );
        };
      }
  serve-Good (allocate_io x y z) n s w i b g =
      let e = allocate_io-SameConsoles c x y z s w in
      let k : suc s.io_reference_counter < 2 ^ 64 = omega (arith, b, g.counts.ios) in
      record {
        tidy = record {
          ios = allocate_io-ios c x y z s w i.io k g.tidy;
          consoles = SameConsoles-Tidy c s _ e g.tidy.consoles;
        };
        counts = record {
          ios = omega (
            arith,
            allocate_io-counter c x y z s w,
            add_one_lem s.io_reference_counter k,
            g.counts.ios,
          );
          consoles = omega (arith, e.counter, g.counts.consoles);
        };
      }
  serve-Good (bind_io_to_sockets r x y z) n s w i b g =
      let e = bind_io-SameConsoles c r x y z s w in
      record {
        tidy = record {
          ios = bind_io-ios c r x y z s w g.tidy;
          consoles = SameConsoles-Tidy c s _ e g.tidy.consoles;
        };
        counts = record {
          ios = omega (arith, bind_io-counter c r x y z s w, g.counts.ios);
          consoles = omega (arith, e.counter, g.counts.consoles);
        };
      }
  serve-Good (close_io r) n s w i b g =
      let e = close_io-SameConsoles c r s w in
      record {
        tidy = record {
          ios = close_io-ios c r s w g.tidy;
          consoles = SameConsoles-Tidy c s _ e g.tidy.consoles;
        };
        counts = record {
          ios = omega (arith, close_io-counter c r s w, g.counts.ios);
          consoles = omega (arith, e.counter, g.counts.consoles);
        };
      }
  serve-Good (close_console r) n s w i b g =
      let e = close_console-SameIos c r s w in
      record {
        tidy = record {
          ios = SameIos-Tidy c s _ e g.tidy.ios;
          consoles = close_console-consoles c r s w g.tidy;
        };
        counts = record {
          ios = omega (arith, e.counter, g.counts.ios);
          consoles = omega (arith, close_console-counter c r s w, g.counts.consoles);
        };
      }

  serve_all-Good :
      (rs : List Request) (n : ℕ) (s : Server) (w : W)
      → IsNaming
      → n + length rs < 2 ^ 64
      → Good n s
      → Good (n + length rs) (serve_all c rs (s, w)).0
  unfolding serve_all
  serve_all-Good [] n s w i b g = record {
    tidy = g.tidy;
    counts = record {
      ios = omega (arith, g.counts.ios);
      consoles = omega (arith, g.counts.consoles);
    };
  }
  serve_all-Good (r ∷ rs) n s w i b g =
      let (s', w') = serve c r (s, w) in
      let l : n + suc (length rs) ≡ suc n + length rs = omega arith in
      subst (λ m. Good m (serve_all c rs (s', w')).0) (sym l)
        (serve_all-Good rs (suc n) s' w' i (omega (arith, b))
          (serve-Good r n s w i (omega (arith, b)) g))

  new_server-Good : Good 0 new_server
  new_server-Good = record {
    tidy = record {
      ios = record { apart = λ k. refl; unused = λ i l. refl };
      consoles = record { apart = λ k. refl; unused = λ i l. refl };
    };
    counts = record { ios = omega arith; consoles = omega arith };
  }

  -- After fewer than 2^64 - 1 calls on a new server, whatever they are: no reference of a stream or a
  -- console is both open and closed, and the references that come next are neither.
  pub references_fresh :
      (rs : List Request) (k : String) (w : W)
      → IsNaming
      → suc (length rs) < 2 ^ 64
      → let (s, w') = serve_all c rs (new_server, w) in
        let i = c.io_reference (add_one s.io_reference_counter) in
        let j = c.console_reference (add_one s.console_reference_counter) in
        ((is_some (s.state.open_ios k) && is_some (s.state.closed_ios k)) ≡ false)
        × ((is_some (s.state.open_consoles k) && is_some (s.state.closed_consoles k)) ≡ false)
        × ((is_some (s.state.open_ios i) || is_some (s.state.closed_ios i)) ≡ false)
        × ((is_some (s.state.open_consoles j) || is_some (s.state.closed_consoles j)) ≡ false)
  references_fresh rs k w i b =
      let s = (serve_all c rs (new_server, w)).0 in
      let g = serve_all-Good rs 0 new_server w i (omega (arith, b)) new_server-Good in
      let p : suc s.io_reference_counter < 2 ^ 64 = omega (arith, b, g.counts.ios) in
      let q : suc s.console_reference_counter < 2 ^ 64 = omega (arith, b, g.counts.consoles) in
      (
        g.tidy.ios.apart k,
        g.tidy.consoles.apart k,
        ground (
          arith,
          add_one_lem s.io_reference_counter p,
          g.tidy.ios.unused (suc s.io_reference_counter) (omega arith),
        ),
        ground (
          arith,
          add_one_lem s.console_reference_counter q,
          g.tidy.consoles.unused (suc s.console_reference_counter) (omega arith),
        ),
      )
