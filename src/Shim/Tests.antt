-- ===== src/Shim/Tests.antt =====
-- A system whose world is the list of open descriptors, and the theorems at it.
use runm.Base.{
  ℕ, suc, ◌≡◌, ◌<◌, ◌+◌, refl, Bool, true, false, not, ◌&&◌, ◌||◌, none, List, [], ◌∷◌, arith,
  nat_eq, if◌then◌else◌,
}
use runm.Base.Errors.{new}
use runm.Base.Go.{Outcome, ok, err, is_err}
use runm.Base.After.{After}
use runm.Shim.Os.{Os}
use runm.Shim.Manager.{
  StartOpts, start_shim, new_command, read_spec, start_grouped, new_shim_socket, try_socket,
  after_socket, with_file, start_bound, open_debug, add_debug, launch_command, adjust_command,
  close_all, close_socket,
}
use runm.Shim.Descriptors.{IsTracked}
use runm.Shim.Leaks.{start_shim_failed}

abbrev mem : List ℕ → ℕ → Bool
mem [] x = false
mem (d ∷ ds) x = nat_eq d x || mem ds x

abbrev drop_fd : ℕ → List ℕ → List ℕ
drop_fd d [] = []
drop_fd d (c ∷ ds) = let rest = drop_fd d ds in if nat_eq d c then rest else c ∷ rest

mem-drop_fd : (d : ℕ) (ds : List ℕ) (x : ℕ) → mem (drop_fd d ds) x ≡ (not (nat_eq d x) && mem ds x)
mem-drop_fd d [] x = ground arith
mem-drop_fd d (c ∷ ds) x = ground (arith, mem-drop_fd d ds x)

abbrev next_fd : List ℕ → ℕ
next_fd [] = 3
next_fd (d ∷ ds) = suc d + next_fd ds

mem-above : (ds : List ℕ) (x : ℕ) → next_fd ds < suc x → mem ds x ≡ false
mem-above [] x h = refl
mem-above (d ∷ ds) x h = grind (arith, mem-above ds x)

abbrev opens : List ℕ → Outcome ℕ × List ℕ
opens w = (ok (next_fd w), next_fd w ∷ w)

-- The kernel refuses the score of the new process.
abbrev os : Os (List ℕ)
os = record {
  sentinel_text = λ s. [];
  namespace_required = λ w. (ok "k8s.io", w);
  executable = λ w. (ok "/shim", w);
  getwd = λ w. (ok "/run/b", w);
  environ = λ w. ([], w);
  append_text = λ a b. a;
  open_file = λ s. opens;
  decode_spec = λ d w. (ok (λ l. none), w);
  close_file = λ d w. (ok tt, drop_fd d w);
  listener_file = λ d. opens;
  close_listener = λ d w. (ok tt, drop_fd d w);
  socket_address = λ p i b w. (ok "unix:///a", w);
  new_socket = λ a. opens;
  socket_eaddrinuse = λ e. false;
  can_connect = λ a w. (false, w);
  remove_socket = λ a w. (ok tt, w);
  adjust_oom_score = λ p w. (err (new "denied"), w);
  start_command = λ c w. (ok 9, w);
  kill_command = λ p w. (ok tt, w);
}

opens-Opens :
    (w : List ℕ)
    → After
        (λ d v. (mem w d ≡ false) × ((x : ℕ) → mem v x ≡ (nat_eq d x || mem w x)))
        (λ v. (x : ℕ) → mem v x ≡ mem w x)
        (opens w)
opens-Opens w = record { holds = (mem-above w (next_fd w) (omega arith), λ x. refl) }

os-IsTracked : IsTracked os mem
os-IsTracked = record {
  namespace_required = λ w x. refl;
  executable = λ w x. refl;
  getwd = λ w x. refl;
  environ = λ w x. refl;
  open_file = λ s. opens-Opens;
  decode_spec = λ d w x. refl;
  close_file = λ d w x. mem-drop_fd d w x;
  listener_file = λ s. opens-Opens;
  close_listener = λ d w x. mem-drop_fd d w x;
  socket_address = λ p i b w x. refl;
  new_socket = λ s. opens-Opens;
  can_connect = λ a w x. refl;
  remove_socket = λ a w x. refl;
  adjust_oom_score = λ p w x. refl;
  start_command = λ c w x. refl;
  kill_command = λ p w x. refl;
}

abbrev options : StartOpts
options = record { address = "/c.sock"; ttrpc_address = "/c.sock.ttrpc"; debug = true }

denied : is_err (start_shim os "c" options (0 ∷ 1 ∷ [])).0 ≡ true
unfolding start_shim new_command read_spec start_grouped new_shim_socket try_socket after_socket
    with_file start_bound open_debug add_debug launch_command adjust_command close_all close_socket
denied = refl

start_shim_failed_example : mem (start_shim os "c" options (0 ∷ 1 ∷ [])).1 6 ≡ mem (0 ∷ 1 ∷ []) 6
start_shim_failed_example = start_shim_failed os mem os-IsTracked "c" options (0 ∷ 1 ∷ []) 6 denied
