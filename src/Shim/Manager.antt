-- ===== src/Shim/Manager.antt =====
-- cmd/containerd-shim-runm-v2/manager/manager.go: Start, with the sockets of the shim that it starts.
-- The lock on the thread and the goroutine that waits for the command are left out.
use runm.Base.{
  ℕ, String, Bool, true, false, Option, none, some, List, [], ◌∷◌, ◌++◌, if◌then◌else◌, ◌⊎◌, inl,
  inr,
}
use runm.Base.Errors.{Error, wrap, sentinel, is_error, err_already_exists}
use runm.Base.Go.{
  Go, Done, pure, fail, panics, skip, ignore, map_err, defer_call, ◌>>=◌, ◌>>◌, attempt, on_err,
  asks,
}
use runm.Shim.Os.{Os, Command, Spec}

-- shimSocket
pub record ShimSocket : Type 0 where
  pub addr : String
  pub s : Option ℕ
  pub f : Option ℕ

-- What newShimSocket returns without an error, or with ErrAlreadyExists: then the address only.
pub data Bound : Type 0 where
  bound : ShimSocket → Bound
  exists_at : String → Bound

-- shim.BootstrapParams
pub record BootstrapParams : Type 0 where
  pub version : ℕ
  pub address : String
  pub protocol : String

-- shim.StartOpts
pub record StartOpts : Type 0 where
  pub address : String
  pub ttrpc_address : String
  pub debug : Bool

abbrev pub group_labels : List String
group_labels = "io.containerd.runc.v2.group" ∷ "io.kubernetes.cri.sandbox-id" ∷ []

-- The loop over groupLabels: the first label that the specification has, or the id.
abbrev pub grouping_of : List String → Spec → String → String
grouping_of [] spec id = id
grouping_of (l ∷ ls) spec id = elim (spec l) [ some g ↦ g | none ↦ grouping_of ls spec id ]

abbrev pub params_at : String → BootstrapParams
params_at a = record { version = 3; address = a; protocol = "ttrpc" }

abbrev pub first_addr : List ShimSocket → String
first_addr [] = ""
first_addr (t ∷ ts) = t.addr

abbrev pub files_of : List ShimSocket → List ℕ
files_of [] = []
files_of (t ∷ ts) = elim t.f [ none ↦ files_of ts | some f ↦ f ∷ files_of ts ]

abbrev pub command_of :
    (String → String → String)
    → String
    → StartOpts
    → String
    → String
    → String
    → List String
    → Command
command_of add id opts ns self cwd env = record {
  path = self;
  args =
      ("-namespace" ∷ ns ∷ "-id" ∷ id ∷ "-address" ∷ opts.address ∷ [])
      ++ (if opts.debug then "-debug" ∷ [] else []);
  dir = cwd;
  env = env ++ ("GOMAXPROCS=4" ∷ add "OTEL_SERVICE_NAME=containerd-shim-" id ∷ []);
  setpgid = true;
  extra_files = [];
}

module _ {W : Type 0} (o : Os W) where
  -- newCommand
  unfoldable pub new_command : String → StartOpts → Go W Command
  new_command id opts = do
    ns ← o.namespace_required
    self ← o.executable
    cwd ← o.getwd
    env ← asks o.environ
    pure (command_of o.append_text id opts ns self cwd env)

  -- readSpec
  unfoldable pub read_spec : Go W Spec
  read_spec = do
    f ← o.open_file "config.json"
    defer_call (o.decode_spec f) (ignore (o.close_file f))

  -- Close
  unfoldable pub close_socket : ShimSocket → Go W Done
  close_socket t = do
    elim t.s [ none ↦ skip | some s ↦ ignore (o.close_listener s) ]
    elim t.f [ none ↦ skip | some f ↦ ignore (o.close_file f) ]
    ignore (o.remove_socket t.addr)

  -- The end of newShimSocket
  unfoldable pub with_file : String → ℕ → Go W Bound
  with_file address s = do
    f ← on_err (o.listener_file s) (close_socket (record { addr = address; s = some s; f = none }))
    pure (bound (record { addr = address; s = some s; f = some f }))

  -- The address is in use: a shim that answers is used, a socket that is left over is removed.
  unfoldable pub take_over : String → Bool → Go W Bound
  take_over address true = pure (exists_at address)
  take_over address false = do
    map_err (wrap "removing pre-existing socket") (o.remove_socket address)
    s ← map_err (wrap "creating new shim socket on retry") (o.new_socket address)
    with_file address s

  -- `!debug && shim.CanConnect(address)`
  unfoldable pub connects : String → Bool → Go W Bool
  connects address debug = if debug then pure false else asks (o.can_connect address)

  -- newShimSocket behind its first NewSocket
  unfoldable pub after_socket : String → Bool → Error ⊎ ℕ → Go W Bound
  after_socket address debug (inr s) = with_file address s
  after_socket address debug (inl e) =
      if o.socket_eaddrinuse e
      then connects address debug >>= take_over address
      else fail (wrap "creating new shim socket" e)

  unfoldable pub try_socket : String → Bool → Go W Bound
  try_socket address debug = attempt (o.new_socket address) >>= after_socket address debug

  -- newShimSocket
  unfoldable pub new_shim_socket : String → String → Bool → Go W Bound
  new_shim_socket path id debug = o.socket_address path id debug >>= λ a. try_socket a debug

  -- The deferred loop of Start
  unfoldable pub close_all : List ShimSocket → Go W Done
  close_all [] = skip
  close_all (t ∷ ts) = close_socket t >> close_all ts

  -- The socket for debugging joins the first; that it exists already is an error here.
  unfoldable pub add_debug : ShimSocket → Bound → Go W (List ShimSocket)
  add_debug s (exists_at a) = fail (sentinel err_already_exists)
  add_debug s (bound t) = pure (s ∷ t ∷ [])

  -- `if opts.Debug`
  unfoldable pub open_debug : Bool → String → String → ShimSocket → Go W (List ShimSocket)
  open_debug false path grouping s = pure (s ∷ [])
  open_debug true path grouping s =
      on_err (new_shim_socket path grouping true >>= add_debug s) (close_all (s ∷ []))

  -- The command is started with the sockets' files, and killed if what follows fails.
  unfoldable pub adjust_command : List ShimSocket → ℕ → Go W BootstrapParams
  adjust_command ts pid =
      on_err
        (map_err (wrap "adjusting OOM score for shim") (o.adjust_oom_score pid)
          >> pure (params_at (first_addr ts)))
        (ignore (o.kill_command pid))

  unfoldable pub launch_command : Command → List ShimSocket → Go W BootstrapParams
  launch_command cmd ts =
      on_err (o.start_command (record cmd { extra_files = files_of ts }) >>= adjust_command ts)
        (close_all ts)

  -- Start behind the first newShimSocket. An error that says that the shim exists, and comes without
  -- a socket, makes `s.addr` panic.
  unfoldable pub start_bound : Command → StartOpts → String → Error ⊎ Bound → Go W BootstrapParams
  start_bound cmd opts grouping (inl e) = if is_error err_already_exists e then panics else fail e
  start_bound cmd opts grouping (inr (exists_at a)) = pure (params_at a)
  start_bound cmd opts grouping (inr (bound s)) =
      open_debug opts.debug opts.address grouping s >>= launch_command cmd

  unfoldable pub start_grouped : Command → StartOpts → String → Go W BootstrapParams
  start_grouped cmd opts grouping =
      attempt (new_shim_socket opts.address grouping false) >>= start_bound cmd opts grouping

  -- Start
  unfoldable pub start_shim : String → StartOpts → Go W BootstrapParams
  start_shim id opts = do
    cmd ← new_command id opts
    spec ← read_spec
    start_grouped cmd opts (grouping_of group_labels spec id)
