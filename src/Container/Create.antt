-- ===== src/Container/Create.antt =====
-- cmd/containerd-shim-runm-v2/runm/container.go: NewContainer. The runtime that it creates is the
-- host of the init process; `create_runtime` says whether it is a cgroup adapter.
use runm.Base.{ℕ, String, Bool, false, Option, none, some, List, [], ◌∷◌, pos, if◌then◌else◌}
use runm.Base.Errors.{Error, wrap}
use runm.Base.Go.{Outcome, Go, Done, ok, err, panic, pure, fail, panics, skip, map_err, ◌>>=◌, ◌>>◌}
use runm.Process.Host.{Host, FilePath, Stdio}
use runm.Process.Init.{Init, new_init}
use runm.Process.Init.Create.{CreateConfig, create}
use runm.Shim.Files.{Files, Json, write_options, write_runtime, write_pid}
use runm.Container.{Container}

-- options.Options, the fields that are read here
pub record Options : Type 0 where
  pub binary_name : String
  pub io_uid : ℕ
  pub io_gid : ℕ
  pub no_pivot_root : Bool
  pub no_new_keyring : Bool
  pub criu_work_path : String

abbrev pub no_options : Options
no_options = record {
  binary_name = "";
  io_uid = 0;
  io_gid = 0;
  no_pivot_root = false;
  no_new_keyring = false;
  criu_work_path = "";
}

-- What typeurl.UnmarshalAny makes: nil, options, or a value of another type.
pub data Unmarshalled : Type 0 where
  is_nil other_type : Unmarshalled
  is_options : Options → Unmarshalled

pub record Mount : Type 0 where
  pub type_ : String
  pub source : String
  pub target : String
  pub options : List String

-- task.CreateTaskRequest; `options` is the value of r.Options, if there is one.
pub record CreateTaskRequest : Type 0 where
  pub id : String
  pub bundle : String
  pub options : Option String
  pub rootfs : List Mount
  pub stdio : Stdio
  pub checkpoint : String
  pub parent_checkpoint : String

pub record RuntimeOptions : Type 0 where
  pub namespace : String
  pub config : CreateConfig
  pub binary_name : String
  pub rootfs : Option FilePath
  pub mounts : List Mount
  pub bundle : String

-- What NewContainer calls: containerd, the creator of runtimes, and pkg/grpcerr.
pub record Maker (W : Type 0) : Type 0 where
  pub namespace_required : Go W String
  pub unmarshal_any : String → Outcome Unmarshalled
  pub mkdir : FilePath → Go W Done
  pub is_exist : Error → Bool
  pub create_runtime : RuntimeOptions → Go W Bool
  pub not_adapter : Error
  pub to_ttrpc : Error → Error
  pub join : String → String → String

-- What NewContainer returns, with the init process that `process` points to.
pub record Made : Type 0 where
  pub id : String
  pub bundle : String
  pub container : Container
  pub init : Init

abbrev pub config_of : CreateTaskRequest → CreateConfig
config_of r = record {
  id = r.id;
  bundle = r.bundle;
  stdio = r.stdio;
  checkpoint = r.checkpoint;
  parent_checkpoint = r.parent_checkpoint;
}

-- newInit
abbrev pub init_of : String → CreateTaskRequest → Options → Init
init_of work_dir r opts =
    new_init r.id r.stdio r.bundle work_dir (pos opts.io_uid) (pos opts.io_gid) opts.no_pivot_root
      opts.no_new_keyring opts.criu_work_path

abbrev pub rootfs_of : CreateTaskRequest → Option FilePath
rootfs_of r = elim r.rootfs [
  | [] ↦ none
  | m ∷ ms ↦ some (record { dir = r.bundle; name = "rootfs" })
]

module _ {W : Type 0} (h : Host W) (f : Files W) (j : Json Options) (k : Maker W) where
  -- The type assertion panics on a value of another type.
  unfoldable pub options_of : Option String → Go W Options
  options_of none = pure no_options
  options_of (some any) = do
    v ← (λ w. (k.unmarshal_any any, w))
    elim v [ is_nil ↦ pure no_options | is_options opts ↦ pure opts | other_type ↦ panics ]

  -- os.Mkdir of the root file system; that it exists is no error.
  unfoldable pub make_rootfs : Option FilePath → Go W Done
  make_rootfs none w = (ok tt, w)
  make_rootfs (some p) w =
      let (r, w') = k.mkdir p w in
      elim r [
        | ok _ ↦ (ok tt, w')
        | panic ↦ (panic, w')
        | err e ↦ (if k.is_exist e then (ok tt, w') else (err e, w'))
      ]

  -- Create of the init process
  unfoldable pub create_on : Init → CreateConfig → Go W Init
  create_on p config w =
      let (r, (q, w')) = create h config (p, w) in
      elim r [ ok _ ↦ (ok q, w') | err e ↦ (err (k.to_ttrpc e), w') | panic ↦ (panic, w') ]

  -- NewContainer behind the runtime: the init process is created, and put into a container. `at` is
  -- its address.
  unfoldable pub finish_container : ℕ → CreateTaskRequest → Options → Bool → Go W Made
  finish_container at r opts adapter = do
    if adapter then skip else fail k.not_adapter
    p ← create_on (init_of (k.join r.bundle "work") r opts) (config_of r)
    pure (record {
      id = r.id;
      bundle = r.bundle;
      container = record { process = some at; processes = λ id. none; reserved = λ id. false };
      init = p;
    })

  -- The files of the bundle
  unfoldable pub write_bundle : String → Options → Go W Done
  write_bundle bundle opts = do
    write_options f j bundle opts
    write_runtime f bundle opts.binary_name
    write_pid f bundle

  unfoldable pub make_runtime : CreateTaskRequest → String → Options → Go W Bool
  make_runtime r ns opts = map_err (wrap "failed to create runtime") (
      k.create_runtime (record {
        namespace = ns;
        config = config_of r;
        binary_name = opts.binary_name;
        rootfs = rootfs_of r;
        mounts = r.rootfs;
        bundle = r.bundle;
      }))

  -- NewContainer
  unfoldable pub new_container : ℕ → CreateTaskRequest → Go W Made
  new_container at r = do
    ns ← map_err (wrap "create namespace") k.namespace_required
    opts ← options_of r.options
    make_rootfs (rootfs_of r)
    write_bundle r.bundle opts
    adapter ← make_runtime r ns opts
    finish_container at r opts adapter
