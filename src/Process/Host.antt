-- ===== src/Process/Host.antt =====
-- What the shim's processes call and do not implement: the OCI runtime (core/runc/runtime/runtime.go,
-- interface Runtime), the console platform, the operating system and the clock. `W` is the state of
-- all that. Sockets, pipes, consoles and files are handles, numbers that only the host reads.
use runm.Base.{ℕ, String, Bool, Option, List, ℤ}
use runm.Base.Errors.{Sentinel}
use runm.Base.Go.{Go, Done}

abbrev pub Handle : Type 0
Handle = ℕ

-- The two arguments of filepath.Join.
pub record FilePath : Type 0 where
  pub dir : String
  pub name : String

-- containerd's stdio.Stdio
pub record Stdio : Type 0 where
  pub stdin : String
  pub stdout : String
  pub stderr : String
  pub terminal : Bool

-- The options that go to the runtime, with the fields that the shim sets.
pub record CreateOpts : Type 0 where
  pub pid_file : FilePath
  pub no_pivot : Bool
  pub no_new_keyring : Bool
  pub io : Option Handle
  pub console_socket : Option Handle

pub record RestoreOpts : Type 0 where
  pub image_path : String
  pub work_dir : String
  pub parent_path : String
  pub pid_file : FilePath
  pub no_pivot : Bool
  pub detach : Bool
  pub no_subreaper : Bool
  pub io : Option Handle
  pub console_socket : Option Handle

pub record ExecOpts : Type 0 where
  pub pid_file : FilePath
  pub detach : Bool
  pub io : Option Handle
  pub console_socket : Option Handle

-- criu's working directory: the configured one, or `criu-work` below the process's.
pub data CriuDir : Type 0 where
  given : String → CriuDir
  below : FilePath → CriuDir

pub record CheckpointOpts : Type 0 where
  pub work_dir : CriuDir
  pub image_path : String
  pub allow_open_tcp : Bool
  pub allow_external_unix_sockets : Bool
  pub allow_terminal : Bool
  pub file_locks : Bool
  pub empty_namespaces : List String
  pub leave_running : Bool

-- specs.Process: the field that the shim writes, and the rest as one value.
pub record Spec : Type 0 where
  pub terminal : Bool
  pub body : String

-- url.Parse: the scheme and the path.
pub record Url : Type 0 where
  pub scheme : String
  pub path : String

pub record Host (W : Type 0) : Type 0 where
  pub sentinel_text : Sentinel → List ℕ
  -- runtime.Runtime
  pub runtime_create : String → String → CreateOpts → Go W Done
  pub runtime_start : String → Go W Done
  pub runtime_restore : String → String → RestoreOpts → Go W ℤ
  pub runtime_exec : String → Spec → ExecOpts → Go W Done
  pub runtime_delete : String → Go W Done
  pub runtime_close : Go W Done
  pub runtime_pause : String → Go W Done
  pub runtime_resume : String → Go W Done
  pub runtime_kill : String → ℕ → Bool → Go W Done
  pub runtime_update : String → String → Go W Done
  pub runtime_checkpoint : String → CheckpointOpts → Go W Done
  pub runtime_read_pid_file : FilePath → Go W ℤ
  pub new_null_io : Go W Handle
  pub new_pipe_io : ℤ → ℤ → Stdio → Go W Handle
  pub new_binary_io : String → Url → Go W Handle
  pub wrap_binary_io : Handle → ℤ → ℤ → Go W Handle
  pub new_temp_console_socket : Go W Handle
  pub receive_master : Handle → Go W Handle
  pub close : Handle → Go W Done
  pub copy_pipes : Handle → Stdio → Go W Done
  -- stdio.Stdio, stdio.Platform and console.Console
  pub stdio_is_null : Stdio → Bool
  pub copy_console : Handle → String → Stdio → Go W Handle
  pub shutdown_console : Option Handle → Go W Done
  pub resize_console : Handle → ℕ → ℕ → Go W Done
  -- gorunc, fifo, os, unix, time, encoding/json, net/url
  pub gorunc_read_pid_file : FilePath → Go W ℤ
  pub open_fifo : String → Go W Handle
  pub make_parent_dir : String → Go W Done
  pub touch_file : String → Go W Done
  pub remove : FilePath → Go W Done
  pub remove_all : FilePath → Go W Done
  pub copy_dump_log : FilePath → CriuDir → Go W Done
  pub unix_kill : ℤ → ℕ → Go W Done
  pub wait_timeout : Go W Done
  pub now : W → ℕ × W
  pub unmarshal_resources : String → Go W String
  pub parse_url : String → Go W Url
