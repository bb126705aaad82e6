-- ===== src/Runc/Options.antt =====
-- The options of go-runc that the runtime takes, and the messages of proto/v1 that carry them. A
-- message is what its setters have stored, with the zero values of a getter elsewhere.
use runm.Base.{ℕ, String, Bool, Option, List, ℤ}

-- A runtime.IO or a console socket: a pointer, with its reference id if it has the method.
pub record Stream : Type 0 where
  pub pointer : ℕ
  pub reference : Option String

pub record CreateOpts : Type 0 where
  pub pid_file : String
  pub io : Option Stream
  pub no_pivot : Bool
  pub no_new_keyring : Bool
  pub console_socket : Option Stream
  pub detach : Bool
  -- open files
  pub extra_files : List ℕ

pub record RuncCreateOptions : Type 0 where
  pub pid_file : String
  pub io_reference_id : String
  pub no_pivot : Bool
  pub no_new_keyring : Bool
  pub console_reference_id : String
  pub detach : Bool
  pub extra_files : List String

pub record ExecOpts : Type 0 where
  pub pid_file : String
  pub io : Option Stream
  pub detach : Bool
  pub console_socket : Option Stream
  pub extra_args : List String

pub record RuncExecOptions : Type 0 where
  pub pid_file : String
  pub io_reference_id : String
  pub detach : Bool
  pub console_reference_id : String
  pub extra_args : List String

pub record KillOpts : Type 0 where
  pub all : Bool
  pub extra_args : List String

pub record RuncKillOptions : Type 0 where
  pub all : Bool
  pub extra_args : List String

pub record DeleteOpts : Type 0 where
  pub force : Bool
  pub extra_args : List String

pub record RuncDeleteOptions : Type 0 where
  pub force : Bool
  pub extra_args : List String

-- A time is its nanoseconds; the annotations are listed.
pub record RuntimeContainer : Type 0 where
  pub id : String
  pub pid : ℤ
  pub status : String
  pub bundle : String
  pub rootfs : String
  pub created : ℤ
  pub annotations : List (String × String)

pub record RuncContainer : Type 0 where
  pub id : String
  pub pid : ℤ
  pub status : String
  pub bundle : String
  pub rootfs : String
  pub created_timestamp : ℤ
  pub annotations : List (String × String)

pub record CheckpointOptions : Type 0 where
  pub image_path : String
  pub work_dir : String
  pub parent_path : String
  pub allow_open_tcp : Bool
  pub allow_external_unix_sockets : Bool
  pub allow_terminal : Bool
  pub criu_page_server : String
  pub file_locks : Bool
  pub cgroups : String
  pub empty_namespaces : List String
  pub lazy_pages : Bool
  -- an open file
  pub status_file : Option ℕ
  pub extra_args : List String

pub record RuncCheckpointOptions : Type 0 where
  pub image_path : String
  pub work_dir : String
  pub parent_path : String
  pub allow_open_tcp : Bool
  pub allow_external_unix_sockets : Bool
  pub allow_terminal : Bool
  pub criu_page_server : String
  pub file_locks : Bool
  pub cgroups : String
  pub empty_namespaces : List String
  pub lazy_pages : Bool
  pub status_file : String
  pub extra_args : List String

pub record TopResults : Type 0 where
  pub headers : List String
  pub processes : List (List String)

pub record RuncTopProcesses : Type 0 where
  pub process : List String

pub record RuncTopResults : Type 0 where
  pub headers : List String
  pub processes : List RuncTopProcesses

pub record CgroupEvent : Type 0 where
  pub high : ℕ
  pub max : ℕ
  pub oom : ℕ
  pub oom_kill : ℕ
  pub low : ℕ
