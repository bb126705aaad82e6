-- ===== src/Shim/Os.antt =====
-- What cmd/containerd-shim-runm-v2/manager calls and does not implement: the operating system, and
-- containerd's package shim. Listeners and files are descriptors; `W` is the state of all that.
use runm.Base.{ℕ, String, Bool, Option, List}
use runm.Base.Errors.{Error, Sentinel}
use runm.Base.Go.{Go, Done}

-- exec.Cmd
pub record Command : Type 0 where
  pub path : String
  pub args : List String
  pub dir : String
  pub env : List String
  pub setpgid : Bool
  pub extra_files : List ℕ

-- spec: the annotations
abbrev pub Spec : Type 0
Spec = String → Option String

pub record Os (W : Type 0) : Type 0 where
  pub sentinel_text : Sentinel → List ℕ
  pub namespace_required : Go W String
  pub executable : Go W String
  pub getwd : Go W String
  pub environ : W → List String × W
  pub append_text : String → String → String
  pub open_file : String → Go W ℕ
  pub decode_spec : ℕ → Go W Spec
  pub close_file : ℕ → Go W Done
  -- net.UnixListener
  pub listener_file : ℕ → Go W ℕ
  pub close_listener : ℕ → Go W Done
  -- shim
  pub socket_address : String → String → Bool → Go W String
  pub new_socket : String → Go W ℕ
  pub socket_eaddrinuse : Error → Bool
  pub can_connect : String → W → Bool × W
  pub remove_socket : String → Go W Done
  pub adjust_oom_score : ℕ → Go W Done
  -- exec.Cmd.Start and os.Process.Kill
  pub start_command : Command → Go W ℕ
  pub kill_command : ℕ → Go W Done
