-- ===== src/Container/Passes.antt =====
-- cmd/containerd-shim-runm-v2/runm/container.go: the methods that look a process up and hand on to
-- it, with the options that Checkpoint decodes.
use runm.Base.{ℕ, ◌%◌, ◌^◌, ◌≡◌, Bool, String, Option, none, some, List, [], false, arith}
use runm.Base.Errors.{wrap}
use runm.Base.Go.{Outcome, Go, Done, ok, panic, map_err, call, ◌>>=◌}
use runm.Process.Init.{CheckpointConfig}
use runm.Container.{Container, find_process}

-- options.CheckpointOptions of containerd
pub record CheckpointOptions : Type 0 where
  pub exit : Bool
  pub open_tcp : Bool
  pub external_unix_sockets : Bool
  pub terminal : Bool
  pub file_locks : Bool
  pub empty_namespaces : List String
  pub work_path : String

abbrev pub no_options : CheckpointOptions
no_options = record {
  exit = false;
  open_tcp = false;
  external_unix_sockets = false;
  terminal = false;
  file_locks = false;
  empty_namespaces = [];
  work_path = "";
}

-- What these methods call: of a process, and of the init process alone. `unmarshal` is typeurl's,
-- `stdin` what Stdin hands back, nil or something to close.
pub record Passes (S : Type 0) : Type 0 where
  pub pause : ℕ → Go S Done
  pub resume : ℕ → Go S Done
  pub resize : ℕ → ℕ → ℕ → Go S Done
  pub stdin : ℕ → S → Option ℕ
  pub close_stdin : ℕ → Go S Done
  pub unmarshal : String → Outcome CheckpointOptions
  pub checkpoint : ℕ → CheckpointConfig → Go S Done
  pub update : ℕ → String → Go S Done

module _ {S : Type 0} (ps : Passes S) where
  abbrev look_up : String → Go (Container × S) ℕ
  look_up id s = (find_process id s.0, s)

  -- A method of the init process, without a look at whether there is one: it panics on nil.
  abbrev of_init : (ℕ → Go S Done) → Go (Container × S) Done
  of_init m (c, t) = elim c.process [ none ↦ (panic, (c, t)) | some p ↦ call (m p) (c, t) ]

  -- Pause
  unfoldable pub container_pause : Go (Container × S) Done
  container_pause = of_init ps.pause

  -- Resume
  unfoldable pub container_resume : Go (Container × S) Done
  container_resume = of_init ps.resume

  -- ResizePty; the size is sent as a uint32.
  unfoldable pub container_resize_pty : String → ℕ → ℕ → Go (Container × S) Done
  container_resize_pty id width height = do
    p ← look_up id
    call (ps.resize p (width % 2 ^ 16) (height % 2 ^ 16))

  -- CloseIO
  unfoldable pub container_close_io : String → Go (Container × S) Done
  container_close_io id = do
    p ← look_up id
    (λ (c, t). elim (ps.stdin p t) [
      | none ↦ (ok tt, (c, t))
      | some f ↦ map_err (wrap "close stdin") (call (ps.close_stdin f)) (c, t)
    ])

  abbrev decode : Option String → Outcome CheckpointOptions
  decode none = ok no_options
  decode (some m) = ps.unmarshal m

  -- The configuration of a checkpoint at `path`
  abbrev pub to_config : String → CheckpointOptions → CheckpointConfig
  to_config path o = record {
    work_dir = o.work_path;
    path = path;
    exit = o.exit;
    allow_open_tcp = o.open_tcp;
    allow_external_unix_sockets = o.external_unix_sockets;
    allow_terminal = o.terminal;
    file_locks = o.file_locks;
    empty_namespaces = o.empty_namespaces;
  }

  -- Checkpoint
  unfoldable pub container_checkpoint : String → Option String → Go (Container × S) Done
  container_checkpoint path options = do
    p ← look_up ""
    o ← (λ s. (decode options, s))
    call (ps.checkpoint p (to_config path o))

  -- Update
  unfoldable pub container_update : String → Go (Container × S) Done
  container_update resources = do p ← look_up ""; call (ps.update p resources)

  -- These methods leave the maps of the container alone.
  passes_keep :
      (id path : String) (options : Option String) (width height : ℕ) (c : Container) (t : S)
      → ((container_pause (c, t)).1.0 ≡ c)
        × ((container_resume (c, t)).1.0 ≡ c)
        × ((container_resize_pty id width height (c, t)).1.0 ≡ c)
        × ((container_close_io id (c, t)).1.0 ≡ c)
        × ((container_checkpoint path options (c, t)).1.0 ≡ c)
        × ((container_update path (c, t)).1.0 ≡ c)
  unfolding container_pause container_resume container_resize_pty container_close_io
      container_checkpoint container_update
  passes_keep id path options width height c t = ground arith
