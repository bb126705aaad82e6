-- ===== src/Process.antt =====
-- cmd/containerd-shim-runm-v2/process: the container's init process and its exec processes.
pub mod Host
pub mod Io
pub mod Kill
pub mod Init
pub mod Exec
pub mod Tests
