-- ===== src/Shim.antt =====
-- cmd/containerd-shim-runm-v2/manager: how containerd starts and stops the shim.
pub mod Os
pub mod Manager
pub mod Descriptors
pub mod Binding
pub mod Leaks
pub mod Files
pub mod Pids
mod Tests
mod Bundles
