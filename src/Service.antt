-- ===== src/Service.antt =====
-- cmd/containerd-shim-runm-v2/task/service.go: the task service's record of containers, running
-- processes and exits. Containers and processes are pointers, numbers that are compared.
pub mod Maps
pub mod Lifecycle
pub mod Order
pub mod Restart
pub mod Counts
pub mod Early
pub mod Api
mod Tests
