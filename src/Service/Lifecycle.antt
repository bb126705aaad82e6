-- ===== src/Service/Lifecycle.antt =====
-- task/service.go: the life of processes, from Start to the exit.
mod Record
mod Exits
mod Starts
unfoldable pub use Record.*
unfoldable pub use Exits.*
unfoldable pub use Starts.*
