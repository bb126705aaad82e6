-- ===== src/Runc.antt =====
-- core/runc: what the host and the guest say to each other about the OCI runtime.
pub mod State
pub mod Options
pub mod Convert
pub mod RoundTrip
pub mod Server
pub mod Guest
pub mod Host
mod Tests
