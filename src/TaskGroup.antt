-- ===== src/TaskGroup.antt =====
-- pkg/taskgroup: groups of tasks.
pub mod Goroutines
pub mod Headers
pub mod Group
pub mod Failures
pub mod Ids
pub mod Cleanup
pub mod Run
pub mod Bounds
pub mod Wait
mod Tests
