-- ===== src/System.antt =====
-- The whole program as a system: its entry points as steps in any order, over one state.
pub mod Neutral
pub mod Worker
pub mod Managing
pub mod Invariants
pub mod Rows
pub mod Steps
pub mod Consistent
pub mod Distinct
pub mod Lifecycle
pub mod Downloads
pub mod Attempts
pub mod Delivered
pub mod Tests
