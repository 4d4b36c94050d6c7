-- ===== src/System.antt =====
-- The program as a whole: its threads and handlers as steps on one state, and how schedules and
-- schedule controllers know each other.
pub mod Keeps
pub mod Events
pub mod Status
pub mod Enabling
pub mod Rounds
pub mod Access
pub mod WellFormed
pub mod Reachable
pub mod Replaced
pub mod Initial
pub mod Created
pub mod Program
pub mod Restoring
pub mod Restored
pub mod Database
