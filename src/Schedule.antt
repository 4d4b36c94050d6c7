-- ===== src/Schedule.antt =====
-- src/scheduler/schedule.c, a part of its functions to a module.
pub mod Getters
pub mod Values
pub mod Interval
pub mod StartTimes
pub mod Calendar
pub mod State
pub mod Validity
pub mod Enable
pub mod Access
pub mod Control
pub mod Thread
pub mod Create
pub mod Setters
