-- ===== src/Controller.antt =====
-- src/scheduler/schedule_controller.c, a part of its functions to a module.
pub mod Select
pub mod Update
pub mod Notify
pub mod References
pub mod Initialize
