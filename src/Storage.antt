-- ===== src/Storage.antt =====
-- src/scheduler/storage/storage_json.c, a part of its functions to a module.
pub mod Filenames
pub mod States
pub mod Save
pub mod SaveController
pub mod Reading
pub mod Entries
pub mod StartTimes
pub mod Restore
pub mod RestoreController
