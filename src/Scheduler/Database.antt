-- ===== src/Scheduler/Database.antt =====
-- Scheduler_initializeStorage of der_scheduler.c: every schedule and every controller is given the
-- storage, and is then restored from it.
use der_scheduling.Prelude.{ℕ, Bool, Option, none, some, String, fold}
use der_scheduling.Platform.{Platform}
use der_scheduling.World.{World, set_schedule, set_controller}
use der_scheduling.Storage.Restore.{restore_schedule}
use der_scheduling.Storage.RestoreController.{restore_schedule_controller}

module _ ⦃lib : Platform⦄ where
  unfoldable pub store_schedule : Option String → ℕ → World → World
  store_schedule storage s w = set_schedule s (record (w.schedule s) { storage = storage }) w

  unfoldable pub store_controller : Option String → ℕ → World → World
  store_controller storage c w = set_controller c (record (w.controller c) { storage = storage }) w

  abbrev pub with_storage : Option String → (World → World) → World → World
  with_storage none f w = w
  with_storage (some uri) f w = f w

  -- `restoreSchedules`
  unfoldable pub restore_schedules : ℕ → World → World
  restore_schedules now w = with_storage w.storage (fold (restore_schedule now) w.schedules) w

  -- `restoreScheduleControllers`
  unfoldable pub restore_schedule_controllers : World → World
  restore_schedule_controllers w =
      with_storage w.storage (fold restore_schedule_controller w.schedule_controllers) w

  -- The storage is given to all, before anything is restored.
  unfoldable pub attach_storage : Option String → World → World
  unfolding store_schedule store_controller
  attach_storage storage w =
      fold (store_controller storage) w.schedule_controllers
        (fold (store_schedule storage) w.schedules (record w { storage = storage }))

  -- `Scheduler_initializeStorage`, with `SchedulerStorage_init`, which keeps the URI.
  unfoldable pub initialize_storage : ℕ → String → World → World
  unfolding attach_storage restore_schedules restore_schedule_controllers
  initialize_storage now uri w =
      restore_schedule_controllers (restore_schedules now (attach_storage (some uri) w))

  -- `Scheduler_setTargetValueHandler`, of a handler that is there or NULL.
  unfoldable pub set_target_value_handler : Bool → World → World
  set_target_value_handler handler w = record w { target_value_handler = handler }
