-- ===== src/Schedule/Access.antt =====
-- What clients may write: the write handlers of schedule.c.
pub mod Outcome
use der_scheduling.Prelude.{ℕ, Bool, true, false, some, List, [], ◌∷◌, if◌then◌else◌, ltb}
use der_scheduling.Platform.{Platform, attribute_value}
use der_scheduling.World.{
  World, Schedule, DataAccessError, success_no_update, object_access_denied, object_value_invalid,
  update, set_schedule,
}
use der_scheduling.Storage.Save.{save_if_stored}
use der_scheduling.Controller.Notify.{schedule_prio_updated}

module _ ⦃lib : Platform⦄ where
  open lib use {Node, Value, utc_time_in_ms}

  -- The value is stored in the data model and the schedule is saved.
  abbrev pub accept : ℕ → Node → Value → World → World × DataAccessError
  accept s attr v w = (save_if_stored s (update (attribute_value v) attr w), success_no_update)

  -- `strTm_writeAccessHandler`
  unfoldable pub str_tm_write_access_handler :
      ℕ → ℕ → Node → Value → World → World × DataAccessError
  str_tm_write_access_handler now s attr v w =
      if (w.schedule s).allow_write_to_str_tm
      then (if ltb now (utc_time_in_ms (some v))
          then accept s attr v w
          else (w, object_value_invalid))
      else (w, object_access_denied)

  -- `strTm_setCal_writeAccessHandler`
  unfoldable pub str_tm_set_cal_write_access_handler :
      ℕ → Node → Value → World → World × DataAccessError
  str_tm_set_cal_write_access_handler s attr v w =
      if (w.schedule s).allow_write_to_str_tm then accept s attr v w else (w, object_access_denied)

  unfoldable pub notify_prio : ℕ → List ℕ → World → World
  notify_prio now [] w = w
  notify_prio now (c ∷ cs) w = notify_prio now cs (schedule_prio_updated now c w)

  -- `schdPrio_writeAccessHandler`
  unfoldable pub schd_prio_write_access_handler :
      ℕ → ℕ → Node → Value → World → World × DataAccessError
  unfolding notify_prio
  schd_prio_write_access_handler now s attr v w =
      if (w.schedule s).allow_write_to_schd_prio
      then (
        save_if_stored s (
            notify_prio now (w.schedule s).known_schedule_controllers
              (update (attribute_value v) attr w)),
        success_no_update,
      )
      else (w, object_access_denied)

  -- `schedule_genericWriteAccessHandler` and `schdValue_writeAccessHandler`
  unfoldable pub generic_write_access_handler : ℕ → Node → Value → World → World × DataAccessError
  generic_write_access_handler s attr v w = accept s attr v w

  unfoldable pub schd_value_write_access_handler :
      ℕ → Node → Value → World → World × DataAccessError
  schd_value_write_access_handler s attr v w = accept s attr v w

  -- `schdReuse_writeAccessHandler`
  unfoldable pub schd_reuse_write_access_handler :
      ℕ → Node → Value → World → World × DataAccessError
  schd_reuse_write_access_handler s attr v w =
      if (w.schedule s).allow_write_to_schd_reuse
      then accept s attr v w
      else (w, object_access_denied)

  -- `schdIntv_writeAccessHandler`
  unfoldable pub schd_intv_write_access_handler : ℕ → Node → Value → World → World × DataAccessError
  schd_intv_write_access_handler s attr v w =
      if (w.schedule s).allow_write_to_schd_intv
      then accept s attr v w
      else (w, object_access_denied)

  -- `Schedule_enableScheduleControl` and the functions that open parameters to clients.
  unfoldable pub enable_schedule_control : ℕ → Bool → World → World
  enable_schedule_control s enable w =
      set_schedule s (record (w.schedule s) { allow_remote_control = enable }) w

  unfoldable pub enable_write_access_to_schd_prio : ℕ → Bool → World → World
  enable_write_access_to_schd_prio s enable w =
      set_schedule s (record (w.schedule s) { allow_write_to_schd_prio = enable }) w

  unfoldable pub enable_write_access_to_str_tm : ℕ → Bool → World → World
  enable_write_access_to_str_tm s enable w =
      set_schedule s (record (w.schedule s) { allow_write_to_str_tm = enable }) w

  unfoldable pub enable_write_access_to_schd_reuse : ℕ → Bool → World → World
  enable_write_access_to_schd_reuse s enable w =
      set_schedule s (record (w.schedule s) { allow_write_to_schd_reuse = enable }) w
