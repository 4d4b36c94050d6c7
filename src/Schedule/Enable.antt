-- ===== src/Schedule/Enable.antt =====
-- Enabling and disabling a schedule (schedule.c).
pub mod Structs
pub mod Result
use der_scheduling.Prelude.{ℕ, Bool, true, false, if◌then◌else◌}
use der_scheduling.Platform.{Platform}
use der_scheduling.World.{World, Schedule, ScheduleState, ScheduleEnablingError}
use der_scheduling.Schedule.Getters.{get_state}
use der_scheduling.Schedule.StartTimes.{check_for_valid_start_times}
use der_scheduling.Schedule.Calendar.{get_next_start_time}
use der_scheduling.Schedule.State.{
  same_state, update_state, update_schedule_enable_error, update_nxt_str_tm,
  update_current_value_quality, set_act_str_tm_quality,
}
use der_scheduling.Schedule.Validity.{
  perform_generic_validity_checks, is_event_driven, check_sync_input,
}

module _ ⦃lib : Platform⦄ where
  abbrev ready_if : Bool → ScheduleState
  ready_if true = ScheduleState.ready
  ready_if false = ScheduleState.not_ready

  -- The state to enter by the kind of schedule, and the error for missing start times.
  unfoldable pub enabling_state : ℕ → ℕ → World → World × ScheduleState
  enabling_state now s w =
      if is_event_driven w s
      then (w, ready_if (check_sync_input w s))
      else if (w.schedule s).is_periodic
      then (w, ScheduleState.ready)
      else if (w.schedule s).is_time_triggered
      then (if check_for_valid_start_times now w s then (w, ScheduleState.ready) else (
        update_schedule_enable_error now s ScheduleEnablingError.missing_valid_strtm w,
        ScheduleState.not_ready,
      ))
      else (w, ScheduleState.not_ready)

  abbrev pub after_checks : ℕ → ℕ → World × Bool → World × ScheduleState
  after_checks now s (w, true) = enabling_state now s w
  after_checks now s (w, false) = (w, ScheduleState.not_ready)

  -- `newState`, after the checks have been made and their error has been written.
  unfoldable pub enabling_result : ℕ → ℕ → World → World × ScheduleState
  enabling_result now s w = after_checks now s (perform_generic_validity_checks now s w)

  abbrev pub enter : ℕ → ℕ → World × ScheduleState → World × Bool
  enter now s (w, state) =
      let w' = update_state now s state w in
      if same_state state ScheduleState.ready
      then (
        update_schedule_enable_error now s ScheduleEnablingError.none
            (update_nxt_str_tm now s (get_next_start_time now w' s) w'),
        true,
      )
      else (w', false)

  -- `enabledSchedule`
  unfoldable pub enabled_schedule : ℕ → ℕ → World → World × Bool
  enabled_schedule now s w = enter now s (enabling_result now s w)

  -- `disableSchedule`
  unfoldable pub disable_schedule : ℕ → ℕ → World → World
  disable_schedule now s w = update_state now s ScheduleState.not_ready (
      update_nxt_str_tm now s 0
        (set_act_str_tm_quality now s true (update_current_value_quality now s true w)))

  -- `Schedule_enableSchedule`
  unfoldable pub enable_schedule : ℕ → ℕ → Bool → World → World × Bool
  enable_schedule now s true w = enabled_schedule now s w
  enable_schedule now s false w =
      if same_state (get_state w s) ScheduleState.not_ready
      then (w, true)
      else (disable_schedule now s w, true)
