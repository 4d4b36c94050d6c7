-- ===== src/Controller/Notify.antt =====
-- The functions that a schedule calls on its controllers (schedule_controller.c).
pub mod Targets
pub mod Priority
pub mod Active
use der_scheduling.Prelude.{ℕ, Bool, true, false, Option, none, some, ◌==◌, if◌then◌else◌}
use der_scheduling.Prelude.Int.{ℤ, pos, negsuc, ◌+ℤ◌}
use der_scheduling.Platform.{Platform}
use der_scheduling.World.{World, TargetType, set_controller}
use der_scheduling.Schedule.Interval.{get_current_idx}
use der_scheduling.Schedule.Values.{get_value_with_idx}
use der_scheduling.Controller.Select.{get_active_schedule}
use der_scheduling.Controller.Update.{
  update_act_schd_ref, update_current_value, update_target_value,
}

-- Two pointers to schedules are the same.
abbrev pub same_schedule : Option ℕ → Option ℕ → Bool
same_schedule none none = true
same_schedule (some s) (some t) = s == t
same_schedule none (some t) = false
same_schedule (some s) none = false

abbrev pub is_past_end : ℤ → Bool
is_past_end (negsuc n) = n == 0
is_past_end (pos n) = false

module _ ⦃lib : Platform⦄ where
  open lib use {Value}

  -- `Schedule_getCurrentValue`, of an index that is not -1.
  abbrev value_of_idx : World → ℕ → Option ℤ → Option Value
  value_of_idx w s none = none
  value_of_idx w s (some idx) = if is_past_end idx then none else get_value_with_idx w s idx

  abbrev pub index_faults : Option ℤ → Bool
  index_faults none = true
  index_faults (some idx) = false

  unfoldable pub get_current_value : ℕ → World → ℕ → Option Value
  get_current_value now w s = value_of_idx w s (get_current_idx (w.schedule s) now)

  unfoldable pub set_active_schedule : ℕ → Option ℕ → World → World
  set_active_schedule c s w = set_controller c (record (w.controller c) { active_schedule = s }) w

  -- The new active schedule's value goes to the controller's value and to the target.
  unfoldable pub activate : ℕ → ℕ → ℕ → World → World
  activate now c s w =
      let value = get_current_value now w s in
      let target = (w.schedule s).target_type in
      let w' =
        if index_faults (get_current_idx (w.schedule s) now)
        then record w { faulted = true }
        else w in
      update_target_value c target value now (
        update_current_value c target value now
          (update_act_schd_ref now c (some s) (set_active_schedule c (some s) w')))

  unfoldable pub deactivate : ℕ → ℕ → World → World
  deactivate now c w = set_active_schedule c none (
      update_target_value c TargetType.unknown none now
        (update_current_value c TargetType.unknown none now (update_act_schd_ref now c none w)))

  abbrev pub follow_state : ℕ → ℕ → Option ℕ → World → World
  follow_state now c none w = deactivate now c w
  follow_state now c (some s) w =
      if same_schedule (some s) (w.controller c).active_schedule then w else activate now c s w

  -- `scheduleController_scheduleStateUpdated`
  unfoldable pub schedule_state_updated : ℕ → ℕ → World → World
  unfolding activate deactivate set_active_schedule
  schedule_state_updated now c w = follow_state now c (get_active_schedule w c) w

  abbrev pub follow_prio : ℕ → ℕ → Option ℕ → World → World
  follow_prio now c none w = update_act_schd_ref now c none w
  follow_prio now c (some s) w =
      if same_schedule (some s) (w.controller c).active_schedule
      then w
      else update_act_schd_ref now c (some s) (set_active_schedule c (some s) w)

  -- `scheduleController_schedulePrioUpdated`
  unfoldable pub schedule_prio_updated : ℕ → ℕ → World → World
  unfolding set_active_schedule
  schedule_prio_updated now c w = follow_prio now c (get_active_schedule w c) w

  -- `scheduleController_scheduleValueUpdated`
  unfoldable pub schedule_value_updated : ℕ → ℕ → Option Value → ℕ → World → World
  schedule_value_updated c s val now w =
      if same_schedule (some s) (w.controller c).active_schedule
      then update_target_value c (w.schedule s).target_type val now
          (update_current_value c (w.schedule s).target_type val now w)
      else w
