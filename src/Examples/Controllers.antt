-- ===== src/Examples/Controllers.antt =====
-- The theorems on schedule controllers at the plant.
use der_scheduling.Prelude.{◌≡◌, true, some, [], ◌∷◌}
use der_scheduling.World.{TargetType}
use der_scheduling.Examples.Toy.{toy, number}
use der_scheduling.Examples.Plant.{plant}
use der_scheduling.Schedule.Getters.{get_state, get_prio, is_running, int_setting}
use der_scheduling.Controller.Select.{get_active_schedule, select_active, replaces}
use der_scheduling.Controller.Select.Arbitration.{IsFirstBest, get_active_schedule-IsFirstBest}
use der_scheduling.Controller.Notify.{
  schedule_state_updated, schedule_value_updated, schedule_prio_updated,
}
use der_scheduling.Controller.Notify.Active.{active, schedule_state_updated-active}
use der_scheduling.Controller.Notify.Targets.{
  calls_on_state, schedule_state_updated-target_values, schedule_value_updated-target_values,
}
use der_scheduling.Controller.Notify.Priority.{schedule_prio_updated-silent}
use der_scheduling.Controller.Update.Frame.{target_calls}

-- Both schedules are running, and the second has the higher priority.
get_active_schedule-IsFirstBest_example : IsFirstBest (plant 4 4 0) (0 ∷ 1 ∷ []) (some 1)
unfolding get_active_schedule select_active replaces get_prio is_running get_state int_setting
get_active_schedule-IsFirstBest_example = get_active_schedule-IsFirstBest (plant 4 4 0) 0

-- The second schedule becomes the active one.
schedule_state_updated-active_example :
    active (schedule_state_updated 6500 0 (plant 4 4 0)) 0 ≡ some 1
unfolding get_active_schedule select_active replaces get_prio is_running get_state int_setting
schedule_state_updated-active_example = schedule_state_updated-active 6500 0 (plant 4 4 0)

-- The user is told of the second schedule's second entry.
schedule_state_updated-target_values_example :
    (schedule_state_updated 6500 0 (plant 4 4 0)).target_values
    ≡ calls_on_state 6500 0 (plant 4 4 0) (some 1)
unfolding get_active_schedule select_active replaces get_prio is_running get_state int_setting
schedule_state_updated-target_values_example =
    schedule_state_updated-target_values 6500 0 (plant 4 4 0)

schedule_value_updated-target_values_example :
    (schedule_value_updated 0 0 (some (number 22)) 6500 (plant 4 4 0)).target_values
    ≡ target_calls true (some 14) TargetType.mv (some (number 22)) 6500
schedule_value_updated-target_values_example =
    schedule_value_updated-target_values 0 0 (some (number 22)) 6500 (plant 4 4 0)

-- The second schedule becomes the active one, and the user is not told of its value.
schedule_prio_updated-silent_example :
    (active (schedule_prio_updated 6500 0 (plant 4 4 0)) 0 ≡ some 1)
    × ((schedule_prio_updated 6500 0 (plant 4 4 0)).target_values ≡ [])
unfolding get_active_schedule select_active replaces get_prio is_running get_state int_setting
schedule_prio_updated-silent_example = schedule_prio_updated-silent 6500 0 (plant 4 4 0)
