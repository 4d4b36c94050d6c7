-- ===== src/Examples/Starts.antt =====
-- The theorems on the start of a schedule at the plant.
use der_scheduling.Prelude.{[], ◌∷◌, ◌≡◌, refl, true, arith}
use der_scheduling.Prelude.Int.{int_of_uint64, uint64_of_int, wrap_int, ◌*ℤ◌}
use der_scheduling.World.{World, ScheduleState}
use der_scheduling.Names.{check_if_multi_obj_inst, memcmp_eq, digits_from, is_digit}
use der_scheduling.Schedule.Getters.{get_num_entr_value, int_setting}
use der_scheduling.Schedule.Interval.{get_schd_intv_value_in_ms}
use der_scheduling.Schedule.StartTimes.{
  check_if_str_tm, get_start_time, check_for_valid_start_times, any_valid_start_time,
}
use der_scheduling.Schedule.Calendar.Earliest.{start_times}
use der_scheduling.Schedule.Thread.{ready_round}
use der_scheduling.Schedule.Enable.{enabled_schedule}
use der_scheduling.Schedule.Thread.Starting.{StartOutcome, ready_round-StartOutcome}
use der_scheduling.Schedule.Thread.Missed.{missed_start}
use der_scheduling.Schedule.Enable.{enabling_result, enabling_state}
use der_scheduling.Schedule.Validity.{
  perform_generic_validity_checks, set_number_of_schedule_entries, num_entr_valid, values_valid,
  schd_intv_valid, entries_present, entries_are_numbers, is_event_driven,
}
use der_scheduling.Schedule.Values.{
  get_number_of_schedule_entries, get_schedule_value_attribute, count_instances,
}
use der_scheduling.Names.{numbered_name, format_int, decimal_loop, zeros, pad}
use der_scheduling.Schedule.State.{
  update_state, set_state, write_state, notify_state, update_schedule_enable_error,
  update_int_status_value, update_time_status,
}
use der_scheduling.World.{update, update_at, set_schedule}
use der_scheduling.Storage.Save.{save_if_stored}
use der_scheduling.Schedule.Getters.{get_state}
use der_scheduling.Schedule.StartTimes.{update_next_start_time}
use der_scheduling.Schedule.Calendar.{get_next_start_time, next_of_objects}
use der_scheduling.Examples.Toy.{toy}
use der_scheduling.Examples.Plant.{plant}

ready_round-StartOutcome_example :
    StartOutcome 9500 9000
      (start_times (plant 3 3 9000) (toy.get_children 0))
      (ready_round 9500 0 (plant 3 3 9000)).1
      ((ready_round 9500 0 (plant 3 3 9000)).0.schedule 0)
ready_round-StartOutcome_example = ready_round-StartOutcome 9500 0 (plant 3 3 9000) refl

-- The start at 9000 has come, and its execution would go on until 11000: the check of the start
-- times accepts it.
still_valid : check_for_valid_start_times 9500 (plant 3 3 0) 0 ≡ true
unfolding check_for_valid_start_times any_valid_start_time check_if_str_tm get_start_time
    check_if_multi_obj_inst memcmp_eq digits_from is_digit get_num_entr_value int_setting
    get_schd_intv_value_in_ms wrap_int ◌*ℤ◌ int_of_uint64 uint64_of_int
still_valid = refl

-- The same plant, with no schedule controller.
abbrev alone : World
alone = record (plant 1 1 0) {
  schedule = λ s. record ((plant 1 1 0).schedule s) { known_schedule_controllers = [] };
}

-- The schedule is enabled, in the middle of the execution that has begun at 9000.
enabled : (enabled_schedule 9400 0 alone).1 ≡ true
unfolding enabled_schedule enabling_result enabling_state perform_generic_validity_checks
    set_number_of_schedule_entries num_entr_valid values_valid schd_intv_valid entries_present
    entries_are_numbers is_event_driven check_for_valid_start_times any_valid_start_time
    get_number_of_schedule_entries get_schedule_value_attribute count_instances numbered_name
    format_int decimal_loop zeros pad update_state set_state write_state notify_state
    update_schedule_enable_error update_int_status_value update_time_status update update_at
    save_if_stored set_schedule get_state get_next_start_time next_of_objects update_next_start_time
    start_times check_if_str_tm get_start_time check_if_multi_obj_inst memcmp_eq digits_from
    is_digit get_num_entr_value int_setting get_schd_intv_value_in_ms wrap_int ◌*ℤ◌ int_of_uint64
    uint64_of_int
enabled = refl

enabled_times :
    let u = (enabled_schedule 9400 0 alone).0 in
    start_times u (toy.get_children (u.schedule 0).schedule_ln) ≡ (9000 ∷ [])
unfolding enabled_schedule enabling_result enabling_state perform_generic_validity_checks
    set_number_of_schedule_entries num_entr_valid values_valid schd_intv_valid entries_present
    entries_are_numbers is_event_driven check_for_valid_start_times any_valid_start_time
    get_number_of_schedule_entries get_schedule_value_attribute count_instances numbered_name
    format_int decimal_loop zeros pad update_state set_state write_state notify_state
    update_schedule_enable_error update_int_status_value update_time_status update update_at
    save_if_stored set_schedule get_state get_next_start_time next_of_objects update_next_start_time
    start_times check_if_str_tm get_start_time check_if_multi_obj_inst memcmp_eq digits_from
    is_digit get_num_entr_value int_setting get_schd_intv_value_in_ms wrap_int ◌*ℤ◌ int_of_uint64
    uint64_of_int
enabled_times = refl

missed_start_example :
    let u = (enabled_schedule 9400 0 alone).0 in
    ((ready_round 9500 0 u).1 ≡ ScheduleState.ready)
    × (((ready_round 9500 0 u).0.schedule 0).next_start_time ≡ 0)
missed_start_example = missed_start 9400 9500 0 alone refl refl (rw enabled_times (omega arith, tt))
