-- ===== src/Examples/Rounds.antt =====
-- The theorems on enabling, client access and the rounds of a schedule's thread at the plant.
use der_scheduling.Prelude.{◌≡◌, ◌≢◌, inr, refl, true, false, some, arith, ◌&&◌}
use der_scheduling.Prelude.Int.{pos, negsuc, int_of_uint64, uint64_of_int, wrap_int, ◌*ℤ◌}
use der_scheduling.World.{ScheduleState, success_no_update, object_value_invalid}
use der_scheduling.Examples.Toy.{toy, time, bool}
use der_scheduling.Examples.Plant.{plant}
use der_scheduling.Names.{
  check_if_multi_obj_inst, digits_from, is_digit, memcmp_eq, numbered_name, format_int,
  decimal_loop, zeros, pad,
}
use der_scheduling.Schedule.Getters.{get_state, int_setting, get_num_entr_value}
use der_scheduling.Schedule.Values.{
  get_number_of_schedule_entries, get_schedule_value_attribute, count_instances,
}
use der_scheduling.Schedule.StartTimes.{
  check_if_str_tm, get_start_time, check_for_valid_start_times, any_valid_start_time,
}
use der_scheduling.Schedule.Interval.{get_current_idx, get_schd_intv_value_in_ms}
use der_scheduling.Schedule.Calendar.{get_next_start_time}
use der_scheduling.Schedule.Validity.{
  num_entr_valid, values_valid, schd_intv_valid, is_event_driven, entries_present,
  entries_are_numbers,
}
use der_scheduling.Schedule.Enable.{enabled_schedule}
use der_scheduling.Schedule.Enable.Result.{settings_valid, kind_valid, enabled_schedule-result}
use der_scheduling.Schedule.Access.Outcome.{
  handle_write, handle_write-result, handle_write_refused, str_tm, schd_reuse,
}
use der_scheduling.Schedule.Control.{perform_check_handler, control_handler, accepted, result_ok}
use der_scheduling.Schedule.Control.Agreement.{check_enable-result, control_enable-result}
use der_scheduling.Schedule.Thread.{
  ready_round, running_round, round_in, thread_round, start_schedule,
}
use der_scheduling.Schedule.Thread.Rounds.{Transition, round_in-Transition, thread_round_quiet}
use der_scheduling.Schedule.Thread.Execution.{
  erased, loaded_struct, start_schedule-struct, running_round-output_once,
}
use der_scheduling.Schedule.Thread.Stale.{rescheduled, rescheduled-stale}

-- Both start times are past the clock, and all settings are valid.
enabled_schedule-result_example :
    (enabled_schedule 7000 0 (plant 1 1 0)).1
    ≡ (settings_valid 7000 0 (plant 1 1 0) && kind_valid 7000 0 (plant 1 1 0))
enabled_schedule-result_example = enabled_schedule-result 7000 0 (plant 1 1 0)

-- A start time that is past is called invalid.
handle_write-result_example :
    (handle_write str_tm 7000 0 8 (time 6000) (plant 1 1 0)).1 ≡ object_value_invalid
handle_write-result_example = handle_write-result str_tm 7000 0 8 (time 6000) (plant 1 1 0)

refused : (handle_write schd_reuse 7000 0 40 (bool true) (plant 1 1 0)).1 ≢ success_no_update
refused h = cc (handle_write-result schd_reuse 7000 0 40 (bool true) (plant 1 1 0))

handle_write_refused_example :
    (handle_write schd_reuse 7000 0 40 (bool true) (plant 1 1 0)).0 ≡ plant 1 1 0
handle_write_refused_example =
    handle_write_refused schd_reuse 7000 0 40 (bool true) (plant 1 1 0) refused

enable_accepted :
    (perform_check_handler 7000 0 30 (some (bool true)) false (plant 1 1 0)).1 ≡ accepted
unfolding num_entr_valid values_valid schd_intv_valid int_setting get_num_entr_value entries_present
    entries_are_numbers get_number_of_schedule_entries get_schedule_value_attribute count_instances
    check_if_multi_obj_inst memcmp_eq digits_from is_digit numbered_name format_int decimal_loop
    zeros pad
enable_accepted = check_enable-result 7000 0 30 (some (bool true)) (plant 1 1 0) refl refl

control_enable-result_example :
    (control_handler 7000 0 30 (some (bool true)) false (plant 1 1 0)).1 ≡ result_ok
unfolding is_event_driven check_for_valid_start_times any_valid_start_time check_if_str_tm
    check_if_multi_obj_inst memcmp_eq digits_from is_digit get_num_entr_value int_setting
    get_schd_intv_value_in_ms get_start_time wrap_int ◌*ℤ◌ int_of_uint64 uint64_of_int
control_enable-result_example =
    control_enable-result 7000 0 30 (some (bool true)) (plant 1 1 0) refl refl enable_accepted

round_in-Transition_example :
    Transition ScheduleState.ready (round_in ScheduleState.ready 9500 0 (plant 3 3 0)).1
round_in-Transition_example = round_in-Transition 9500 0 (plant 3 3 0) ScheduleState.ready

ready_state : get_state (plant 3 3 9000) 0 ≡ ScheduleState.ready
unfolding get_state
ready_state = refl

-- The next start is at 9000.
thread_round_quiet_example : thread_round 8500 0 (plant 3 3 9000) ≡ plant 3 3 9000
thread_round_quiet_example =
    thread_round_quiet 8500 0 (plant 3 3 9000) (λ h. cc (h, ready_state))
      (inr (λ h. omega arith, omega arith))

start_schedule-struct_example :
    (start_schedule 9500 0 (plant 3 3 9000)).schedule 0
    ≡ record (loaded_struct 0 (plant 3 3 9000)) {
      next_start_time = get_next_start_time 9500 (erased 9500 0 (plant 3 3 9000)) 0;
    }
start_schedule-struct_example = start_schedule-struct 9500 0 (plant 3 3 9000)

index_6500 : get_current_idx ((plant 4 3 9000).schedule 0) 6500 ≡ some (pos 1)
unfolding get_current_idx int_of_uint64 uint64_of_int
index_6500 = refl

index_6600 : get_current_idx ((plant 4 3 9000).schedule 0) 6600 ≡ some (pos 1)
unfolding get_current_idx int_of_uint64 uint64_of_int
index_6600 = refl

index_8000 : get_current_idx ((plant 4 3 9000).schedule 0) 8000 ≡ some (negsuc 0)
unfolding get_current_idx int_of_uint64 uint64_of_int
index_8000 = refl

running_round-output_once_example :
    running_round 6600 0 (running_round 6500 0 (plant 4 3 9000)).0
    ≡ ((running_round 6500 0 (plant 4 3 9000)).0, ScheduleState.running)
running_round-output_once_example =
    running_round-output_once 6500 6600 0 (pos 1) (plant 4 3 9000) index_6500 index_6600 (λ h. cc)

-- The thread knows the start at 9000 when a client disables the schedule and writes a start at 20000.
rescheduled-stale_example :
    ((ready_round 12000 0 (rescheduled 8000 8100 8200 0 8 (time 20000) (plant 3 3 9000))).1
      ≡ ScheduleState.running)
    × (((ready_round 12000 0
            (rescheduled 8000 8100 8200 0 8 (time 20000) (plant 3 3 9000))).0.schedule
          0).start_time
        ≡ 9000)
rescheduled-stale_example =
    rescheduled-stale 8000 8100 8200 12000 0 8 (time 20000) (plant 3 3 9000) (λ h. omega arith)
      (omega arith)
