-- ===== src/Examples/Schedules.antt =====
-- The theorems on a schedule's settings, states and rounds at the plant.
use der_scheduling.Prelude.{◌^◌, ◌-◌, ◌≤◌, ◌≡◌, refl, some, [], ◌∷◌, arith}
use der_scheduling.Prelude.Int.{pos, negsuc, int_of_uint64, uint64_of_int, wrap_int, ◌*ℤ◌}
use der_scheduling.Examples.Toy.{toy}
use der_scheduling.Examples.Plant.{plant, plant_schedule}
use der_scheduling.Names.{check_if_multi_obj_inst}
use der_scheduling.Schedule.StartTimes.{check_if_str_tm, get_start_time}
use der_scheduling.Schedule.Interval.{get_current_idx}
use der_scheduling.Schedule.Interval.Window.{
  IsIndexAt, get_current_idx-IsIndexAt, get_current_idx-overflow,
}
use der_scheduling.Platform.{Tm}
use der_scheduling.Schedule.Calendar.{
  SetCalValues, get_next_start_time, execution_end, next_daily, next_hourly,
  update_next_periodic_start_time,
}
use der_scheduling.Schedule.Getters.{get_num_entr, int_setting}
use der_scheduling.Schedule.Interval.{get_schd_intv_in_ms, get_schd_intv_value_in_ms}
use der_scheduling.Schedule.Calendar.Earliest.{
  IsEarliest, start_times, get_next_start_time-IsEarliest,
}
use der_scheduling.Schedule.Calendar.Periodic.{
  IsUpcoming, update_next_periodic_start_time-IsUpcoming, next_start-takes_later, next_daily-none,
}

-- The second entry's interval starts a second after the start at 5000.
get_current_idx-IsIndexAt_example : IsIndexAt 5000 1000 2 6500 (some (pos 1))
unfolding get_current_idx int_of_uint64 uint64_of_int
get_current_idx-IsIndexAt_example =
    get_current_idx-IsIndexAt (plant_schedule 0 5000 (negsuc 1)) 6500 1000 2 refl refl (omega arith)
      (omega arith) (omega arith) (omega arith) (omega arith)

-- An interval of one millisecond, more than 24 days after the start.
get_current_idx-overflow_example :
    get_current_idx
      (record (plant_schedule 0 0 (negsuc 1)) { entry_duration_in_ms = pos 1 })
      (2 ^ 31)
    ≡ some (negsuc (2 ^ 31 - 1))
get_current_idx-overflow_example =
    get_current_idx-overflow
      (record (plant_schedule 0 0 (negsuc 1)) { entry_duration_in_ms = pos 1 }) (2 ^ 31) 1 2 refl
      refl (omega arith) (omega arith) (omega arith) (omega arith) (omega arith) (omega arith)

get_next_start_time-IsEarliest_example :
    IsEarliest 7000 (9000 ∷ []) (get_next_start_time 7000 (plant 3 3 0) 0)
unfolding start_times check_if_str_tm get_start_time check_if_multi_obj_inst
get_next_start_time-IsEarliest_example = get_next_start_time-IsEarliest (plant 3 3 0) 0 7000 refl

-- At 00:00:07 each hour's fifth minute is asked for.
abbrev each_hour : SetCalValues
each_hour = record { occ_type = pos 0; occ_per = pos 0; hr = 0; mn = 5 }

abbrev seven_seconds : Tm
seven_seconds = record { sec = 7; min = 0; hour = 0; mday = 0; mon = 0; year = 70; isdst = pos 0 }

update_next_periodic_start_time-IsUpcoming_example :
    IsUpcoming
      (plant 3 3 0)
      0
      307000
      7000
      (update_next_periodic_start_time (plant 3 3 0) 0 0 7000 each_hour)
unfolding ◌*ℤ◌ uint64_of_int
update_next_periodic_start_time-IsUpcoming_example =
    update_next_periodic_start_time-IsUpcoming (plant 3 3 0) 0 7000 each_hour seven_seconds refl
      refl refl (omega arith)

-- The start at 9000 replaces the known one at 8000.
next_start-takes_later_example :
    (next_hourly (plant 3 3 0) 0 9000 8000 7000 ≡ 9000)
    × (next_daily (plant 3 3 0) 0 9000 8000 7000 ≡ 9000)
next_start-takes_later_example =
    next_start-takes_later (plant 3 3 0) 0 9000 8000 7000 (omega arith) (omega arith)

-- The execution that began at 3000 is over at 7000.
over : execution_end (plant 3 3 0) 0 3000 ≤ 7000
unfolding get_schd_intv_in_ms get_num_entr int_setting get_schd_intv_value_in_ms wrap_int ◌*ℤ◌
    int_of_uint64 uint64_of_int
over = omega arith

next_daily-none_example : next_daily (plant 3 3 0) 0 3000 0 7000 ≡ 0
next_daily-none_example = next_daily-none (plant 3 3 0) 0 3000 7000 (omega arith) over (omega arith)
