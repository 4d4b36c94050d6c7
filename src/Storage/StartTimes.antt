-- ===== src/Storage/StartTimes.antt =====
-- The start times of a schedule as getScheduleData of storage_json.c restores them.
use der_scheduling.Prelude.{ℕ, zero, suc, ◌+◌, true, Option, none, some, String}
use der_scheduling.Prelude.Int.{ℤ}
use der_scheduling.Platform.{
  Platform, SetValue, MmsType, mms_utc_time, set_int32, set_uint32, set_utc_time,
}
use der_scheduling.World.{World}
use der_scheduling.Schedule.Getters.{ln_child, value_at}
use der_scheduling.Storage.Reading.{set_unchecked}

module _ ⦃lib : Platform⦄ where
  open lib use {
    Node, Value, Double, Json, get_child, get_type, get_item, set_value, array_size, array_item,
    value_string, value_int, value_double, to_uint64,
  }

  -- The time of a start time that is a point in time: 0 where the file has none.
  abbrev pub time_of_item : Option Json → ℕ
  time_of_item none = 0
  time_of_item (some t) = to_uint64 (value_double t)

  abbrev set_time_typed : MmsType → ℕ → Node → World → World
  set_time_typed mms_utc_time t n w = record w { model = set_value (set_utc_time t) n w.model }
  set_time_typed _ t n w = w

  abbrev set_time_value : Option Value → ℕ → Node → World → World
  set_time_value none t n w = w
  set_time_value (some v) t n w = set_time_typed (get_type (some v)) t n w

  abbrev pub restore_set_tm : Option Node → ℕ → World → World
  restore_set_tm none t w = w
  restore_set_tm (some n) t w = set_time_value (value_at w (some n)) t n w

  -- An attribute of setCal is set where both the file and the data model have it.
  abbrev pub set_field : (ℤ → SetValue Double) → Option Json → Option Node → World → World
  set_field u (some item) (some n) w = set_unchecked (u (value_int item)) n w
  set_field u _ _ w = w

  unfoldable pub restore_field : (ℤ → SetValue Double) → String → Json → Node → World → World
  restore_field u name set_cal n w = set_field u (get_item set_cal name) (get_child (some n) name) w

  abbrev pub restore_calendar : Option Json → Node → World → World
  restore_calendar none n w = w
  restore_calendar (some set_cal) n w = restore_field set_uint32 "mn" set_cal n (
      restore_field set_uint32 "hr" set_cal n (
        restore_field set_uint32 "day" set_cal n (
          restore_field set_int32 "month" set_cal n (
            restore_field set_int32 "weekDay" set_cal n (
              restore_field set_int32 "occPer" set_cal n (
                restore_field set_int32 "occType" set_cal n
                  (restore_field set_uint32 "occ" set_cal n w)))))))

  abbrev pub restore_set_cal : Option Node → Json → World → World
  restore_set_cal none item w = w
  restore_set_cal (some n) item w = restore_calendar (get_item item "setCal") n w

  abbrev pub restore_at : Option Node → Json → World → World
  restore_at none item w = w
  restore_at (some str_tm) item w =
      restore_set_cal (get_child (some str_tm) "setCal") item
        (restore_set_tm (get_child (some str_tm) "setTm") (time_of_item (get_item item "t")) w)

  -- The name is followed without a test that it is a text.
  abbrev pub restore_named : ℕ → Option String → Json → World → World
  restore_named s none item w = record w { faulted = true }
  restore_named s (some name) item w = restore_at (ln_child w s name) item w

  abbrev pub restore_with_id : ℕ → Option Json → Json → World → World
  restore_with_id s none item w = w
  restore_with_id s (some name) item w = restore_named s (value_string name) item w

  abbrev pub restore_start_time : ℕ → Option Json → World → World
  restore_start_time s none w = w
  restore_start_time s (some item) w = restore_with_id s (get_item item "id") item w

  unfoldable pub restore_each : ℕ → Json → (count i : ℕ) → World → World
  restore_each s start_times zero i w = w
  restore_each s start_times (suc count) i w =
      restore_each s start_times count (i + 1) (restore_start_time s (array_item start_times i) w)

  abbrev pub restore_start_times : ℕ → Option Json → World → World
  restore_start_times s none w = w
  restore_start_times s (some start_times) w =
      restore_each s start_times (array_size start_times) 0 w
