-- ===== src/Schedule/StartTimes.antt =====
-- The start times of a schedule that are points in time (schedule.c).
use der_scheduling.Prelude.{
  ℕ, ◌+◌, ◌*◌, ◌%◌, ◌^◌, Bool, true, false, Option, none, some, List, [], ◌∷◌, String,
  if◌then◌else◌, ◌==◌, ltb, leb, ◌||◌,
}
use der_scheduling.Prelude.Int.{pos, ltb_ℤ, pos_part}
use der_scheduling.Platform.{
  Platform, AttributeType, ModelType, data_attribute, timestamp, constructed, utc_time,
}
use der_scheduling.Names.{codes, check_if_multi_obj_inst}
use der_scheduling.World.{World, update}
use der_scheduling.Schedule.Getters.{value_at, get_num_entr_value}
use der_scheduling.Schedule.Interval.{get_schd_intv_value_in_ms}

abbrev is_timestamp : AttributeType → Bool
is_timestamp timestamp = true
is_timestamp _ = false

abbrev is_constructed : AttributeType → Bool
is_constructed constructed = true
is_constructed _ = false

abbrev is_data_attribute : ModelType → Bool
is_data_attribute data_attribute = true
is_data_attribute _ = false

unfoldable pub check_if_str_tm : String → Bool
check_if_str_tm name = check_if_multi_obj_inst (codes name) (codes "StrTm")

-- The earlier of the next start time so far and a start time in the future; 0 is no start time.
abbrev pub earlier_future : ℕ → ℕ → ℕ → ℕ
earlier_future str_tm next now =
    if ltb now str_tm
    then (if next == 0 then str_tm else if leb str_tm next then str_tm else next)
    else next

module _ ⦃lib : Platform⦄ where
  open lib use {
    Node, Value, get_child, get_children, node_name, model_type, attribute_type, mms_value,
    utc_time_in_ms,
  }

  abbrev is_attribute : (AttributeType → Bool) → Option Node → Bool
  is_attribute test none = false
  is_attribute test (some n) =
      if is_data_attribute (model_type n) then test (attribute_type n) else false

  unfoldable pub has_set_tm : Node → Bool
  has_set_tm obj = is_attribute is_timestamp (get_child (some obj) "setTm")

  unfoldable pub has_set_cal : Node → Bool
  has_set_cal obj = is_attribute is_constructed (get_child (some obj) "setCal")

  -- `checkIfTimeTriggeredAndPeriodic`: the pair isTimeTriggerd, isPeriodic after the objects.
  unfoldable pub check_if_time_triggered_and_periodic : List Node → Bool → Bool × Bool
  check_if_time_triggered_and_periodic [] triggered = (triggered, false)
  check_if_time_triggered_and_periodic (n ∷ ns) triggered =
      let rest =
        check_if_time_triggered_and_periodic ns (triggered || check_if_str_tm (node_name n)) in
      if check_if_str_tm (node_name n) then (if has_set_cal n then (true, true) else rest) else rest

  abbrev time_of : Option Value → ℕ
  time_of none = 0
  time_of (some v) = utc_time_in_ms (some v)

  -- `getStartTime`: 0 where there is no setTm or no value.
  unfoldable pub get_start_time : World → Node → ℕ
  get_start_time w obj = time_of (value_at w (get_child (some obj) "setTm"))

  abbrev next_from_value : Option Value → ℕ → ℕ → ℕ
  next_from_value none next now = next
  next_from_value (some v) next now = earlier_future (utc_time_in_ms (some v)) next now

  unfoldable pub update_next_start_time : World → Node → ℕ → ℕ → ℕ
  update_next_start_time w obj next now =
      next_from_value (value_at w (get_child (some obj) "setTm")) next now

  abbrev erase_value : Node → ℕ → Option Value → World → World
  erase_value set_tm start none w = w
  erase_value set_tm start (some v) w =
      if utc_time_in_ms (some v) == start then update (utc_time 0) set_tm w else w

  -- `setTm->mmsValue` is read with no check that the object has a setTm.
  abbrev erase_at : Option Node → ℕ → World → World
  erase_at none start w = record w { faulted = true }
  erase_at (some set_tm) start w = erase_value set_tm start (mms_value w.model set_tm) w

  unfoldable pub erase_start_times : List Node → ℕ → World → World
  erase_start_times [] start w = w
  erase_start_times (n ∷ ns) start w =
      erase_start_times ns start
        (if check_if_str_tm (node_name n) then erase_at (get_child (some n) "setTm") start w else w)

  unfoldable pub erase_start_time : ℕ → ℕ → World → World
  unfolding erase_start_times check_if_str_tm
  erase_start_time s start w = erase_start_times (get_children (w.schedule s).schedule_ln) start w

  -- `getSchdIntvValueInMs(self) * numEntryVal`, where there are entries.
  abbrev pub schedule_duration_ms : World → ℕ → ℕ
  schedule_duration_ms w s =
      if ltb_ℤ (pos 0) (get_num_entr_value w s)
      then get_schd_intv_value_in_ms w s * pos_part (get_num_entr_value w s) % 2 ^ 64
      else 0

  abbrev ends_later : World → ℕ → ℕ → Node → Bool
  ends_later w duration now n = ltb now ((get_start_time w n + duration) % 2 ^ 64)

  abbrev pub is_valid_start_time : Bool → World → ℕ → ℕ → Node → Bool
  is_valid_start_time true w duration now n =
      if has_set_cal n then (if has_set_tm n then ends_later w duration now n else true) else false
  is_valid_start_time false w duration now n = ends_later w duration now n

  unfoldable pub any_valid_start_time : Bool → World → ℕ → ℕ → List Node → Bool
  any_valid_start_time periodic w duration now [] = false
  any_valid_start_time periodic w duration now (n ∷ ns) =
      (if check_if_str_tm (node_name n)
        then is_valid_start_time periodic w duration now n
        else false)
      || any_valid_start_time periodic w duration now ns

  unfoldable pub check_for_valid_start_times : ℕ → World → ℕ → Bool
  unfolding any_valid_start_time check_if_str_tm
  check_for_valid_start_times now w s =
      any_valid_start_time (w.schedule s).is_periodic w (schedule_duration_ms w s) now
        (get_children (w.schedule s).schedule_ln)
