-- ===== src/Storage/Save.antt =====
-- Writing a schedule to its file (storage_json.c). Memory suffices.
use der_scheduling.Prelude.{
  ℕ, zero, suc, ◌+◌, true, false, Option, none, some, List, [], ◌∷◌, String, if◌then◌else◌, ◌≡◌,
  arith,
}
use text.Mathlib.Text.{◌==◌ as str_eq}
use der_scheduling.Prelude.Int.{pos}
use der_scheduling.Platform.{
  Platform, MmsType, mms_boolean, mms_float, mms_integer, mms_unsigned, mms_utc_time,
}
use der_scheduling.World.{World}
use der_scheduling.Schedule.Getters.{value_at, get_prio, get_num_entr, get_schd_reuse, get_state}
use der_scheduling.Schedule.Interval.{get_schd_intv_in_ms}
use der_scheduling.Schedule.StartTimes.{check_if_str_tm}
use der_scheduling.Schedule.Values.{get_number_of_schedule_entries, get_value_with_idx}
use der_scheduling.Storage.Filenames.{convert_obj_ref_to_filename}
use der_scheduling.Storage.States.{get_string_from_state}

module _ ⦃lib : Platform⦄ where
  open lib use {
    Node, Value, Json, get_child, get_children, get_parent, node_name, object_reference, mms_value,
    get_type, to_int32, to_uint32, to_string, to_float, get_boolean, utc_time_in_ms, double_of_int,
    double_of_uint64, create_object, create_array, create_string, create_bool, create_number,
    add_item_to_object, add_item_to_array, print_unformatted, can_open, can_print, Text, empty_text,
  }

  -- The JSON value of an entry; none where its type is another.
  abbrev json_of_typed : MmsType → Option Value → Option Json
  json_of_typed mms_boolean v = some (create_bool (get_boolean v))
  json_of_typed mms_float v = some (create_number (to_float v))
  json_of_typed mms_integer v = some (create_number (double_of_int (to_int32 v)))
  json_of_typed _ v = none

  unfoldable pub json_of_value : Option Value → Option Json
  json_of_value v = json_of_typed (get_type v) v

  abbrev pub add_some : Option Json → Json → Json
  add_some none array = array
  add_some (some j) array = add_item_to_array array j

  -- The entries `idx`, ..., `idx + count - 1`.
  unfoldable pub add_values : World → ℕ → (count idx : ℕ) → Json → Json
  add_values w s zero idx array = array
  add_values w s (suc count) idx array =
      add_values w s count (idx + 1)
        (add_some (json_of_value (get_value_with_idx w s (pos idx))) array)

  -- `addIntegerValue` and `addUnsignedValue`: the item, where there is a value of the type.
  abbrev integer_item : MmsType → Option Value → String → Json → Json
  integer_item mms_integer v item obj =
      add_item_to_object obj item (create_number (double_of_int (to_int32 v)))
  integer_item _ v item obj = obj

  abbrev unsigned_item : MmsType → Option Value → String → Json → Json
  unsigned_item mms_unsigned v item obj =
      add_item_to_object obj item (create_number (double_of_uint64 (to_uint32 v)))
  unsigned_item _ v item obj = obj

  abbrev if_value : Option Value → (Option Value → String → Json → Json) → String → Json → Json
  if_value none add item obj = obj
  if_value (some v) add item obj = add (some v) item obj

  unfoldable pub add_integer_value : World → Node → String → Json → Json
  add_integer_value w n item obj =
      if_value (value_at w (get_child (some n) item)) (λ v. integer_item (get_type v) v) item obj

  unfoldable pub add_unsigned_value : World → Node → String → Json → Json
  add_unsigned_value w n item obj =
      if_value (value_at w (get_child (some n) item)) (λ v. unsigned_item (get_type v) v) item obj

  unfoldable pub json_of_set_cal : World → Node → Json
  unfolding add_integer_value add_unsigned_value
  json_of_set_cal w n = add_unsigned_value w n "mn" (
      add_unsigned_value w n "hr" (
        add_unsigned_value w n "day" (
          add_integer_value w n "month" (
            add_integer_value w n "weekDay" (
              add_integer_value w n "occPer"
                (add_integer_value w n "occType" (add_unsigned_value w n "occ" create_object)))))))

  abbrev utc_of_typed : MmsType → Option Value → ℕ
  utc_of_typed mms_utc_time v = utc_time_in_ms v
  utc_of_typed _ v = 0

  abbrev utc_of : Option Value → ℕ
  utc_of none = 0
  utc_of (some v) = utc_of_typed (get_type (some v)) (some v)

  abbrev add_set_cal : World → Option Node → Json → Json
  add_set_cal w none obj = obj
  add_set_cal w (some n) obj = add_item_to_object obj "setCal" (json_of_set_cal w n)

  unfoldable pub json_of_start_time : World → Node → Json
  unfolding json_of_set_cal
  json_of_start_time w n = add_set_cal w (get_child (some n) "setCal") (
      add_item_to_object (add_item_to_object create_object "id" (create_string (node_name n))) "t"
        (create_number (double_of_uint64 (utc_of (value_at w (get_child (some n) "setTm"))))))

  unfoldable pub add_start_times : World → List Node → Json → Json
  add_start_times w [] array = array
  add_start_times w (n ∷ ns) array = add_start_times w ns (
      if check_if_str_tm (node_name n)
      then add_item_to_array array (json_of_start_time w n)
      else array)

  -- `createSchedule`
  unfoldable pub create_schedule : World → ℕ → Json
  unfolding add_values add_start_times json_of_value json_of_start_time
  create_schedule w s =
      let x = w.schedule s in
      let ref = create_string (object_reference true x.schedule_ln) in
      let j1 = add_item_to_object create_object "objRef" ref in
      let j2 =
        add_item_to_object j1 "state" (create_string (get_string_from_state (get_state w s))) in
      let j3 = add_item_to_object j2 "reuse" (create_bool (get_schd_reuse w s)) in
      let j4 = add_item_to_object j3 "prio" (create_number (double_of_int (get_prio w s))) in
      let j5 = add_item_to_object j4 "numEntr" (create_number (double_of_int (get_num_entr w s))) in
      let j6 =
        add_item_to_object j5 "schdIntv"
          (create_number (double_of_int (get_schd_intv_in_ms w s))) in
      let j7 = add_item_to_object j6 "ActStrTm" (create_number (double_of_uint64 x.start_time)) in
      let values = add_values w s (get_number_of_schedule_entries w s) 0 create_array in
      let j8 = add_item_to_object j7 "values" values in
      let start_times = add_start_times w (get_children x.schedule_ln) create_array in
      add_item_to_object j8 "startTimes" start_times

  -- `writeStringToFile`: a file that opens is emptied first.
  unfoldable pub write_string_to_file : String → Text → World → World
  write_string_to_file name text w =
      let content = if can_print text then text else empty_text in
      if can_open name
      then record w { files = λ f. if str_eq f name then some content else w.files f }
      else w

  abbrev pub write_printed : String → Option Text → World → World
  write_printed name none w = w
  write_printed name (some text) w = write_string_to_file name text w

  -- `SchedulerStorage_saveSchedule`, whose result no caller reads.
  unfoldable pub save_schedule : ℕ → World → World
  unfolding write_string_to_file
  save_schedule s w =
      write_printed
        (convert_obj_ref_to_filename (object_reference false (w.schedule s).schedule_ln))
        (print_unformatted (create_schedule w s)) w

  -- `if (self->storage) SchedulerStorage_saveSchedule(self->storage, self)`
  abbrev save_under : Option String → ℕ → World → World
  save_under none s w = w
  save_under (some uri) s w = save_schedule s w

  unfoldable pub save_if_stored : ℕ → World → World
  unfolding save_schedule
  save_if_stored s w = save_under (w.schedule s).storage s w

  -- A save writes files alone.
  pub save_if_stored-files :
      (s : ℕ) (w : World) → save_if_stored s w ≡ record w { files = (save_if_stored s w).files }
  unfolding save_if_stored
  save_if_stored-files s w = ground arith
