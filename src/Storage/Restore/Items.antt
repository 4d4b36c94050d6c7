-- ===== src/Storage/Restore/Items.antt =====
-- The items of the tree that createSchedule of storage_json.c makes, by their keys.
use der_scheduling.Prelude.{ℕ, zero, suc, ◌+◌, ◌≡◌, refl, ◌∙◌, true, Option, none, some}
use der_scheduling.Prelude.Int.{pos}
use der_scheduling.Platform.{Platform}
use der_scheduling.World.{World}
use der_scheduling.Schedule.Getters.{get_prio, get_num_entr, get_schd_reuse, get_state}
use der_scheduling.Schedule.Interval.{get_schd_intv_in_ms}
use der_scheduling.Schedule.Values.{get_number_of_schedule_entries, get_value_with_idx}
use der_scheduling.Storage.States.{get_string_from_state}
use der_scheduling.Storage.Save.{
  create_schedule, add_values, add_start_times, add_some, json_of_value,
}

module _ ⦃lib : Platform⦄ where
  open lib use {
    Json, get_children, get_item, get_item-create_object, get_item-add_item_to_object, create_array,
    create_string, create_bool, create_number, double_of_int, double_of_uint64, object_reference,
    add_item_to_object, is_array, is_array-create_array, is_array-add_item_to_array,
  }

  abbrev pub saved_values : World → ℕ → Json
  saved_values w s = add_values w s (get_number_of_schedule_entries w s) 0 create_array

  abbrev pub saved_start_times : World → ℕ → Json
  saved_start_times w s = add_start_times w (get_children (w.schedule s).schedule_ln) create_array

  -- What is under each key.
  module _ (w : World) (s : ℕ) where
    pub item_obj_ref :
        get_item (create_schedule w s) "objRef"
        ≡ some (create_string (object_reference true (w.schedule s).schedule_ln))
    unfolding create_schedule
    item_obj_ref = simp (get_item-add_item_to_object, get_item-create_object)

    pub item_state :
        get_item (create_schedule w s) "state"
        ≡ some (create_string (get_string_from_state (get_state w s)))
    unfolding create_schedule
    item_state = simp (get_item-add_item_to_object, get_item-create_object)

    pub item_reuse :
        get_item (create_schedule w s) "reuse" ≡ some (create_bool (get_schd_reuse w s))
    unfolding create_schedule
    item_reuse = simp (get_item-add_item_to_object, get_item-create_object)

    pub item_prio :
        get_item (create_schedule w s) "prio" ≡ some (create_number (double_of_int (get_prio w s)))
    unfolding create_schedule
    item_prio = simp (get_item-add_item_to_object, get_item-create_object)

    pub item_num_entr :
        get_item (create_schedule w s) "numEntr"
        ≡ some (create_number (double_of_int (get_num_entr w s)))
    unfolding create_schedule
    item_num_entr = simp (get_item-add_item_to_object, get_item-create_object)

    pub item_schd_intv :
        get_item (create_schedule w s) "schdIntv"
        ≡ some (create_number (double_of_int (get_schd_intv_in_ms w s)))
    unfolding create_schedule
    item_schd_intv = simp (get_item-add_item_to_object, get_item-create_object)

    pub item_act_str_tm :
        get_item (create_schedule w s) "ActStrTm"
        ≡ some (create_number (double_of_uint64 (w.schedule s).start_time))
    unfolding create_schedule
    item_act_str_tm = simp (get_item-add_item_to_object, get_item-create_object)

    pub item_values : get_item (create_schedule w s) "values" ≡ some (saved_values w s)
    unfolding create_schedule
    item_values = simp (get_item-add_item_to_object, get_item-create_object)

    pub item_start_times :
        get_item (create_schedule w s) "startTimes" ≡ some (saved_start_times w s)
    unfolding create_schedule
    item_start_times = simp (get_item-add_item_to_object, get_item-create_object)

  is_array-add_some :
      (o : Option Json) (array : Json) → is_array (add_some o array) ≡ is_array array
  is_array-add_some none array = refl
  is_array-add_some (some j) array = is_array-add_item_to_array array j

  is_array-add_values :
      (w : World) (s count idx : ℕ) (array : Json)
      → is_array array ≡ true
      → is_array (add_values w s count idx array) ≡ true
  unfolding add_values
  is_array-add_values w s zero idx array h = h
  is_array-add_values w s (suc count) idx array h =
      is_array-add_values w s count (idx + 1)
        (add_some (json_of_value (get_value_with_idx w s (pos idx))) array)
        (is_array-add_some (json_of_value (get_value_with_idx w s (pos idx))) array ∙ h)

  pub is_array-saved_values : (w : World) (s : ℕ) → is_array (saved_values w s) ≡ true
  is_array-saved_values w s =
      is_array-add_values w s (get_number_of_schedule_entries w s) 0 create_array
        is_array-create_array
