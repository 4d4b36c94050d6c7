-- ===== src/Schedule/Validity.antt =====
-- The checks before a schedule is enabled (schedule.c).
use der_scheduling.Prelude.{
  ℕ, zero, suc, ◌+◌, Bool, true, false, Option, none, some, if◌then◌else◌, ◌&&◌, leb,
}
use der_scheduling.Prelude.Int.{ℤ, pos, negsuc, ltb_ℤ}
use der_scheduling.Platform.{
  Platform, MmsType, mms_float, ModelType, data_attribute, AttributeType, boolean,
}
use der_scheduling.World.{World, ScheduleEnablingError, set_schedule}
use der_scheduling.Schedule.Getters.{ln_child, value_at, int_setting, get_num_entr_value}
use der_scheduling.Schedule.Values.{get_number_of_schedule_entries, get_schedule_value_attribute}
use der_scheduling.Schedule.State.{update_schedule_enable_error}

abbrev is_float : MmsType → Bool
is_float mms_float = true
is_float _ = false

abbrev is_boolean_type : AttributeType → Bool
is_boolean_type boolean = true
is_boolean_type _ = false

abbrev is_attribute_model : ModelType → Bool
is_attribute_model data_attribute = true
is_attribute_model _ = false

abbrev is_positive : Option ℤ → Bool
is_positive none = false
is_positive (some v) = ltb_ℤ (pos 0) v

abbrev is_present {ℓ} : {A : Type ℓ} → Option A → Bool
is_present none = false
is_present (some a) = true

module _ ⦃lib : Platform⦄ where
  open lib use {
    Node, Value, get_child, get_type, to_float, is_nan, to_string, get_boolean, node_by_reference,
    model_type, attribute_type,
  }

  -- The loops over the entries `i`, ..., `i + count - 1`.
  unfoldable pub entries_present : World → ℕ → (count i : ℕ) → Bool
  entries_present w s zero i = true
  entries_present w s (suc count) i =
      is_present (get_schedule_value_attribute w s (pos i)) && entries_present w s count (i + 1)

  abbrev pub is_nan_value : Option Value → Bool
  is_nan_value none = false
  is_nan_value (some v) = if is_float (get_type (some v)) then is_nan (to_float (some v)) else false

  abbrev pub is_number : World → ℕ → ℕ → Bool
  is_number w s i =
      if is_nan_value (value_at w (get_schedule_value_attribute w s (pos i))) then false else true

  unfoldable pub entries_are_numbers : World → ℕ → (count i : ℕ) → Bool
  entries_are_numbers w s zero i = true
  entries_are_numbers w s (suc count) i = is_number w s i && entries_are_numbers w s count (i + 1)

  abbrev num_entr_valid_of : World → ℕ → ℤ → Bool
  num_entr_valid_of w s (negsuc n) = false
  num_entr_valid_of w s (pos zero) = false
  num_entr_valid_of w s (pos (suc n)) =
      if leb (suc n) (get_number_of_schedule_entries w s)
      then entries_present w s (suc n) 1
      else false

  unfoldable pub num_entr_valid : World → ℕ → Bool
  num_entr_valid w s = num_entr_valid_of w s (get_num_entr_value w s)

  abbrev pub numbers_of : World → ℕ → ℤ → Bool
  numbers_of w s (negsuc n) = true
  numbers_of w s (pos n) = entries_are_numbers w s n 1

  -- `for (i = 1; i <= numEntrVal; i++)`
  unfoldable pub values_valid : World → ℕ → Bool
  values_valid w s = numbers_of w s (get_num_entr_value w s)

  unfoldable pub schd_intv_valid : World → ℕ → Bool
  schd_intv_valid w s = is_positive (int_setting w s "SchdIntv.setVal")

  unfoldable pub set_number_of_schedule_entries : ℕ → ℤ → World → World
  set_number_of_schedule_entries s n w =
      set_schedule s (record (w.schedule s) { number_of_schedule_entries = n }) w

  -- `performGenericScheduleValidityChecks`
  unfoldable pub perform_generic_validity_checks : ℕ → ℕ → World → World × Bool
  unfolding set_number_of_schedule_entries
  perform_generic_validity_checks now s w =
      let w' = set_number_of_schedule_entries s (get_num_entr_value w s) w in
      if num_entr_valid w s
      then (if values_valid w' s
          then (if schd_intv_valid w' s then (w', true) else (
            update_schedule_enable_error now s ScheduleEnablingError.missing_valid_schdintv w',
            false,
          ))
          else (
            update_schedule_enable_error now s ScheduleEnablingError.missing_valid_schedule_values
                w',
            false,
          ))
      else (
        update_schedule_enable_error now s ScheduleEnablingError.missing_valid_numentr w',
        false,
      )

  abbrev boolean_under : Option Value → Bool
  boolean_under none = false
  boolean_under (some v) = get_boolean (some v)

  abbrev trigger_value : World → Option Node → Option Value
  trigger_value w none = none
  trigger_value w (some n) = value_at w (get_child (some n) "setVal")

  -- `isEventDriven`
  unfoldable pub is_event_driven : World → ℕ → Bool
  is_event_driven w s = boolean_under (trigger_value w (w.schedule s).ev_trg)

  abbrev is_trigger : Option Node → Bool
  is_trigger none = false
  is_trigger (some n) =
      if is_attribute_model (model_type n) then is_boolean_type (attribute_type n) else false

  abbrev refers_to_trigger : World → Option Node → Bool
  refers_to_trigger w none = false
  refers_to_trigger w (some n) = is_trigger (node_by_reference (to_string (value_at w (some n))))

  -- `checkSyncInput`
  unfoldable pub check_sync_input : World → ℕ → Bool
  check_sync_input w s = refers_to_trigger w (ln_child w s "InSyn.setSrcRef")
