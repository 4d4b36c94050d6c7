-- ===== src/Storage/Entries.antt =====
-- The entries of a schedule as getScheduleData of storage_json.c restores them.
use der_scheduling.Prelude.{ℕ, zero, suc, ◌+◌, true, Option, none, some}
use der_scheduling.Prelude.Int.{pos}
use der_scheduling.Platform.{
  Platform, MmsType, mms_boolean, mms_float, mms_integer, set_boolean, set_float, set_int32,
}
use der_scheduling.World.{World}
use der_scheduling.Schedule.Getters.{value_at}
use der_scheduling.Schedule.Values.{get_schedule_value_attribute}
use der_scheduling.Storage.Reading.{nonzero}

module _ ⦃lib : Platform⦄ where
  open lib use {
    Node, Value, Json, get_type, set_value, array_size, array_item, value_int, value_double,
  }

  -- The entry's type says which field of the item is read; other types are left as they are.
  abbrev set_typed : MmsType → Json → Node → World → World
  set_typed mms_boolean item n w = record w {
    model = set_value (set_boolean (nonzero (value_int item))) n w.model;
  }
  set_typed mms_float item n w = record w {
    model = set_value (set_float (value_double item)) n w.model;
  }
  set_typed mms_integer item n w = record w {
    model = set_value (set_int32 (value_int item)) n w.model;
  }
  set_typed _ item n w = w

  -- The item is followed where the entry has one of the three types.
  abbrev missing_item : MmsType → World → World
  missing_item mms_boolean w = record w { faulted = true }
  missing_item mms_float w = record w { faulted = true }
  missing_item mms_integer w = record w { faulted = true }
  missing_item _ w = w

  abbrev set_from_item : MmsType → Option Json → Node → World → World
  set_from_item t none n w = missing_item t w
  set_from_item t (some item) n w = set_typed t item n w

  abbrev set_entry_value : Option Value → Option Json → Node → World → World
  set_entry_value none item n w = w
  set_entry_value (some v) item n w = set_from_item (get_type (some v)) item n w

  abbrev set_entry_at : Option Node → Option Json → World → World
  set_entry_at none item w = w
  set_entry_at (some n) item w = set_entry_value (value_at w (some n)) item n w

  -- One turn of the loop over the values.
  unfoldable pub restore_entry : ℕ → Json → ℕ → World → World
  restore_entry s values i w =
      set_entry_at (get_schedule_value_attribute w s (pos (i + 1))) (array_item values i) w

  -- The turns `i`, ..., `i + count - 1`.
  unfoldable pub restore_entries : ℕ → Json → (count i : ℕ) → World → World
  unfolding restore_entry
  restore_entries s values zero i w = w
  restore_entries s values (suc count) i w =
      restore_entries s values count (i + 1) (restore_entry s values i w)

  unfoldable pub restore_values : ℕ → Json → World → World
  unfolding restore_entries
  restore_values s values w = restore_entries s values (array_size values) 0 w
