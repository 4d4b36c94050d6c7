-- ===== src/Storage/Restore/RoundTrip.antt =====
-- A schedule that is saved is restored (storage_json.c): what its file
-- holds, and what restoring does with it.
use der_scheduling.Prelude.{ℕ, ◌^◌, ◌<◌, ◌≡◌, refl, Bool, true, false, Option, some}
use der_scheduling.Prelude.Int.{ℤ, IsInt32}
use der_scheduling.Platform.{Platform}
use der_scheduling.World.{World, ScheduleState}
use der_scheduling.Schedule.Getters.{get_prio, get_num_entr, get_schd_reuse, get_state}
use der_scheduling.Schedule.Interval.{get_schd_intv_in_ms}
use der_scheduling.Schedule.Setters.{
  set_schd_reuse, set_prio, set_schd_intv_in_ms, schedule_set_state,
}
use der_scheduling.Storage.Save.{create_schedule}
use der_scheduling.Storage.States.{
  get_string_from_state, get_state_from_string-get_string_from_state,
}
use der_scheduling.Storage.Reading.{nonzero, required, checked_item-some}
use der_scheduling.Storage.Entries.{restore_values}
use der_scheduling.Storage.StartTimes.{restore_start_times}
use der_scheduling.Storage.Restore.{
  restore_num_entr, schedule_update_act_str_tm, restore_items, parse_printed, get_schedule_data,
}
use der_scheduling.Storage.Restore.Items.{
  saved_values, saved_start_times, item_obj_ref, item_state, item_reuse, item_prio, item_num_entr,
  item_schd_intv, item_act_str_tm, item_values, item_start_times, is_array-saved_values,
}

module _ ⦃lib : Platform⦄ where
  open lib use {
    Json, Text, get_item, is_string, is_bool, is_number, is_array, value_string, value_int,
    value_double, create_string, create_bool, create_number, double_of_int, double_of_uint64,
    create_string-holds, create_bool-holds, create_number-holds, value_int-create_number, to_uint64,
    to_uint64-double_of_uint64, object_reference, IsPrintable, print, print_unformatted, parse,
    parse-print, parse-print_unformatted, can_open, can_print, can_read,
  }

  -- What the file keeps of a schedule; the entries and the start times as they are in the file.
  pub record Saved : Type 0 where
    pub state : ScheduleState
    pub reuse : Bool
    pub prio : ℤ
    pub num_entr : ℤ
    pub schd_intv : ℤ
    pub start_time : ℕ
    pub values : Json
    pub start_times : Json

  unfoldable pub saved : World → ℕ → Saved
  saved w s = record {
    state = get_state w s;
    reuse = get_schd_reuse w s;
    prio = get_prio w s;
    num_entr = get_num_entr w s;
    schd_intv = get_schd_intv_in_ms w s;
    start_time = (w.schedule s).start_time;
    values = saved_values w s;
    start_times = saved_start_times w s;
  }

  -- The settings first, then the entries and the start times, and the state as the last.
  unfoldable pub restored : ℕ → ℕ → Saved → World → World
  restored now s x w =
      let w1 = set_prio s x.prio (set_schd_reuse s x.reuse w) in
      let w2 = set_schd_intv_in_ms s x.schd_intv (restore_num_entr s x.num_entr w1) in
      let w3 = restore_values s x.values (schedule_update_act_str_tm now s x.start_time w2) in
      schedule_set_state now s x.state (restore_start_times s (some x.start_times) w3)

  -- The numbers that the file keeps fit the types that they are read into.
  unfoldable pub IsStorable : Saved → Type 0
  IsStorable x = IsInt32 x.prio × IsInt32 x.num_entr × IsInt32 x.schd_intv × (x.start_time < 2 ^ 53)

  pub nonzero-value_int : (b : Bool) → nonzero (value_int (create_bool b)) ≡ b
  nonzero-value_int true = rw ((create_bool-holds true).1) refl
  nonzero-value_int false = rw ((create_bool-holds false).1) refl

  restore_items-create_schedule :
      (now s t : ℕ) (v w : World)
      → IsStorable (saved v t)
      → restore_items now s (create_schedule v t) w ≡ (restored now s (saved v t) w, some tt)
  unfolding restore_items required saved restored IsStorable
  restore_items-create_schedule now s t v w h =
      rw
        (
          checked_item-some is_string _ (item_obj_ref v t) (create_string-holds _).0,
          checked_item-some is_string _ (item_state v t) (create_string-holds _).0,
          checked_item-some is_bool _ (item_reuse v t) (create_bool-holds _).0,
          checked_item-some is_number _ (item_prio v t) (create_number-holds _).0,
          checked_item-some is_number _ (item_num_entr v t) (create_number-holds _).0,
          checked_item-some is_number _ (item_schd_intv v t) (create_number-holds _).0,
          item_act_str_tm v t,
          checked_item-some is_array _ (item_values v t) (is_array-saved_values v t),
          item_start_times v t,
          nonzero-value_int (get_schd_reuse v t),
          value_int-create_number _ h.0,
          value_int-create_number _ h.1,
          value_int-create_number _ h.2,
          (create_number-holds (double_of_uint64 (v.schedule t).start_time)).0,
          (create_number-holds (double_of_uint64 (v.schedule t).start_time)).1,
          to_uint64-double_of_uint64 _ h.3,
          (create_string-holds (get_string_from_state (get_state v t))).1,
          get_state_from_string-get_string_from_state,
        )
        refl

  -- A text that cJSON parses as the tree of a schedule restores that schedule: every setting, the
  -- start time and, as the last, the state are set to the values that the schedule had, and the
  -- entries and start times are taken from the tree. The numbers must fit the types that they are
  -- read into.
  pub get_schedule_data-create_schedule :
      (now s t : ℕ) (v w : World) (text : Option Text)
      → parse_printed text ≡ some (create_schedule v t)
      → IsStorable (saved v t)
      → get_schedule_data now s text w ≡ (restored now s (saved v t) w, true)
  unfolding get_schedule_data
  get_schedule_data-create_schedule now s t v w text p h =
      rw (p, restore_items-create_schedule now s t v w h) refl
