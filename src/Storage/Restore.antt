-- ===== src/Storage/Restore.antt =====
-- Restoring a schedule from its file (getScheduleData and SchedulerStorage_restoreSchedule of
-- storage_json.c).
pub mod Complete
pub mod Items
pub mod RoundTrip
pub mod Files
pub mod Array
pub mod Entry
pub mod Values
use der_scheduling.Prelude.{ℕ, Bool, true, false, Option, none, some, String, if◌then◌else◌}
use der_scheduling.Prelude.Int.{ℤ}
use der_scheduling.Platform.{Platform}
use der_scheduling.World.{World, set_schedule}
use der_scheduling.Schedule.State.{update_act_str_tm}
use der_scheduling.Schedule.Setters.{
  set_schd_reuse, set_prio, set_num_entr, set_schd_intv_in_ms, schedule_set_state,
}
use der_scheduling.Storage.Filenames.{convert_obj_ref_to_filename}
use der_scheduling.Storage.States.{get_state_from_string}
use der_scheduling.Storage.Save.{create_schedule, write_printed}
use der_scheduling.Storage.Reading.{
  Restoring, ◌>>=◌, ◌>>◌, call, required, text_of, is_done, read_file_to_buffer, nonzero,
}
use der_scheduling.Storage.Entries.{restore_values}
use der_scheduling.Storage.StartTimes.{restore_start_times}

module _ ⦃lib : Platform⦄ where
  open lib use {
    Json, Text, get_item, is_string, is_bool, is_number, is_array, value_int, value_double,
    to_uint64, parse, print, print_unformatted, object_reference,
  }

  -- `Schedule_updateActStrTm` of schedule.c
  unfoldable pub schedule_update_act_str_tm : ℕ → ℕ → ℕ → World → World
  schedule_update_act_str_tm now s start w =
      update_act_str_tm now s start
        (set_schedule s (record (w.schedule s) { start_time = start }) w)

  -- The count goes to the data model and to the struct.
  unfoldable pub restore_num_entr : ℕ → ℤ → World → World
  restore_num_entr s count w =
      let w' = set_num_entr s count w in
      set_schedule s (record (w'.schedule s) { number_of_schedule_entries = count }) w'

  -- An item of another type is left out, and restoring goes on.
  abbrev pub restore_act_str_tm : ℕ → ℕ → Option Json → World → World
  restore_act_str_tm now s none w = w
  restore_act_str_tm now s (some item) w =
      if is_number item
      then schedule_update_act_str_tm now s (to_uint64 (value_double item)) w
      else w

  -- `getScheduleData`, after the text is parsed.
  unfoldable pub restore_items : ℕ → ℕ → Json → Restoring (Unit {0})
  unfolding required
  restore_items now s json = do
    obj_ref ← required is_string json "objRef"
    state ← required is_string json "state"
    reuse ← required is_bool json "reuse"
    call (set_schd_reuse s (nonzero (value_int reuse)))
    prio ← required is_number json "prio"
    call (set_prio s (value_int prio))
    num_entr ← required is_number json "numEntr"
    call (restore_num_entr s (value_int num_entr))
    schd_intv ← required is_number json "schdIntv"
    call (set_schd_intv_in_ms s (value_int schd_intv))
    call (restore_act_str_tm now s (get_item json "ActStrTm"))
    values ← required is_array json "values"
    call (restore_values s values)
    call (restore_start_times s (get_item json "startTimes"))
    text ← text_of state
    call (schedule_set_state now s (get_state_from_string text))

  abbrev pub restore_parsed : ℕ → ℕ → Option Json → World → World × Bool
  restore_parsed now s none w = (w, false)
  restore_parsed now s (some json) w = is_done (restore_items now s json w)

  abbrev pub parse_printed : Option Text → Option Json
  parse_printed none = none
  parse_printed (some text) = parse text

  -- `getScheduleData`, of a text that may be NULL.
  unfoldable pub get_schedule_data : ℕ → ℕ → Option Text → World → World × Bool
  unfolding restore_items
  get_schedule_data now s text w = restore_parsed now s (parse_printed text) w

  abbrev pub restore_tree : ℕ → ℕ → Option Json → World → World
  restore_tree now s none w = w
  restore_tree now s (some tree) w = (get_schedule_data now s (print tree) w).0

  -- The tree of the file, or else that of the schedule as it is, which is written to the file.
  abbrev pub restore_buffer : ℕ → ℕ → String → Option Text → World → World
  restore_buffer now s name (some buffer) w = restore_tree now s (parse buffer) w
  restore_buffer now s name none w =
      let tree = create_schedule w s in
      restore_tree now s (some tree) (write_printed name (print_unformatted tree) w)

  -- `getFilenameForSchedule`
  abbrev pub get_filename_for_schedule : ℕ → World → String
  get_filename_for_schedule s w =
      convert_obj_ref_to_filename (object_reference false (w.schedule s).schedule_ln)

  -- `SchedulerStorage_restoreSchedule`, whose result is true on every path.
  unfoldable pub restore_schedule : ℕ → ℕ → World → World
  unfolding get_schedule_data
  restore_schedule now s w =
      let name = get_filename_for_schedule s w in
      restore_buffer now s name (read_file_to_buffer name w) w
