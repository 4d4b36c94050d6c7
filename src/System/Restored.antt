-- ===== src/System/Restored.antt =====
-- Restoring schedules and controllers as a whole keeps their lists.
use der_scheduling.Prelude.{ℕ, Option, none, some, String, arith}
use der_scheduling.Platform.{Platform}
use der_scheduling.World.{World}
use der_scheduling.Schedule.Setters.{schedule_set_state}
use der_scheduling.Storage.Save.{write_string_to_file, write_printed, create_schedule}
use der_scheduling.Storage.States.{get_state_from_string}
use der_scheduling.Storage.Reading.{call, read_file_to_buffer, nonzero}
use der_scheduling.Storage.Entries.{restore_values}
use der_scheduling.Storage.Restore.{
  restore_items, restore_parsed, parse_printed, get_schedule_data, restore_tree, restore_buffer,
  get_filename_for_schedule, restore_schedule,
}
use der_scheduling.System.Keeps.{Keeps, Keeps-refl, Keeps-trans, Keeps-same}
use der_scheduling.System.Status.{update_state-Keeps}
use der_scheduling.System.Restoring.{
  KeepsLists, required-KeepsLists, call-KeepsLists, text_of-KeepsLists, done-Keeps, reuse-Keeps,
  prio-Keeps, num_entr-Keeps, schd_intv-Keeps, act_str_tm-Keeps, entries-Keeps, start_times-Keeps,
}

module _ ⦃lib : Platform⦄ where
  open lib use {
    Node, Json, Text, Double, get_item, is_string, is_bool, is_number, is_array, value_string,
    value_int, value_double, to_uint64, array_size, array_item, parse, print, print_unformatted,
  }

  values-Keeps : (s : ℕ) (values : Json) (w : World) → Keeps w (restore_values s values w)
  unfolding restore_values
  values-Keeps s values w = entries-Keeps s values (array_size values) 0 w

  state-KeepsLists :
      (now s : ℕ) (text : String)
      → KeepsLists (call (schedule_set_state now s (get_state_from_string text)))
  unfolding KeepsLists
  state-KeepsLists now s text w = update_state-Keeps now s (get_state_from_string text) w

  items-KeepsLists : (now s : ℕ) (json : Json) → KeepsLists (restore_items now s json)
  unfolding restore_items
  items-KeepsLists now s json = required-KeepsLists _ _ _ _ λ obj_ref.
      required-KeepsLists _ _ _ _ λ state. required-KeepsLists _ _ _ _ λ reuse.
        call-KeepsLists _ _ (reuse-Keeps s (nonzero (value_int reuse))) (
          required-KeepsLists _ _ _ _ λ prio. call-KeepsLists _ _ (prio-Keeps s (value_int prio)) (
            required-KeepsLists _ _ _ _ λ num_entr.
              call-KeepsLists _ _ (num_entr-Keeps s (value_int num_entr)) (
                required-KeepsLists _ _ _ _ λ schd_intv.
                  call-KeepsLists _ _ (schd_intv-Keeps s (value_int schd_intv)) (
                    call-KeepsLists _ _ (act_str_tm-Keeps now s (get_item json "ActStrTm")) (
                      required-KeepsLists _ _ _ _ λ values.
                        call-KeepsLists _ _ (values-Keeps s values) (
                          call-KeepsLists _ _ (start_times-Keeps s (get_item json "startTimes"))
                            (text_of-KeepsLists state _ (state-KeepsLists now s))))))))

  parsed-Keeps : (now s : ℕ) (o : Option Json) (w : World) → Keeps w (restore_parsed now s o w).0
  unfolding KeepsLists
  parsed-Keeps now s none w = Keeps-refl w
  parsed-Keeps now s (some j) w =
      done-Keeps w (restore_items now s j w) (items-KeepsLists now s j w)

  tree-Keeps : (now s : ℕ) (o : Option Json) (w : World) → Keeps w (restore_tree now s o w)
  unfolding get_schedule_data
  tree-Keeps now s none w = Keeps-refl w
  tree-Keeps now s (some tree) w = parsed-Keeps now s (parse_printed (print tree)) w

  pub printed-Keeps :
      (name : String) (o : Option Text) (w : World) → Keeps w (write_printed name o w)
  unfolding write_string_to_file
  printed-Keeps name none w = Keeps-refl w
  printed-Keeps name (some text) w = Keeps-same (ground arith) (ground arith)

  buffer-Keeps :
      (now s : ℕ) (name : String) (o : Option Text) (w : World)
      → Keeps w (restore_buffer now s name o w)
  buffer-Keeps now s name (some buffer) w = tree-Keeps now s (parse buffer) w
  buffer-Keeps now s name none w =
      Keeps-trans (printed-Keeps name (print_unformatted (create_schedule w s)) w)
        (tree-Keeps now s (some (create_schedule w s)) _)

  pub restore_schedule-Keeps : (now s : ℕ) (w : World) → Keeps w (restore_schedule now s w)
  unfolding restore_schedule
  restore_schedule-Keeps now s w =
      let name = get_filename_for_schedule s w in
      buffer-Keeps now s name (read_file_to_buffer name w) w
