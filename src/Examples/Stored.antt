-- ===== src/Examples/Stored.antt =====
-- The first schedule of the plant is saved and restored.
use der_scheduling.Prelude.{[], ◌∷◌, ◌≡◌, ◌↔◌, refl, true, some, arith}
use der_scheduling.Prelude.Int.{int_of_uint64, wrap_int, ◌*ℤ◌}
use der_scheduling.World.{World}
use der_scheduling.Schedule.Getters.{get_prio, get_num_entr, int_setting}
use der_scheduling.Schedule.Interval.{get_schd_intv_in_ms, get_schd_intv_value_in_ms}
use der_scheduling.Storage.Save.{create_schedule, save_schedule}
use der_scheduling.Storage.Restore.{restore_schedule, get_schedule_data, parse_printed}
use der_scheduling.Storage.Restore.Complete.{IsComplete, get_schedule_data_iff}
use der_scheduling.Storage.Restore.RoundTrip.{saved, restored, IsStorable}
use der_scheduling.Storage.Restore.Files.{IsWritable, restore_schedule-save_schedule}
use der_scheduling.Names.{
  check_if_multi_obj_inst, memcmp_eq, digits_from, is_digit, numbered_name, format_int,
  decimal_loop, zeros, pad,
}
use der_scheduling.Schedule.Values.{count_instances}
use der_scheduling.Storage.SaveController.{
  get_number_of_schedule_references, get_schedule_reference_with_idx,
}
use der_scheduling.Storage.RestoreController.References.{references_from}
use der_scheduling.Storage.RestoreController.RoundTrip.{ctl_ent_attribute, references}
use der_scheduling.Examples.ToyJson.{ToyJson, object}
use der_scheduling.Examples.Toy.{toy}
use der_scheduling.Examples.Plant.{plant}

abbrev before : World
before = plant 3 1 0

-- A later run, in which the schedule is NOT READY and the files are as they were left.
abbrev after : World
after = record (plant 1 1 0) { files = (save_schedule 0 before).files }

plant-IsStorable : IsStorable (saved before 0)
unfolding IsStorable saved get_prio get_num_entr get_schd_intv_in_ms get_schd_intv_value_in_ms
    int_setting int_of_uint64 wrap_int ◌*ℤ◌
plant-IsStorable = (
  (omega arith, omega arith),
  (omega arith, omega arith),
  (omega arith, omega arith),
  omega arith,
)

plant-IsWritable :
    IsWritable 0 before (some (create_schedule before 0)) (some (create_schedule before 0))
plant-IsWritable = record {
  tree_printable = tt;
  written_text = refl;
  printed_text = refl;
  file_opens = refl;
  file_prints = refl;
  file_reads = refl;
}

restore_schedule-save_schedule_example :
    restore_schedule 7000 0 after ≡ restored 7000 0 (saved before 0) after
restore_schedule-save_schedule_example =
    restore_schedule-save_schedule 7000 0 before after plant-IsWritable plant-IsStorable refl refl

-- An object with no items restores nothing.
get_schedule_data_iff_example :
    ((get_schedule_data 7000 0 (some (some object)) before).1 ≡ true)
    ↔ ((json : ToyJson) × (parse_printed (some (some object)) ≡ some json) × IsComplete json)
get_schedule_data_iff_example = get_schedule_data_iff 7000 0 (some (some object)) before

controller_attribute : ctl_ent_attribute before 0 ≡ some 922
controller_attribute = refl

one_reference : references before 0 ≡ (("Schd1", "") ∷ [])
unfolding get_number_of_schedule_references references_from get_schedule_reference_with_idx
    count_instances check_if_multi_obj_inst memcmp_eq digits_from is_digit numbered_name format_int
    decimal_loop zeros pad
one_reference = refl
