-- ===== src/Storage/SaveController.antt =====
-- Writing a schedule controller to its file (storage_json.c and, for the references,
-- schedule_controller.c). Memory suffices.
use Prim.Native.String.{◌++◌ as concat}
use der_scheduling.Prelude.{
  first_some, ℕ, zero, suc, ◌+◌, Option, none, some, String, ◌≡◌, arith, true, false,
}
use der_scheduling.Prelude.Int.{pos}
use der_scheduling.Platform.{Platform}
use der_scheduling.Names.{numbered_name}
use der_scheduling.World.{World}
use der_scheduling.Schedule.Values.{count_instances}
use der_scheduling.Storage.Filenames.{convert_obj_ref_to_filename}
use der_scheduling.Storage.Save.{write_string_to_file, write_printed}

module _ ⦃lib : Platform⦄ where
  open lib use {
    Node, Json, get_child, get_children, get_parent, node_name, object_reference, mms_value,
    to_string, create_object, create_array, create_string, add_item_to_object, add_item_to_array,
    print_unformatted,
  }

  -- `ScheduleController_getScheduleReferenceWithIdx`, of an index from 0.
  abbrev reference_named : Node → ℕ → ℕ → Option Node
  reference_named ln width idx =
      get_child (some ln) (concat (numbered_name "Schd" width (pos (idx + 1))) ".setSrcRef")

  unfoldable pub get_schedule_reference_with_idx : Node → ℕ → Option Node
  get_schedule_reference_with_idx ln idx = first_some (reference_named ln 0 idx) (
      first_some (reference_named ln 2 idx)
        (first_some (reference_named ln 3 idx) (reference_named ln 4 idx)))

  -- `ScheduleController_getRefCount` and `scheduleController_getNumberOfScheduleReferences`
  unfoldable pub get_number_of_schedule_references : Node → ℕ
  get_number_of_schedule_references ln = count_instances "Schd" (get_children ln)

  abbrev pub parent_name : Option Node → String
  parent_name none = ""
  parent_name (some p) = node_name p

  abbrev pub add_reference : World → Option Node → Json → Json
  add_reference w none array = array
  add_reference w (some attr) array = add_item_to_array array (
      add_item_to_object
        (add_item_to_object create_object "id" (create_string (parent_name (get_parent attr))))
        "ref" (create_string (to_string (mms_value w.model attr))))

  unfoldable pub add_references : World → Node → (count idx : ℕ) → Json → Json
  add_references w ln zero idx array = array
  add_references w ln (suc count) idx array =
      add_references w ln count (idx + 1)
        (add_reference w (get_schedule_reference_with_idx ln idx) array)

  abbrev pub add_ctl_ent : World → Option Node → Json → Json
  add_ctl_ent w none obj = obj
  add_ctl_ent w (some n) obj =
      add_item_to_object obj "ctlEnt" (create_string (to_string (mms_value w.model n)))

  -- `createScheduleController`
  unfoldable pub create_schedule_controller : World → ℕ → Json
  unfolding add_references get_schedule_reference_with_idx get_number_of_schedule_references
  create_schedule_controller w c =
      let ln = (w.controller c).controller_ln in
      let j1 =
        add_item_to_object create_object "objRef" (create_string (object_reference true ln)) in
      let j2 = add_ctl_ent w (get_child (some ln) "CtlEnt.setSrcRef") j1 in
      let schedules = add_references w ln (get_number_of_schedule_references ln) 0 create_array in
      add_item_to_object j2 "schedules" schedules

  -- `SchedulerStorage_saveScheduleController`
  unfoldable pub save_schedule_controller : ℕ → World → World
  unfolding write_string_to_file
  save_schedule_controller c w =
      write_printed
        (convert_obj_ref_to_filename (object_reference false (w.controller c).controller_ln))
        (print_unformatted (create_schedule_controller w c)) w

  abbrev save_controller_under : Option String → ℕ → World → World
  save_controller_under none c w = w
  save_controller_under (some uri) c w = save_schedule_controller c w

  unfoldable pub save_controller_if_stored : ℕ → World → World
  unfolding save_schedule_controller
  save_controller_if_stored c w = save_controller_under (w.controller c).storage c w

  -- A save writes files alone.
  pub save_controller_if_stored-files :
      (c : ℕ) (w : World)
      → save_controller_if_stored c w ≡ record w { files = (save_controller_if_stored c w).files }
  unfolding save_controller_if_stored
  save_controller_if_stored-files c w = ground arith
