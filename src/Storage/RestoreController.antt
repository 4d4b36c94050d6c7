-- ===== src/Storage/RestoreController.antt =====
-- Restoring a schedule controller from its file (getScheduleControllerData and
-- SchedulerStorage_restoreScheduleController of storage_json.c), and the setters of
-- schedule_controller.c that it calls.
pub mod References
pub mod RoundTrip
use der_scheduling.Prelude.{
  ℕ, zero, suc, ◌+◌, Bool, true, false, Option, none, some, String, if◌then◌else◌, ◌&&◌,
}
use der_scheduling.Platform.{Platform, set_visible_string}
use der_scheduling.World.{World}
use der_scheduling.Controller.References.{look_up_target_object}
use der_scheduling.Storage.Filenames.{convert_obj_ref_to_filename}
use der_scheduling.Storage.Save.{write_printed}
use der_scheduling.Storage.SaveController.{create_schedule_controller}
use der_scheduling.Storage.Reading.{
  Restoring, ◌>>=◌, ◌>>◌, call, required, text_of, is_done, set_unchecked, read_file_to_buffer,
}
use der_scheduling.Storage.Restore.{parse_printed}

module _ ⦃lib : Platform⦄ where
  open lib use {
    Node, Json, Text, get_child, get_item, is_string, is_array, array_size, array_item,
    value_string, parse, print, print_unformatted, object_reference,
  }

  -- Only the value in the data model is set, not the control entity of the struct.
  abbrev pub set_if_found : Node → String → World × Option Node → World
  set_if_found attr text (w, none) = w
  set_if_found attr text (w, some target) = set_unchecked (set_visible_string text) attr w

  abbrev pub set_ctl_ent_at : Option Node → String → World → World
  set_ctl_ent_at none text w = w
  set_ctl_ent_at (some attr) text w = set_if_found attr text (look_up_target_object text w)

  -- `ScheduleController_setCtlEnt`
  unfoldable pub set_ctl_ent : ℕ → String → World → World
  set_ctl_ent c text w =
      set_ctl_ent_at (get_child (some (w.controller c).controller_ln) "CtlEnt.setSrcRef") text w

  abbrev pub set_src_ref_at : Option Node → String → World → World × Bool
  set_src_ref_at none ref w = (w, false)
  set_src_ref_at (some attr) ref w = (set_unchecked (set_visible_string ref) attr w, true)

  abbrev pub set_schd_ref_at : Option Node → String → World → World × Bool
  set_schd_ref_at none ref w = (w, false)
  set_schd_ref_at (some schd) ref w = set_src_ref_at (get_child (some schd) "setSrcRef") ref w

  -- `ScheduleController_setSchdRef`
  unfoldable pub set_schd_ref : ℕ → String → String → World → World × Bool
  set_schd_ref c id ref w =
      set_schd_ref_at (get_child (some (w.controller c).controller_ln) id) ref w

  abbrev pub set_texts : ℕ → Option String → Option String → World → World
  set_texts c (some id) (some ref) w = (set_schd_ref c id ref w).0
  set_texts c _ _ w = record w { faulted = true }

  abbrev pub restore_reference_of : ℕ → Option Json → Option Json → World → World
  restore_reference_of c (some id) (some ref) w =
      if is_string id && is_string ref
      then set_texts c (value_string id) (value_string ref) w
      else w
  restore_reference_of c _ _ w = w

  -- One turn of the loop over the references; an item that lacks something is left out.
  abbrev pub restore_reference : ℕ → Option Json → World → World
  restore_reference c none w = w
  restore_reference c (some item) w =
      restore_reference_of c (get_item item "id") (get_item item "ref") w

  unfoldable pub restore_references : ℕ → Json → (count i : ℕ) → World → World
  restore_references c schedules zero i w = w
  restore_references c schedules (suc count) i w =
      restore_references c schedules count (i + 1) (restore_reference c (array_item schedules i) w)

  -- `getScheduleControllerData`, after the text is parsed.
  unfoldable pub restore_controller_items : ℕ → Json → Restoring (Unit {0})
  unfolding required
  restore_controller_items c json = do
    obj_ref ← required is_string json "objRef"
    ctl_ent ← required is_string json "ctlEnt"
    text ← text_of ctl_ent
    call (set_ctl_ent c text)
    schedules ← required is_array json "schedules"
    call (restore_references c schedules (array_size schedules) 0)

  abbrev pub restore_controller_parsed : ℕ → Option Json → World → World × Bool
  restore_controller_parsed c none w = (w, false)
  restore_controller_parsed c (some json) w = is_done (restore_controller_items c json w)

  -- `getScheduleControllerData`, of a text that may be NULL.
  unfoldable pub get_schedule_controller_data : ℕ → Option Text → World → World × Bool
  unfolding restore_controller_items
  get_schedule_controller_data c text w = restore_controller_parsed c (parse_printed text) w

  abbrev pub restore_controller_tree : ℕ → Option Json → World → World
  restore_controller_tree c none w = w
  restore_controller_tree c (some tree) w = (get_schedule_controller_data c (print tree) w).0

  abbrev pub restore_controller_buffer : ℕ → String → Option Text → World → World
  restore_controller_buffer c name (some buffer) w = restore_controller_tree c (parse buffer) w
  restore_controller_buffer c name none w =
      let tree = create_schedule_controller w c in
      restore_controller_tree c (some tree) (write_printed name (print_unformatted tree) w)

  -- `getFilenameForScheduleController`
  abbrev pub get_filename_for_schedule_controller : ℕ → World → String
  get_filename_for_schedule_controller c w =
      convert_obj_ref_to_filename (object_reference false (w.controller c).controller_ln)

  -- `SchedulerStorage_restoreScheduleController`, whose result is true on every path.
  unfoldable pub restore_schedule_controller : ℕ → World → World
  unfolding get_schedule_controller_data
  restore_schedule_controller c w =
      let name = get_filename_for_schedule_controller c w in
      restore_controller_buffer c name (read_file_to_buffer name w) w
