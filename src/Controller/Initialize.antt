-- ===== src/Controller/Initialize.antt =====
-- ScheduleController_initialize of schedule_controller.c: the references in the data model are
-- followed once, and the write handlers are installed.
use text.Mathlib.Text.{◌==◌ as str_eq}
use der_scheduling.Prelude.{ℕ, Bool, true, false, Option, none, some, List, [], ◌∷◌, if◌then◌else◌}
use der_scheduling.Platform.{Platform, AttributeType, visible_string_129}
use der_scheduling.World.{World, set_controller, install, handle_schd_src_ref, handle_ctl_ent}
use der_scheduling.Names.{codes, check_if_multi_obj_inst}
use der_scheduling.Scheduler.{get_schedule_by_obj_ref}
use der_scheduling.Controller.Select.{get_active_schedule}
use der_scheduling.Controller.Update.{update_act_schd_ref}
use der_scheduling.Controller.References.{connect, look_up_target_object}

abbrev is_visible_string : AttributeType → Bool
is_visible_string visible_string_129 = true
is_visible_string _ = false

module _ ⦃lib : Platform⦄ where
  open lib use {
    Node, Value, get_child, get_children, node_name, attribute_type, mms_value, to_string,
  }

  -- A reference to no schedule: NULL is added to the list and then followed.
  abbrev pub connect_found : ℕ → Option ℕ → World → World
  connect_found c none w = record w { faulted = true }
  connect_found c (some s) w = connect c none s w

  abbrev pub connect_value : ℕ → Option Value → World → World
  connect_value c none w = w
  connect_value c (some v) w = connect_found c (get_schedule_by_obj_ref w (to_string (some v))) w

  abbrev pub initialize_reference : ℕ → Option Node → World → World
  initialize_reference c none w = w
  initialize_reference c (some attr) w =
      if is_visible_string (attribute_type attr)
      then install handle_schd_src_ref c (some attr) (connect_value c (mms_value w.model attr) w)
      else w

  abbrev pub set_control_entity : ℕ → World × Option Node → World
  set_control_entity c (w, target) =
      set_controller c (record (w.controller c) { control_entity = target }) w

  abbrev pub look_up_value : Option Value → World → World × Option Node
  look_up_value none w = (w, none)
  look_up_value (some v) w = look_up_target_object (to_string (some v)) w

  abbrev pub initialize_entity : ℕ → Option Node → World → World
  initialize_entity c none w = w
  initialize_entity c (some attr) w =
      if is_visible_string (attribute_type attr)
      then install handle_ctl_ent c (some attr)
          (set_control_entity c (look_up_value (mms_value w.model attr) w))
      else w

  unfoldable pub initialize_object : ℕ → Node → World → World
  initialize_object c n w =
      if check_if_multi_obj_inst (codes (node_name n)) (codes "Schd")
      then initialize_reference c (get_child (some n) "setSrcRef") w
      else if str_eq (node_name n) "CtlEnt"
      then initialize_entity c (get_child (some n) "setSrcRef") w
      else w

  unfoldable pub initialize_objects : ℕ → List Node → World → World
  unfolding initialize_object
  initialize_objects c [] w = w
  initialize_objects c (n ∷ ns) w = initialize_objects c ns (initialize_object c n w)

  -- `ScheduleController_initialize`
  unfoldable pub initialize : ℕ → ℕ → World → World
  unfolding initialize_objects
  initialize now c w =
      let w' = initialize_objects c (get_children (w.controller c).controller_ln) w in
      update_act_schd_ref now c (get_active_schedule w' c) w'

  -- `scheduler_initializeScheduleControllers` of der_scheduler.c
  unfoldable pub initialize_controllers : ℕ → List ℕ → World → World
  unfolding initialize
  initialize_controllers now [] w = w
  initialize_controllers now (c ∷ cs) w = initialize_controllers now cs (initialize now c w)
