-- ===== src/Controller/References.antt =====
-- What a client may write to a schedule controller: its references to schedules and its control
-- entity (schedule_controller.c).
use Prim.Native.Char.{code}
use der_scheduling.Prelude.{
  ℕ, Bool, true, false, Option, none, some, List, [], ◌∷◌, ◌++◌, String, if◌then◌else◌, ◌==◌, ◌||◌,
}
use der_scheduling.Platform.{Platform, attribute_value}
use der_scheduling.World.{
  World, DataAccessError, success_no_update, object_value_invalid, update, set_schedule,
  set_controller,
}
use der_scheduling.Scheduler.{get_schedule_by_obj_ref}
use der_scheduling.Storage.SaveController.{save_controller_if_stored}

-- `LinkedList_contains`, `LinkedList_add` and `LinkedList_remove` on pointers.
unfoldable pub contains : ℕ → List ℕ → Bool
contains a [] = false
contains a (x ∷ xs) = (x == a) || contains a xs

abbrev pub add_last : ℕ → List ℕ → List ℕ
add_last a xs = xs ++ (a ∷ [])

unfoldable pub remove_first : ℕ → List ℕ → List ℕ
remove_first a [] = []
remove_first a (x ∷ xs) = if x == a then xs else x ∷ remove_first a xs

abbrev pub without : Option ℕ → List ℕ → List ℕ
without none xs = xs
without (some old) xs = remove_first old xs

module _ ⦃lib : Platform⦄ where
  open lib use {Node, Value, mms_value, to_string, node_by_reference}

  -- `Schedule_setListeningController`
  unfoldable pub set_listening_controller : ℕ → ℕ → World → World
  unfolding contains
  set_listening_controller s c w =
      if contains c (w.schedule s).known_schedule_controllers
      then w
      else set_schedule s
          (record (w.schedule s) {
            known_schedule_controllers = add_last c (w.schedule s).known_schedule_controllers;
          })
          w

  -- `scheduleController_lookUpTargetObject`: an empty reference gives NULL, and a reference to no
  -- node is followed as NULL.
  unfoldable pub target_reference : String → String
  target_reference String.[] = String.[]
  target_reference (String.◌∷◌ c ref) = if code c == b'@' then ref else String.◌∷◌ c ref

  abbrev pub fault_if_missing : Option Node → World → World × Option Node
  fault_if_missing none w = (record w { faulted = true }, none)
  fault_if_missing (some n) w = (w, some n)

  unfoldable pub look_up_target_object : String → World → World × Option Node
  unfolding target_reference
  look_up_target_object String.[] w = (w, none)
  look_up_target_object (String.◌∷◌ c ref) w =
      fault_if_missing (node_by_reference (target_reference (String.◌∷◌ c ref))) w

  abbrev pub set_entity : ℕ → Node → Value → World × Option Node → World × DataAccessError
  set_entity c attr v (w, none) = (w, object_value_invalid)
  set_entity c attr v (w, some target) = (
    save_controller_if_stored c (
        update (attribute_value v) attr
          (set_controller c (record (w.controller c) { control_entity = some target }) w)),
    success_no_update,
  )

  -- `ctlEnt_setSrcRef_writeAccessHandler`
  unfoldable pub ctl_ent_write_access_handler : ℕ → Node → Value → World → World × DataAccessError
  ctl_ent_write_access_handler c attr v w =
      set_entity c attr v (look_up_target_object (to_string (some v)) w)

  abbrev pub old_schedule : World → Option Value → Option ℕ
  old_schedule w none = none
  old_schedule w (some v) = get_schedule_by_obj_ref w (to_string (some v))

  -- The reference's old schedule leaves the list, and the new one is added at its end.
  unfoldable pub connect : ℕ → Option ℕ → ℕ → World → World
  unfolding remove_first set_listening_controller
  connect c old s w = set_listening_controller s c (
      set_controller c
        (record (w.controller c) {
          schedules = add_last s (without old (w.controller c).schedules);
        })
        w)

  abbrev pub connect_new : ℕ → Node → Value → Option ℕ → World → World × DataAccessError
  connect_new c attr v none w = (w, object_value_invalid)
  connect_new c attr v (some s) w =
      if contains s (w.controller c).schedules then (w, object_value_invalid) else (
        save_controller_if_stored c (
            update (attribute_value v) attr
              (connect c (old_schedule w (mms_value w.model attr)) s w)),
        success_no_update,
      )

  -- `schd_setSrcRef_writeAccessHandler`
  unfoldable pub schd_set_src_ref_write_access_handler :
      ℕ → Node → Value → World → World × DataAccessError
  unfolding connect contains
  schd_set_src_ref_write_access_handler c attr v w =
      connect_new c attr v (get_schedule_by_obj_ref w (to_string (some v))) w
