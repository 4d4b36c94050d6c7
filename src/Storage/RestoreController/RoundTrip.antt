-- ===== src/Storage/RestoreController/RoundTrip.antt =====
-- What restoring a schedule controller makes of the tree that saving it has made (storage_json.c).
use der_scheduling.Prelude.{ℕ, Bool, true, false, Option, none, some, String, List}
use der_scheduling.Platform.{Platform}
use der_scheduling.World.{World}
use der_scheduling.Storage.SaveController.{
  add_references, add_ctl_ent, get_number_of_schedule_references,
}
use der_scheduling.Storage.RestoreController.{set_ctl_ent}
use der_scheduling.Storage.RestoreController.References.{references_from, set_references}

module _ ⦃lib : Platform⦄ where
  open lib use {
    Node, Json, Text, create_object, add_item_to_object, get_child, get_item, is_string, is_array,
    array_size, value_string, create_string, create_array, object_reference, mms_value, to_string,
    get_item-create_object, get_item-add_item_to_object, create_string-holds, is_array-create_array,
    is_array-add_item_to_array,
  }

  abbrev pub ctl_ent_attribute : World → ℕ → Option Node
  ctl_ent_attribute w c = get_child (some (w.controller c).controller_ln) "CtlEnt.setSrcRef"

  abbrev saved_references : World → ℕ → Json
  saved_references w c =
      let ln = (w.controller c).controller_ln in
      add_references w ln (get_number_of_schedule_references ln) 0 create_array

  -- Nothing, where the tree has no control entity; or else the entity and then the references.
  unfoldable pub restored_controller :
      ℕ → World → Option Node → List (String × String) → World → World × Bool
  restored_controller c v none refs w = (w, false)
  restored_controller c v (some attr) refs w =
      (set_references c refs (set_ctl_ent c (to_string (mms_value v.model attr)) w), true)

  -- The references that the data model has, by the name of their object and their text.
  abbrev pub references : World → ℕ → List (String × String)
  references v c =
      let ln = (v.controller c).controller_ln in
      references_from v ln (get_number_of_schedule_references ln) 0

  -- The tree, by the attribute of the control entity.
  abbrev tree : World → String → Option Node → Json → Json
  tree v ref o references =
      add_item_to_object
        (add_ctl_ent v o (add_item_to_object create_object "objRef" (create_string ref)))
        "schedules" references
