-- ===== src/Storage/RestoreController/References.antt =====
-- The references of a schedule controller, as createScheduleController of storage_json.c writes them
-- and getScheduleControllerData reads them.
use mathlib.Core.List.{append_assoc, append-nil}
use der_scheduling.Prelude.{
  length, length-append, ℕ, zero, suc, ◌+◌, ◌≡◌, refl, ap, ◌∙◌, Option, none, some, String, List,
  [], ◌∷◌, ◌++◌, arith,
}
use der_scheduling.Platform.{Platform}
use der_scheduling.World.{World}
use der_scheduling.Storage.SaveController.{
  add_references, add_reference, parent_name, get_schedule_reference_with_idx,
}
use der_scheduling.Storage.RestoreController.{set_schd_ref, restore_reference, restore_references}

module _ ⦃lib : Platform⦄ where
  open lib use {
    Node, Json, mms_value, to_string, get_parent, get_item, is_string, value_string, create_object,
    create_string, create_array, array_size-create_array, add_item_to_object, add_item_to_array,
    array_size, array_item, get_item-create_object, get_item-add_item_to_object,
    create_string-holds, array_size-add_item_to_array, array_item-add_item_to_array,
  }

  -- A reference as the name of the object it stands in and the reference itself.
  abbrev pub reference_of : World → Option Node → List (String × String)
  reference_of v none = []
  reference_of v (some attr) =
      (parent_name (get_parent attr), to_string (mms_value v.model attr)) ∷ []

  -- The references with the indices `idx`, ..., `idx + count - 1` that the data model has.
  unfoldable pub references_from : World → Node → (count idx : ℕ) → List (String × String)
  references_from v ln zero idx = []
  references_from v ln (suc count) idx =
      reference_of v (get_schedule_reference_with_idx ln idx)
      ++ references_from v ln count (idx + 1)

  -- Each reference is set in the object of its name, one after the other.
  unfoldable pub set_references : ℕ → List (String × String) → World → World
  set_references c [] w = w
  set_references c ((id, ref) ∷ refs) w = set_references c refs (set_schd_ref c id ref w).0

  abbrev reference_json : String → String → Json
  reference_json id ref =
      add_item_to_object (add_item_to_object create_object "id" (create_string id)) "ref"
        (create_string ref)

  item_id : (id ref : String) → get_item (reference_json id ref) "id" ≡ some (create_string id)
  item_id id ref = simp (get_item-add_item_to_object, get_item-create_object)

  item_ref : (id ref : String) → get_item (reference_json id ref) "ref" ≡ some (create_string ref)
  item_ref id ref = simp (get_item-add_item_to_object, get_item-create_object)

  restore-reference_json :
      (c : ℕ) (id ref : String) (w : World)
      → restore_reference c (some (reference_json id ref)) w ≡ (set_schd_ref c id ref w).0
  restore-reference_json c id ref w =
      rw
        (
          item_id id ref,
          item_ref id ref,
          (create_string-holds id).0,
          (create_string-holds ref).0,
          (create_string-holds id).1,
          (create_string-holds ref).1,
        )
        refl

  -- The array has the references as its elements from `i` on.
  unfoldable Holds : Json → ℕ → List (String × String) → Type 0
  Holds array i [] = Unit {0}
  Holds array i ((id, ref) ∷ refs) =
      (array_item array i ≡ some (reference_json id ref)) × Holds array (i + 1) refs

  restore_references-Holds :
      (c : ℕ) (array : Json) (i : ℕ) (refs : List (String × String)) (w : World)
      → Holds array i refs
      → restore_references c array (length refs) i w ≡ set_references c refs w
  unfolding restore_references set_references Holds
  restore_references-Holds c array i [] w h = refl
  restore_references-Holds c array i ((id, ref) ∷ refs) w (e, h) =
      ap (λ o. restore_references c array (length refs) (i + 1) (restore_reference c o w)) e
      ∙ ap (restore_references c array (length refs) (i + 1)) (restore-reference_json c id ref w)
      ∙ restore_references-Holds c array (i + 1) refs (set_schd_ref c id ref w).0 h

  Holds-add :
      (array : Json) (i : ℕ) (refs : List (String × String)) (id ref : String)
      → Holds array i refs
      → i + length refs ≡ array_size array
      → Holds (add_item_to_array array (reference_json id ref)) i (refs ++ ((id, ref) ∷ []))
  unfolding Holds
  Holds-add array i [] id ref h size =
      (array_item-add_item_to_array array (reference_json id ref) i ∙ ground (arith, size), tt)
  Holds-add array i ((id', ref') ∷ refs) id ref (e, h) size = (
    array_item-add_item_to_array array (reference_json id ref) i ∙ ground (arith, size, e),
    Holds-add array (i + 1) refs id ref h (omega (arith, size)),
  )

  -- The array is made of the references.
  abbrev IsMadeOf : Json → List (String × String) → Type 0
  IsMadeOf array refs = Holds array 0 refs × (length refs ≡ array_size array)

  add_reference-IsMadeOf :
      (v : World) (o : Option Node) (array : Json) (refs : List (String × String))
      → IsMadeOf array refs
      → IsMadeOf (add_reference v o array) (refs ++ reference_of v o)
  add_reference-IsMadeOf v none array refs h = rw (append-nil refs) h
  add_reference-IsMadeOf v (some attr) array refs (h, size) = (
    Holds-add array 0 refs _ _ h (omega (arith, size)),
    length-append refs (reference_of v (some attr))
        ∙ omega (
          arith,
          size,
          array_size-add_item_to_array array
              (reference_json (parent_name (get_parent attr)) (to_string (mms_value v.model attr))),
        ),
  )

  add_references-IsMadeOf :
      (v : World) (ln : Node) (count idx : ℕ) (array : Json) (refs : List (String × String))
      → IsMadeOf array refs
      → IsMadeOf (add_references v ln count idx array) (refs ++ references_from v ln count idx)
  unfolding add_references references_from
  add_references-IsMadeOf v ln zero idx array refs h = rw (append-nil refs) h
  add_references-IsMadeOf v ln (suc count) idx array refs h =
      let o = get_schedule_reference_with_idx ln idx in
      rw (← append_assoc refs (reference_of v o) (references_from v ln count (idx + 1))) (
        add_references-IsMadeOf v ln count (idx + 1) (add_reference v o array)
          (refs ++ reference_of v o) (add_reference-IsMadeOf v o array refs h))

  no_elements : IsMadeOf create_array []
  unfolding Holds
  no_elements = (tt, omega (arith, array_size-create_array))

  -- The references that are read from the array are those of the data model that it was made from.
  pub restore_references-add_references :
      (c : ℕ) (v : World) (ln : Node) (count : ℕ) (w : World)
      → let array = add_references v ln count 0 create_array in
        restore_references c array (array_size array) 0 w
        ≡ set_references c (references_from v ln count 0) w
  restore_references-add_references c v ln count w =
      let (h, size) = add_references-IsMadeOf v ln count 0 create_array [] no_elements in
      rw (← size) (restore_references-Holds c _ 0 _ w h)
