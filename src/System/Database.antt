-- ===== src/System/Database.antt =====
-- Restoring a controller, and the storage as a whole, keeps the lists.
use der_scheduling.Prelude.{
  inl, ℕ, zero, suc, ◌+◌, refl, Bool, Option, none, some, String, arith, fold,
}
use der_scheduling.Platform.{Platform, set_visible_string}
use der_scheduling.World.{World, set_controller}
use der_scheduling.Controller.References.{look_up_target_object}
use der_scheduling.Storage.SaveController.{create_schedule_controller}
use der_scheduling.Storage.Reading.{call, read_file_to_buffer}
use der_scheduling.Storage.Restore.{parse_printed, restore_schedule}
use der_scheduling.Storage.RestoreController.{
  set_ctl_ent_at, set_if_found, set_ctl_ent, set_schd_ref, restore_reference, restore_references,
  set_texts, restore_reference_of, set_src_ref_at, set_schd_ref_at, restore_controller_items,
  restore_controller_parsed, get_schedule_controller_data, restore_controller_tree,
  restore_controller_buffer, get_filename_for_schedule_controller, restore_schedule_controller,
}
use der_scheduling.Scheduler.Database.{
  store_schedule, store_controller, restore_schedules, restore_schedule_controllers, with_storage,
  attach_storage, initialize_storage, set_target_value_handler,
}
use der_scheduling.System.Keeps.{Keeps, Keeps-refl, Keeps-trans, Keeps-same, set_schedule-Keeps}
use der_scheduling.System.Access.{look_up-Keeps}
use der_scheduling.System.Restoring.{
  KeepsLists, required-KeepsLists, call-KeepsLists, text_of-KeepsLists, done-Keeps, fold-Keeps,
  set_unchecked-Keeps,
}
use der_scheduling.System.Restored.{printed-Keeps, restore_schedule-Keeps}

module _ ⦃lib : Platform⦄ where
  open lib use {
    get_child, Node, Json, Text, Double, get_item, is_string, is_bool, is_number, is_array,
    value_string, value_int, value_double, to_uint64, array_size, array_item, parse, print,
    print_unformatted,
  }

  found-Keeps :
      (attr : Node) (text : String) (w : World) (p : World × Option Node)
      → Keeps w p.0
      → Keeps w (set_if_found attr text p)
  found-Keeps attr text w (u, none) h = h
  found-Keeps attr text w (u, some target) h =
      Keeps-trans h (set_unchecked-Keeps (set_visible_string text) attr u)

  ctl_ent_at-Keeps :
      (o : Option Node) (text : String) (w : World) → Keeps w (set_ctl_ent_at o text w)
  ctl_ent_at-Keeps none text w = Keeps-refl w
  ctl_ent_at-Keeps (some attr) text w =
      found-Keeps attr text w (look_up_target_object text w) (look_up-Keeps text w)

  ctl_ent-Keeps : (c : ℕ) (text : String) (w : World) → Keeps w (set_ctl_ent c text w)
  unfolding set_ctl_ent
  ctl_ent-Keeps c text w =
      ctl_ent_at-Keeps (get_child (some (w.controller c).controller_ln) "CtlEnt.setSrcRef") text w

  src_ref-Keeps : (o : Option Node) (ref : String) (w : World) → Keeps w (set_src_ref_at o ref w).0
  src_ref-Keeps none ref w = Keeps-refl w
  src_ref-Keeps (some attr) ref w = set_unchecked-Keeps (set_visible_string ref) attr w

  schd_ref_at-Keeps :
      (o : Option Node) (ref : String) (w : World) → Keeps w (set_schd_ref_at o ref w).0
  schd_ref_at-Keeps none ref w = Keeps-refl w
  schd_ref_at-Keeps (some schd) ref w = src_ref-Keeps (get_child (some schd) "setSrcRef") ref w

  texts-Keeps : (c : ℕ) (id ref : Option String) (w : World) → Keeps w (set_texts c id ref w)
  unfolding set_schd_ref
  texts-Keeps c (some id) (some ref) w =
      schd_ref_at-Keeps (get_child (some (w.controller c).controller_ln) id) ref w
  texts-Keeps c _ _ w = Keeps-same refl refl

  reference_of-Keeps :
      (c : ℕ) (id ref : Option Json) (w : World) → Keeps w (restore_reference_of c id ref w)
  reference_of-Keeps c (some id) (some ref) w =
      ground (arith, Keeps-refl w, texts-Keeps c (value_string id) (value_string ref) w)
  reference_of-Keeps c _ _ w = Keeps-refl w

  reference-Keeps : (c : ℕ) (o : Option Json) (w : World) → Keeps w (restore_reference c o w)
  reference-Keeps c none w = Keeps-refl w
  reference-Keeps c (some j) w = reference_of-Keeps c (get_item j "id") (get_item j "ref") w

  references-Keeps :
      (c : ℕ) (j : Json) (count i : ℕ) (w : World) → Keeps w (restore_references c j count i w)
  unfolding restore_references
  references-Keeps c j zero i w = Keeps-refl w
  references-Keeps c j (suc count) i w =
      Keeps-trans (reference-Keeps c (array_item j i) w)
        (references-Keeps c j count (i + 1) (restore_reference c (array_item j i) w))

  schedules-KeepsLists :
      (c : ℕ) (schedules : Json)
      → KeepsLists (call (restore_references c schedules (array_size schedules) 0))
  unfolding KeepsLists
  schedules-KeepsLists c schedules w = references-Keeps c schedules (array_size schedules) 0 w

  items-KeepsLists : (c : ℕ) (json : Json) → KeepsLists (restore_controller_items c json)
  unfolding restore_controller_items
  items-KeepsLists c json = required-KeepsLists _ _ _ _ λ obj_ref.
      required-KeepsLists _ _ _ _ λ ctl_ent. text_of-KeepsLists ctl_ent _ λ text.
        call-KeepsLists _ _ (ctl_ent-Keeps c text)
          (required-KeepsLists _ _ _ _ (schedules-KeepsLists c))

  parsed-Keeps : (c : ℕ) (o : Option Json) (w : World) → Keeps w (restore_controller_parsed c o w).0
  unfolding KeepsLists
  parsed-Keeps c none w = Keeps-refl w
  parsed-Keeps c (some j) w = done-Keeps w (restore_controller_items c j w) (items-KeepsLists c j w)

  tree-Keeps : (c : ℕ) (o : Option Json) (w : World) → Keeps w (restore_controller_tree c o w)
  unfolding get_schedule_controller_data
  tree-Keeps c none w = Keeps-refl w
  tree-Keeps c (some tree) w = parsed-Keeps c (parse_printed (print tree)) w

  buffer-Keeps :
      (c : ℕ) (name : String) (o : Option Text) (w : World)
      → Keeps w (restore_controller_buffer c name o w)
  buffer-Keeps c name (some buffer) w = tree-Keeps c (parse buffer) w
  buffer-Keeps c name none w =
      Keeps-trans (printed-Keeps name (print_unformatted (create_schedule_controller w c)) w)
        (tree-Keeps c (some (create_schedule_controller w c)) _)

  restore_controller-Keeps : (c : ℕ) (w : World) → Keeps w (restore_schedule_controller c w)
  unfolding restore_schedule_controller
  restore_controller-Keeps c w =
      let name = get_filename_for_schedule_controller c w in
      buffer-Keeps c name (read_file_to_buffer name w) w

  store_schedule-Keeps :
      (storage : Option String) (s : ℕ) (w : World) → Keeps w (store_schedule storage s w)
  unfolding store_schedule
  store_schedule-Keeps storage s w = set_schedule-Keeps s _ w refl

  store_controller-Keeps :
      (storage : Option String) (c : ℕ) (w : World) → Keeps w (store_controller storage c w)
  unfolding store_controller set_controller
  store_controller-Keeps storage c w = record {
    known_same = λ s. refl;
    listed_same = λ d. ground arith;
    active_listed = λ d s h. inl (ground arith);
  }

  attach-Keeps : (storage : Option String) (w : World) → Keeps w (attach_storage storage w)
  unfolding attach_storage
  attach-Keeps storage w =
      let w' = record w { storage = storage } in
      Keeps-trans (Keeps-same {w = w'} refl refl) (
        Keeps-trans
          (fold-Keeps (store_schedule storage) w.schedules w' (store_schedule-Keeps storage))
          (fold-Keeps (store_controller storage) w.schedule_controllers _
            (store_controller-Keeps storage)))

  with_storage-Keeps :
      (o : Option String) (f : World → World) (w : World)
      → Keeps w (f w)
      → Keeps w (with_storage o f w)
  with_storage-Keeps none f w h = Keeps-refl w
  with_storage-Keeps (some uri) f w h = h

  pub initialize_storage-Keeps :
      (now : ℕ) (uri : String) (w : World) → Keeps w (initialize_storage now uri w)
  unfolding initialize_storage restore_schedules restore_schedule_controllers
  initialize_storage-Keeps now uri w =
      let w1 = attach_storage (some uri) w in
      let w2 = restore_schedules now w1 in
      Keeps-trans (attach-Keeps (some uri) w) (
        Keeps-trans
          (with_storage-Keeps w1.storage (fold (restore_schedule now) w1.schedules) w1
            (fold-Keeps (restore_schedule now) w1.schedules w1 (restore_schedule-Keeps now)))
          (with_storage-Keeps w2.storage (fold restore_schedule_controller w2.schedule_controllers)
            w2
            (fold-Keeps restore_schedule_controller w2.schedule_controllers w2
              restore_controller-Keeps)))

  pub handler-Keeps : (handler : Bool) (w : World) → Keeps w (set_target_value_handler handler w)
  unfolding set_target_value_handler
  handler-Keeps handler w = Keeps-same refl refl
