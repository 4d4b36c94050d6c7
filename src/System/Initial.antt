-- ===== src/System/Initial.antt =====
-- How the initialization of the controllers connects them to their schedules.
use der_scheduling.Prelude.{
  ℕ, refl, ◌≡◌, sym, ◌∙◌, inl, inr, true, Option, none, some, List, [], ◌∷◌, arith,
}
use der_scheduling.Platform.{Platform}
use der_scheduling.World.{World, handle_schd_src_ref, handle_ctl_ent}
use der_scheduling.Scheduler.{get_schedule_by_obj_ref}
use der_scheduling.Controller.Select.{get_active_schedule}
use der_scheduling.Controller.Update.Frame.{update_act_schd_ref-SameStructs}
use der_scheduling.Controller.Initialize.{
  connect_found, connect_value, initialize_reference, set_control_entity, look_up_value,
  initialize_entity, initialize_object, initialize_objects, initialize, initialize_controllers,
}
use der_scheduling.System.Keeps.{listed, known, Keeps, Keeps-refl, Keeps-trans, Keeps-same}
use der_scheduling.System.Status.{install-Keeps}
use der_scheduling.System.Events.{SameStructs-Keeps}
use der_scheduling.System.Access.{entity-Keeps, look_up-Keeps}
use der_scheduling.System.WellFormed.{
  AllKnown, IsWellFormed, NoDup, Keeps-AllKnown, connect-AllKnown, connect-known, connect-active,
}
use der_scheduling.Controller.Notify.Active.{active}
use der_scheduling.Controller.References.{contains, connect}

module _ ⦃lib : Platform⦄ where
  open lib use {Node, Value, get_children, to_string, mms_value}

  -- Every schedule knows each controller that lists it or has it as its active schedule.
  pub record Linked (w : World) : Type 0 where
    pub listed_known : AllKnown w
    pub active_known : (c s : ℕ) → active w c ≡ some s → contains c (known w s) ≡ true

  pub Linked-IsWellFormed : {w : World} → Linked w → ((c : ℕ) → NoDup (listed w c)) → IsWellFormed w
  Linked-IsWellFormed h distinct = record {
    distinct = distinct;
    listed_known = h.listed_known;
    active_known = h.active_known;
  }

  pub Keeps-Linked : {u w : World} → Keeps u w → Linked u → Linked w
  Keeps-Linked k h = record {
    listed_known = Keeps-AllKnown k h.listed_known;
    active_known = λ c s a. rw (k.known_same s) (elim (k.active_listed c s a) [
      | inl old ↦ h.active_known c s old
      | inr l ↦ h.listed_known c s l
    ]);
  }

  pub connect-Linked :
      (c : ℕ) (old : Option ℕ) (s : ℕ) (w : World) → Linked w → Linked (connect c old s w)
  connect-Linked c old s w h = record {
    listed_known = connect-AllKnown c old s w h.listed_known;
    active_known = λ d t a.
        connect-known c old s d t w (h.active_known d t (sym (connect-active c old s d w) ∙ a));
  }

  found-Linked : (c : ℕ) (o : Option ℕ) (w : World) → Linked w → Linked (connect_found c o w)
  found-Linked c none w h = Keeps-Linked (Keeps-same refl refl) h
  found-Linked c (some s) w h = connect-Linked c none s w h

  value-Linked : (c : ℕ) (o : Option Value) (w : World) → Linked w → Linked (connect_value c o w)
  value-Linked c none w h = h
  value-Linked c (some v) w h = found-Linked c (get_schedule_by_obj_ref w (to_string (some v))) w h

  reference-Linked :
      (c : ℕ) (o : Option Node) (w : World) → Linked w → Linked (initialize_reference c o w)
  reference-Linked c none w h = h
  reference-Linked c (some attr) w h = ground (
    arith,
    Keeps-Linked
        (install-Keeps handle_schd_src_ref c (some attr)
          (connect_value c (mms_value w.model attr) w))
        (value-Linked c (mms_value w.model attr) w h),
    h,
  )

  value-Keeps : (o : Option Value) (w : World) → Keeps w (look_up_value o w).0
  value-Keeps none w = Keeps-refl w
  value-Keeps (some v) w = look_up-Keeps (to_string (some v)) w

  entity_set-Keeps : (c : ℕ) (p : World × Option Node) → Keeps p.0 (set_control_entity c p)
  entity_set-Keeps c (w, target) = entity-Keeps c target w

  initialize_entity-Keeps :
      (c : ℕ) (o : Option Node) (w : World) → Keeps w (initialize_entity c o w)
  initialize_entity-Keeps c none w = Keeps-refl w
  initialize_entity-Keeps c (some attr) w = ground (
    arith,
    Keeps-refl w,
    Keeps-trans (value-Keeps (mms_value w.model attr) w) (
        Keeps-trans (entity_set-Keeps c (look_up_value (mms_value w.model attr) w))
          (install-Keeps handle_ctl_ent c (some attr) _)),
  )

  object-Linked : (c : ℕ) (n : Node) (w : World) → Linked w → Linked (initialize_object c n w)
  unfolding initialize_object
  object-Linked c n w h = ground (
    arith,
    h,
    reference-Linked c (lib.get_child (some n) "setSrcRef") w h,
    Keeps-Linked (initialize_entity-Keeps c (lib.get_child (some n) "setSrcRef") w) h,
  )

  objects-Linked :
      (c : ℕ) (ns : List Node) (w : World) → Linked w → Linked (initialize_objects c ns w)
  unfolding initialize_objects
  objects-Linked c [] w h = h
  objects-Linked c (n ∷ ns) w h =
      objects-Linked c ns (initialize_object c n w) (object-Linked c n w h)

  initialize-Linked : (now c : ℕ) (w : World) → Linked w → Linked (initialize now c w)
  unfolding initialize
  initialize-Linked now c w h =
      let w' = initialize_objects c (get_children (w.controller c).controller_ln) w in
      Keeps-Linked
        (SameStructs-Keeps (update_act_schd_ref-SameStructs now c (get_active_schedule w' c) w'))
        (objects-Linked c (get_children (w.controller c).controller_ln) w h)

  -- The initialization of the controllers keeps them linked with the schedules.
  pub initialize_controllers-Linked :
      (now : ℕ) (cs : List ℕ) (w : World) → Linked w → Linked (initialize_controllers now cs w)
  unfolding initialize_controllers
  initialize_controllers-Linked now [] w h = h
  initialize_controllers-Linked now (c ∷ cs) w h =
      initialize_controllers-Linked now cs (initialize now c w) (initialize-Linked now c w h)
