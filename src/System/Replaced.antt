-- ===== src/System/Replaced.antt =====
-- What the write of a reference does: the new schedule is connected, and the old one stays active.
use der_scheduling.Prelude.{
  ℕ, ◌≡◌, ◌≢◌, refl, ap, ◌∙◌, true, false, Option, none, some, List, [], ◌∷◌, ◌++◌, ◌==◌, ==_iff,
  arith, inl, inr, Bool-cases,
}
use der_scheduling.Platform.{Platform, attribute_value}
use der_scheduling.World.{World, success_no_update, update}
use der_scheduling.Scheduler.{get_schedule_by_obj_ref}
use der_scheduling.Storage.SaveController.{
  save_controller_if_stored, save_controller_if_stored-files,
}
use der_scheduling.Controller.References.{
  contains, add_last, remove_first, without, old_schedule, connect, connect_new,
  schd_set_src_ref_write_access_handler,
}
use der_scheduling.Controller.Notify.{schedule_value_updated}
use der_scheduling.Controller.Notify.Targets.{schedule_value_updated-target_values}
use der_scheduling.Controller.Update.Frame.{target_calls}
use der_scheduling.System.Keeps.{listed, known, Keeps}
use der_scheduling.System.Reachable.{stored_reference-Keeps}
use der_scheduling.System.WellFormed.{
  NoDup, IsWellFormed, active, contains-add_last, connect-active, connect-listed,
  connect-known_self,
}

remove_first-gone : (a : ℕ) (xs : List ℕ) → NoDup xs → contains a (remove_first a xs) ≡ false
unfolding contains remove_first
remove_first-gone a [] h = refl
remove_first-gone a (x ∷ xs) h = elim (Bool-cases (x == a)) [
  | inl e ↦ rw e (rw (← (==_iff x a).0 e) h.0)
  | inr e ↦ rw (e, contains) (ground (arith, remove_first-gone a xs h.1))
]

differ : (xs : List ℕ) (s a : ℕ) → contains s xs ≡ false → contains a xs ≡ true → (s == a) ≡ false
differ xs s a f l = elim (Bool-cases (s == a)) [
  | inl e ↦ absurd (cc (ap (λ (x : ℕ). contains x xs) ((==_iff s a).0 e), f, l))
  | inr e ↦ e
]

module _ ⦃lib : Platform⦄ where
  open lib use {Node, Value, mms_value, to_string}

  -- The world after an accepted write.
  abbrev pub stored : ℕ → Node → Value → ℕ → World → World
  stored c attr v s w =
      save_controller_if_stored c
        (update (attribute_value v) attr (connect c (old_schedule w (mms_value w.model attr)) s w))

  pub accepted_write :
      (c s : ℕ) (attr : Node) (v : Value) (w : World)
      → get_schedule_by_obj_ref w (to_string (some v)) ≡ some s
      → contains s (listed w c) ≡ false
      → schd_set_src_ref_write_access_handler c attr v w ≡ (stored c attr v s w, success_no_update)
  unfolding schd_set_src_ref_write_access_handler
  accepted_write c s attr v w e f = rw (e, connect_new) (rw f refl)

  connect_new-refused :
      (c : ℕ) (attr : Node) (v : Value) (o : Option ℕ) (w : World)
      → (connect_new c attr v o w).1 ≢ success_no_update
      → (connect_new c attr v o w).0 ≡ w
  connect_new-refused c attr v none w h = refl
  connect_new-refused c attr v (some s) w h = ground arith

  -- A write of a reference that is refused changes nothing.
  pub reference_write_refused :
      (c : ℕ) (attr : Node) (v : Value) (w : World)
      → (schd_set_src_ref_write_access_handler c attr v w).1 ≢ success_no_update
      → (schd_set_src_ref_write_access_handler c attr v w).0 ≡ w
  unfolding schd_set_src_ref_write_access_handler
  reference_write_refused c attr v w h =
      connect_new-refused c attr v (get_schedule_by_obj_ref w (to_string (some v))) w h

  module _ (c s : ℕ) (attr : Node) (v : Value) (w : World) where
    abbrev old : Option ℕ
    old = old_schedule w (mms_value w.model attr)

    stored-Keeps : Keeps (connect c old s w) (stored c attr v s w)
    stored-Keeps = stored_reference-Keeps c attr v (connect c old s w)

    stored-listed : listed (stored c attr v s w) c ≡ listed (connect c old s w) c
    stored-listed = stored-Keeps.listed_same c

    stored-active : active (stored c attr v s w) c ≡ active w c
    unfolding update
    stored-active =
        ap (λ (u : World). (u.controller c).active_schedule)
          (save_controller_if_stored-files c (update (attribute_value v) attr (connect c old s w)))
        ∙ connect-active c old s c w

    connect-listed_here : listed (connect c old s w) c ≡ add_last s (without old (listed w c))
    connect-listed_here = connect-listed c old s c w ∙ ground arith

    -- A reference to a schedule that the scheduler has and that the controller does not list yet is
    -- accepted: the controller then lists the schedule, and the schedule knows the controller.
    pub reference_write-connects :
        get_schedule_by_obj_ref w (to_string (some v)) ≡ some s
        → contains s (listed w c) ≡ false
        → let (w', result) = schd_set_src_ref_write_access_handler c attr v w in
          (result ≡ success_no_update)
          × (contains s (listed w' c) ≡ true)
          × (contains c (known w' s) ≡ true)
    reference_write-connects e f = rw (accepted_write c s attr v w e f) (
      refl,
      ap (contains s) (stored-listed ∙ connect-listed_here)
          ∙ contains-add_last s s (without old (listed w c))
          ∙ ground arith,
      ap (contains c) (stored-Keeps.known_same s) ∙ connect-known_self c old s w,
    )

    replaced-unlisted :
        (a : ℕ)
        → IsWellFormed w
        → old ≡ some a
        → contains s (listed w c) ≡ false
        → contains a (listed w c) ≡ true
        → contains a (listed (stored c attr v s w) c) ≡ false
    replaced-unlisted a h o f l =
        ap (contains a) (stored-listed ∙ connect-listed_here)
        ∙ contains-add_last a s (without old (listed w c))
        ∙ rw o (
            ground
              (arith, remove_first-gone a (listed w c) (h.distinct c), differ (listed w c) s a f l))

    -- A schedule whose reference is replaced while it is the active one leaves the controller's list,
    -- but stays the active schedule, and its next value goes to the target.
    pub replaced-still_active :
        (a : ℕ) (val : Option Value) (now : ℕ)
        → IsWellFormed w
        → get_schedule_by_obj_ref w (to_string (some v)) ≡ some s
        → contains s (listed w c) ≡ false
        → old_schedule w (mms_value w.model attr) ≡ some a
        → contains a (listed w c) ≡ true
        → active w c ≡ some a
        → let (w', result) = schd_set_src_ref_write_access_handler c attr v w in
          (contains a (listed w' c) ≡ false)
          × (active w' c ≡ some a)
          × ((schedule_value_updated c a val now w').target_values
              ≡ w'.target_values
                ++ target_calls w'.target_value_handler
                    (w'.controller c).control_entity
                    (w'.schedule a).target_type
                    val
                    now)
    replaced-still_active a val now h e f o l act =
        let w' = stored c attr v s w in
        rw (accepted_write c s attr v w e f) (
          replaced-unlisted a h o f l,
          stored-active ∙ act,
          schedule_value_updated-target_values c a val now w'
              ∙ rw (stored-active ∙ act) (ground arith),
        )
