-- ===== src/System/Events.antt =====
-- The events that schedules send to their controllers keep the lists of both.
use der_scheduling.Prelude.{
  ℕ, ◌≡◌, refl, inl, inr, true, Option, none, some, List, [], ◌∷◌, ◌==◌, arith, Bool-cases,
}
use der_scheduling.Platform.{Platform}
use der_scheduling.World.{World, TargetType, set_controller}
use der_scheduling.Controller.References.{contains}
use der_scheduling.Controller.Select.{get_active_schedule}
use der_scheduling.Controller.Update.{
  update_act_schd_ref, update_current_value, update_target_value,
}
use der_scheduling.Controller.Update.Frame.{
  SameStructs, update_act_schd_ref-SameStructs, update_current_value-SameStructs,
  update_target_value-SameStructs,
}
use der_scheduling.Controller.Notify.{
  same_schedule, set_active_schedule, activate, deactivate, follow_state, follow_prio,
  schedule_state_updated, schedule_prio_updated,
}
use der_scheduling.Controller.Notify.Active.{
  active, entered, activate-SameStructs, schedule_value_updated-SameStructs,
}
use der_scheduling.Schedule.State.{notify_state, notify_value, notify_controllers}
use der_scheduling.Schedule.Access.{notify_prio}
use der_scheduling.System.Keeps.{
  listed, known, Keeps, Keeps-refl, Keeps-trans, Keeps-same, get_active_schedule-contains,
}

module _ ⦃lib : Platform⦄ where
  open lib use {Value}

  pub SameStructs-Keeps : {u w : World} → SameStructs u w → Keeps u w
  SameStructs-Keeps same = Keeps-same same.schedule same.controller

  -- The active schedule is reset, or set to a schedule of the list.
  set_active_schedule_none : (c : ℕ) (w : World) → Keeps w (set_active_schedule c none w)
  unfolding set_active_schedule set_controller
  set_active_schedule_none c w = record {
    known_same = λ s. refl;
    listed_same = λ d. ground arith;
    active_listed = λ d s h. inl (ground arith);
  }

  entered-Keeps :
      (now c s : ℕ) (w : World) → contains s (listed w c) ≡ true → Keeps w (entered now c s w)
  unfolding set_active_schedule set_controller
  entered-Keeps now c s w l = record {
    known_same = λ t. ground arith;
    listed_same = λ d. ground arith;
    active_listed = λ d t h. elim (Bool-cases (c == d)) [
      | inl e ↦ inr (ground arith)
      | inr e ↦ inl (ground arith)
    ];
  }

  deactivate-Keeps : (now c : ℕ) (w : World) → Keeps w (deactivate now c w)
  unfolding deactivate
  deactivate-Keeps now c w =
      let w1 = update_act_schd_ref now c none w in
      let w2 = update_current_value c TargetType.unknown none now w1 in
      Keeps-trans (SameStructs-Keeps (update_act_schd_ref-SameStructs now c none w)) (
        Keeps-trans
          (SameStructs-Keeps (update_current_value-SameStructs c TargetType.unknown none now w1))
          (Keeps-trans
            (SameStructs-Keeps (update_target_value-SameStructs c TargetType.unknown none now w2))
            (set_active_schedule_none c (update_target_value c TargetType.unknown none now w2))))

  activate-Keeps :
      (now c s : ℕ) (w : World) → contains s (listed w c) ≡ true → Keeps w (activate now c s w)
  activate-Keeps now c s w l =
      Keeps-trans (entered-Keeps now c s w l) (SameStructs-Keeps (activate-SameStructs now c s w))

  follow_state-Keeps :
      (now c : ℕ) (w : World) (chosen : Option ℕ)
      → ((s : ℕ) → chosen ≡ some s → contains s (listed w c) ≡ true)
      → Keeps w (follow_state now c chosen w)
  follow_state-Keeps now c w none h = deactivate-Keeps now c w
  follow_state-Keeps now c w (some s) h = elim (Bool-cases (same_schedule (some s) (active w c))) [
    | inl e ↦ rw e (Keeps-refl w)
    | inr e ↦ rw e (activate-Keeps now c s w (h s refl))
  ]

  schedule_state_updated-Keeps : (now c : ℕ) (w : World) → Keeps w (schedule_state_updated now c w)
  unfolding schedule_state_updated
  schedule_state_updated-Keeps now c w =
      follow_state-Keeps now c w (get_active_schedule w c) (get_active_schedule-contains w c)

  -- The active schedule without the faults that `entered` counts.
  set_active_schedule-listed :
      (c s : ℕ) (w : World)
      → contains s (listed w c) ≡ true
      → Keeps w (set_active_schedule c (some s) w)
  unfolding set_active_schedule set_controller
  set_active_schedule-listed c s w l = record {
    known_same = λ t. refl;
    listed_same = λ d. ground arith;
    active_listed = λ d t h. elim (Bool-cases (c == d)) [
      | inl e ↦ inr (ground arith)
      | inr e ↦ inl (ground arith)
    ];
  }

  follow_prio-Keeps :
      (now c : ℕ) (w : World) (chosen : Option ℕ)
      → ((s : ℕ) → chosen ≡ some s → contains s (listed w c) ≡ true)
      → Keeps w (follow_prio now c chosen w)
  follow_prio-Keeps now c w none h =
      SameStructs-Keeps (update_act_schd_ref-SameStructs now c none w)
  follow_prio-Keeps now c w (some s) h = elim (Bool-cases (same_schedule (some s) (active w c))) [
    | inl e ↦ rw e (Keeps-refl w)
    | inr e ↦ rw e (
        Keeps-trans (set_active_schedule-listed c s w (h s refl))
          (SameStructs-Keeps (update_act_schd_ref-SameStructs now c (some s) _)))
  ]

  schedule_prio_updated-Keeps : (now c : ℕ) (w : World) → Keeps w (schedule_prio_updated now c w)
  unfolding schedule_prio_updated
  schedule_prio_updated-Keeps now c w =
      follow_prio-Keeps now c w (get_active_schedule w c) (get_active_schedule-contains w c)

  pub notify_state-Keeps : (now : ℕ) (cs : List ℕ) (w : World) → Keeps w (notify_state now cs w)
  unfolding notify_state
  notify_state-Keeps now [] w = Keeps-refl w
  notify_state-Keeps now (c ∷ cs) w =
      Keeps-trans (schedule_state_updated-Keeps now c w) (notify_state-Keeps now cs _)

  pub notify_prio-Keeps : (now : ℕ) (cs : List ℕ) (w : World) → Keeps w (notify_prio now cs w)
  unfolding notify_prio
  notify_prio-Keeps now [] w = Keeps-refl w
  notify_prio-Keeps now (c ∷ cs) w =
      Keeps-trans (schedule_prio_updated-Keeps now c w) (notify_prio-Keeps now cs _)

  notify_value-Keeps :
      (cs : List ℕ) (s : ℕ) (val : Option Value) (now : ℕ) (w : World)
      → Keeps w (notify_value cs s val now w)
  unfolding notify_value
  notify_value-Keeps [] s val now w = Keeps-refl w
  notify_value-Keeps (c ∷ cs) s val now w =
      Keeps-trans (SameStructs-Keeps (schedule_value_updated-SameStructs c s val now w))
        (notify_value-Keeps cs s val now _)

  pub notify_controllers-Keeps :
      (s : ℕ) (val : Option Value) (now : ℕ) (w : World) → Keeps w (notify_controllers s val now w)
  unfolding notify_controllers
  notify_controllers-Keeps s val now w = notify_value-Keeps (known w s) s val now w
