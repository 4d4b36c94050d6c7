-- ===== src/Controller/Notify/Targets.antt =====
-- The values that a controller hands to the user of the scheduler.
use mathlib.Core.List.{append-nil}
use der_scheduling.Prelude.{
  ℕ, ◌≡◌, refl, ◌∙◌, Option, none, some, List, [], ◌++◌, arith, if◌then◌else◌, Bool-cases, inl, inr,
}
use der_scheduling.Platform.{Platform}
use der_scheduling.World.{World, TargetType, TargetValue, set_controller}
use der_scheduling.Controller.Select.{get_active_schedule}
use der_scheduling.Controller.Update.{update_current_value, update_target_value}
use der_scheduling.Controller.Update.Frame.{
  SameStructs, SameStructs-trans, target_calls, update_act_schd_ref-SameStructs,
  update_current_value-SameStructs, update_act_schd_ref-target_values,
  update_current_value-target_values, update_target_value-target_values,
}
use der_scheduling.Controller.Notify.Active.{active, entered}
use der_scheduling.Controller.Notify.{
  same_schedule, follow_state, get_current_value, set_active_schedule, activate, deactivate,
  schedule_state_updated, schedule_value_updated,
}

module _ ⦃lib : Platform⦄ where
  open lib use {Value}

  entity-entered :
      (now c s : ℕ) (w : World)
      → ((entered now c s w).controller c).control_entity ≡ (w.controller c).control_entity
  unfolding set_active_schedule set_controller
  entity-entered now c s w = ground arith

  settings-entered :
      (now c s : ℕ) (w : World)
      → ((entered now c s w).target_values ≡ w.target_values)
        × ((entered now c s w).target_value_handler ≡ w.target_value_handler)
  unfolding set_active_schedule set_controller
  settings-entered now c s w = ground arith

  -- A value that goes to the controller's value object and then to its target.
  output-target_values :
      (c : ℕ) (target : TargetType) (val : Option Value) (now : ℕ) (u w : World)
      → SameStructs u w
      → w.target_values ≡ u.target_values
      → (update_target_value c target val now
          (update_current_value c target val now w)).target_values
        ≡ u.target_values
          ++ target_calls u.target_value_handler (u.controller c).control_entity target val now
  output-target_values c target val now u w same e =
      let all = SameStructs-trans same (update_current_value-SameStructs c target val now w) in
      update_target_value-target_values c target val now _
      ∙ rw (all.handler, all.controller, update_current_value-target_values c target val now w, e)

  activate-target_values :
      (now c s : ℕ) (w : World)
      → (activate now c s w).target_values
        ≡ w.target_values
          ++ target_calls w.target_value_handler
              (w.controller c).control_entity
              (w.schedule s).target_type
              (get_current_value now w s)
              now
  unfolding activate
  activate-target_values now c s w =
      output-target_values c (w.schedule s).target_type (get_current_value now w s) now
        (entered now c s w) _ (update_act_schd_ref-SameStructs now c (some s) (entered now c s w))
        (update_act_schd_ref-target_values now c (some s) (entered now c s w))
      ∙ rw
          (entity-entered now c s w, (settings-entered now c s w).0, (settings-entered now c s w).1)

  deactivate-target_values :
      (now c : ℕ) (w : World)
      → (deactivate now c w).target_values
        ≡ w.target_values
          ++ target_calls w.target_value_handler
              (w.controller c).control_entity
              TargetType.unknown
              none
              now
  unfolding deactivate set_active_schedule set_controller
  deactivate-target_values now c w =
      output-target_values c TargetType.unknown none now w _
        (update_act_schd_ref-SameStructs now c none w)
        (update_act_schd_ref-target_values now c none w)

  -- The calls that a change of the active schedule to `chosen` makes.
  abbrev pub calls_on_state : ℕ → ℕ → World → Option ℕ → List TargetValue
  calls_on_state now c w none =
      target_calls w.target_value_handler (w.controller c).control_entity TargetType.unknown none
        now
  calls_on_state now c w (some s) =
      if same_schedule (some s) (active w c)
      then []
      else target_calls w.target_value_handler (w.controller c).control_entity
          (w.schedule s).target_type (get_current_value now w s) now

  follow_state-target_values :
      (now c : ℕ) (w : World) (chosen : Option ℕ)
      → (follow_state now c chosen w).target_values
        ≡ w.target_values ++ calls_on_state now c w chosen
  follow_state-target_values now c w none = deactivate-target_values now c w
  follow_state-target_values now c w (some s) =
      elim (Bool-cases (same_schedule (some s) (active w c))) [
        | inl e ↦ rw (e, append-nil w.target_values)
        | inr e ↦ rw e (activate-target_values now c s w)
      ]

  -- After a state change the user is told of one new value at most: the current value of a schedule
  -- that has become the active one, or no value where no schedule is running any more.
  pub schedule_state_updated-target_values :
      (now c : ℕ) (w : World)
      → (schedule_state_updated now c w).target_values
        ≡ w.target_values ++ calls_on_state now c w (get_active_schedule w c)
  unfolding schedule_state_updated
  schedule_state_updated-target_values now c w =
      follow_state-target_values now c w (get_active_schedule w c)

  -- A value of the active schedule goes to the controller's target, once; of another schedule's
  -- value the user is not told.
  pub schedule_value_updated-target_values :
      (c s : ℕ) (val : Option Value) (now : ℕ) (w : World)
      → (schedule_value_updated c s val now w).target_values
        ≡ w.target_values
          ++ (if same_schedule (some s) (active w c)
              then target_calls w.target_value_handler
                  (w.controller c).control_entity
                  (w.schedule s).target_type
                  val
                  now
              else [])
  unfolding schedule_value_updated
  schedule_value_updated-target_values c s val now w =
      elim (Bool-cases (same_schedule (some s) (active w c))) [
        | inl e ↦ rw e (
            output-target_values c (w.schedule s).target_type val now w w
              (record { schedule = refl; controller = refl; schedules = refl; handler = refl })
              refl)
        | inr e ↦ rw (e, append-nil w.target_values)
      ]
