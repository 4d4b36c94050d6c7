-- ===== src/Controller/Notify/Active.antt =====
-- What a controller does when a schedule tells it of a new state, priority or value.
use der_scheduling.Prelude.{
  ℕ, ◌≡◌, refl, ◌∙◌, true, Option, none, some, arith, if◌then◌else◌, Bool-cases, Option-cases, inl,
  inr,
}
use der_scheduling.Platform.{Platform}
use der_scheduling.World.{World, TargetType, set_controller}
use der_scheduling.Schedule.Interval.{get_current_idx}
use der_scheduling.Controller.Select.{get_active_schedule}
use der_scheduling.Controller.Update.Frame.{
  SameStructs, SameStructs-trans, update_act_schd_ref-SameStructs, update_current_value-SameStructs,
  update_target_value-SameStructs,
}
use der_scheduling.Controller.Notify.{
  same_schedule, index_faults, follow_state, get_current_value, set_active_schedule, activate,
  deactivate, schedule_state_updated, schedule_value_updated,
}

module _ ⦃lib : Platform⦄ where
  open lib use {Value}

  abbrev pub active : World → ℕ → Option ℕ
  active w c = (w.controller c).active_schedule

  -- The world in which the new active schedule has been entered.
  abbrev pub entered : ℕ → ℕ → ℕ → World → World
  entered now c s w =
      set_active_schedule c (some s) (
        if index_faults (get_current_idx (w.schedule s) now)
        then record w { faulted = true }
        else w)

  pub activate-SameStructs :
      (now c s : ℕ) (w : World) → SameStructs (entered now c s w) (activate now c s w)
  unfolding activate
  activate-SameStructs now c s w =
      SameStructs-trans (update_act_schd_ref-SameStructs now c (some s) (entered now c s w)) (
        SameStructs-trans
          (update_current_value-SameStructs c (w.schedule s).target_type (get_current_value now w s)
            now _)
          (update_target_value-SameStructs c (w.schedule s).target_type (get_current_value now w s)
            now _))

  activate-active : (now c s : ℕ) (w : World) → active (activate now c s w) c ≡ some s
  unfolding set_active_schedule set_controller
  activate-active now c s w = rw (activate-SameStructs now c s w).controller (ground arith)

  deactivate-active : (now c : ℕ) (w : World) → active (deactivate now c w) c ≡ none
  unfolding deactivate set_active_schedule set_controller
  deactivate-active now c w = ground arith

  entered-schedule : (now c s : ℕ) (w : World) → (entered now c s w).schedule ≡ w.schedule
  unfolding set_active_schedule set_controller
  entered-schedule now c s w = ground arith

  activate-schedule : (now c s : ℕ) (w : World) → (activate now c s w).schedule ≡ w.schedule
  activate-schedule now c s w =
      (activate-SameStructs now c s w).schedule ∙ entered-schedule now c s w

  deactivate-schedule : (now c : ℕ) (w : World) → (deactivate now c w).schedule ≡ w.schedule
  unfolding deactivate set_active_schedule set_controller
  deactivate-schedule now c w =
      (update_target_value-SameStructs c TargetType.unknown none now _).schedule
      ∙ (update_current_value-SameStructs c TargetType.unknown none now _).schedule
      ∙ (update_act_schd_ref-SameStructs now c none w).schedule

  follow_state-schedule :
      (now c : ℕ) (w : World) (chosen : Option ℕ)
      → (follow_state now c chosen w).schedule ≡ w.schedule
  follow_state-schedule now c w none = deactivate-schedule now c w
  follow_state-schedule now c w (some s) = ground (arith, activate-schedule now c s w)

  -- The structs of the schedules stay as they are.
  pub schedule_state_updated-schedule :
      (now c : ℕ) (w : World) → (schedule_state_updated now c w).schedule ≡ w.schedule
  unfolding schedule_state_updated
  schedule_state_updated-schedule now c w = follow_state-schedule now c w (get_active_schedule w c)

  pub same_schedule→≡ : (s : ℕ) (o : Option ℕ) → same_schedule (some s) o ≡ true → o ≡ some s
  same_schedule→≡ s none h = cc
  same_schedule→≡ s (some t) h = ground arith

  follow_some : (now c s : ℕ) (w : World) → active (follow_state now c (some s) w) c ≡ some s
  follow_some now c s w = elim (Bool-cases (same_schedule (some s) (active w c))) [
    | inl e ↦ rw e (same_schedule→≡ s (active w c) e)
    | inr e ↦ rw e (activate-active now c s w)
  ]

  -- After a state change the controller's active schedule is the one that the selection gives.
  pub schedule_state_updated-active :
      (now c : ℕ) (w : World) → active (schedule_state_updated now c w) c ≡ get_active_schedule w c
  unfolding schedule_state_updated
  schedule_state_updated-active now c w = elim (Option-cases (get_active_schedule w c)) [
    | inl e ↦ rw (e, schedule_state_updated) (deactivate-active now c w)
    | inr (s, e) ↦ rw (e, schedule_state_updated) (follow_some now c s w)
  ]

  pub schedule_value_updated-SameStructs :
      (c s : ℕ) (val : Option Value) (now : ℕ) (w : World)
      → SameStructs w (schedule_value_updated c s val now w)
  unfolding schedule_value_updated
  schedule_value_updated-SameStructs c s val now w =
      elim (Bool-cases (same_schedule (some s) (active w c))) [
        | inl e ↦ rw e (
            SameStructs-trans
              (update_current_value-SameStructs c (w.schedule s).target_type val now w)
              (update_target_value-SameStructs c (w.schedule s).target_type val now _))
        | inr e ↦
            rw e (record { schedule = refl; controller = refl; schedules = refl; handler = refl })
      ]
