-- ===== src/Controller/Notify/Priority.antt =====
-- What a controller does when a schedule tells it of a new priority.
use der_scheduling.Prelude.{ℕ, ◌≡◌, refl, Option, none, some, arith, Bool-cases, inl, inr}
use der_scheduling.Platform.{Platform}
use der_scheduling.World.{World, set_controller}
use der_scheduling.Controller.Select.{get_active_schedule}
use der_scheduling.Controller.Update.Frame.{
  update_act_schd_ref-SameStructs, update_act_schd_ref-target_values,
}
use der_scheduling.Controller.Notify.Active.{active, same_schedule→≡}
use der_scheduling.Controller.Notify.{
  same_schedule, follow_prio, set_active_schedule, schedule_prio_updated,
}

module _ ⦃lib : Platform⦄ where
  abbrev pub kept_if_none : Option ℕ → Option ℕ → Option ℕ
  kept_if_none none old = old
  kept_if_none (some s) old = some s

  follow_prio-silent :
      (now c : ℕ) (w : World) (chosen : Option ℕ)
      → (active (follow_prio now c chosen w) c ≡ kept_if_none chosen (active w c))
        × ((follow_prio now c chosen w).target_values ≡ w.target_values)
  unfolding set_active_schedule set_controller
  follow_prio-silent now c w none = (
    rw (update_act_schd_ref-SameStructs now c none w).controller,
    update_act_schd_ref-target_values now c none w,
  )
  follow_prio-silent now c w (some s) = elim (Bool-cases (same_schedule (some s) (active w c))) [
    | inl e ↦ rw e (same_schedule→≡ s (active w c) e, refl)
    | inr e ↦ rw e (
      rw (update_act_schd_ref-SameStructs now c (some s) _).controller (ground arith),
      update_act_schd_ref-target_values now c (some s) _,
    )
  ]

  -- After a change of priority the controller's active schedule is the one that the selection
  -- gives, or the old one where none is running; and the user is told of no value, even if the
  -- active schedule has changed.
  pub schedule_prio_updated-silent :
      (now c : ℕ) (w : World)
      → (active (schedule_prio_updated now c w) c
          ≡ kept_if_none (get_active_schedule w c) (active w c))
        × ((schedule_prio_updated now c w).target_values ≡ w.target_values)
  unfolding schedule_prio_updated
  schedule_prio_updated-silent now c w = follow_prio-silent now c w (get_active_schedule w c)
