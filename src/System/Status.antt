-- ===== src/System/Status.antt =====
-- The functions that write a schedule's status keep the lists of schedules and controllers.
use der_scheduling.Prelude.{ℕ, refl, ap, Bool, Option, String, arith, inl, inr, Bool-cases}
use der_scheduling.Prelude.Int.{ℤ}
use der_scheduling.Platform.{Platform, Write}
use der_scheduling.World.{
  World, ScheduleState, ScheduleEnablingError, update, update_at, Handler, install,
}
use der_scheduling.Storage.Save.{save_if_stored, save_if_stored-files}
use der_scheduling.Storage.SaveController.{
  save_controller_if_stored, save_controller_if_stored-files,
}
use der_scheduling.Schedule.State.{
  same_state, write_state, set_state, update_state, update_schedule_enable_error,
  update_int_status_value, update_time_status, set_act_str_tm_quality, update_current_value_quality,
  update_current_value, update_schd_entr,
}
use der_scheduling.Schedule.Getters.{get_state}
use der_scheduling.System.Keeps.{known, Keeps, Keeps-refl, Keeps-trans, Keeps-same}
use der_scheduling.System.Events.{notify_state-Keeps}

module _ ⦃lib : Platform⦄ where
  open lib use {Node, Value}

  pub update-Keeps : (u : Write Value) (n : Node) (w : World) → Keeps w (update u n w)
  unfolding update
  update-Keeps u n w = Keeps-same refl refl

  pub install-Keeps :
      (h : Handler) (owner : ℕ) (n : Option Node) (w : World) → Keeps w (install h owner n w)
  unfolding install
  install-Keeps h owner n w = Keeps-same refl refl

  pub save-Keeps : (s : ℕ) (w : World) → Keeps w (save_if_stored s w)
  save-Keeps s w =
      Keeps-same (ap (λ (u : World). u.schedule) (save_if_stored-files s w))
        (ap (λ (u : World). u.controller) (save_if_stored-files s w))

  pub save_controller-Keeps : (c : ℕ) (w : World) → Keeps w (save_controller_if_stored c w)
  save_controller-Keeps c w =
      Keeps-same (ap (λ (u : World). u.schedule) (save_controller_if_stored-files c w))
        (ap (λ (u : World). u.controller) (save_controller_if_stored-files c w))

  write_state-Keeps :
      (now s : ℕ) (state : ScheduleState) (w : World) → Keeps w (write_state now s state w)
  unfolding write_state update_at
  write_state-Keeps now s state w = Keeps-same (ground arith) (ground arith)

  pub set_state-Keeps :
      (now s : ℕ) (state : ScheduleState) (w : World) → Keeps w (set_state now s state w)
  unfolding set_state
  set_state-Keeps now s state w =
      let saved = save_if_stored s (write_state now s state w) in
      Keeps-trans (write_state-Keeps now s state w) (
        Keeps-trans (save-Keeps s (write_state now s state w))
          (notify_state-Keeps now (known saved s) saved))

  pub update_state-Keeps :
      (now s : ℕ) (state : ScheduleState) (w : World) → Keeps w (update_state now s state w)
  unfolding update_state
  update_state-Keeps now s state w = elim (Bool-cases (same_state (get_state w s) state)) [
    | inl e ↦ rw e (Keeps-refl w)
    | inr e ↦ rw e (set_state-Keeps now s state w)
  ]

  pub update_schedule_enable_error-Keeps :
      (now s : ℕ) (err : ScheduleEnablingError) (w : World)
      → Keeps w (update_schedule_enable_error now s err w)
  unfolding update_schedule_enable_error update_int_status_value update_at
  update_schedule_enable_error-Keeps now s err w = Keeps-same (ground arith) (ground arith)

  pub update_time_status-Keeps :
      (now s start : ℕ) (name : String) (w : World)
      → Keeps w (update_time_status now s start name w)
  unfolding update_time_status update_at
  update_time_status-Keeps now s start name w = Keeps-same (ground arith) (ground arith)

  pub set_act_str_tm_quality-Keeps :
      (now s : ℕ) (bad : Bool) (w : World) → Keeps w (set_act_str_tm_quality now s bad w)
  unfolding set_act_str_tm_quality update_at
  set_act_str_tm_quality-Keeps now s bad w = Keeps-same (ground arith) (ground arith)

  pub update_current_value_quality-Keeps :
      (now s : ℕ) (bad : Bool) (w : World) → Keeps w (update_current_value_quality now s bad w)
  unfolding update_current_value_quality update_at
  update_current_value_quality-Keeps now s bad w = Keeps-same (ground arith) (ground arith)

  pub update_current_value-Keeps :
      (now s : ℕ) (v : Value) (w : World) → Keeps w (update_current_value now s v w)
  unfolding update_current_value update_at
  update_current_value-Keeps now s v w = Keeps-same (ground arith) (ground arith)

  pub update_schd_entr-Keeps :
      (now s : ℕ) (idx : ℤ) (w : World) → Keeps w (update_schd_entr now s idx w)
  unfolding update_schd_entr update_at
  update_schd_entr-Keeps now s idx w = Keeps-same (ground arith) (ground arith)
