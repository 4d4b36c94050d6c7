-- ===== src/Schedule/State/Frame.antt =====
-- The structs of the schedules are changed by none of the functions that write a schedule's status,
-- save it, or tell its controllers.
use der_scheduling.Prelude.{ℕ, ◌≡◌, refl, ap, ◌∙◌, Bool, Option, List, [], ◌∷◌, String, arith}
use der_scheduling.Prelude.Int.{ℤ}
use der_scheduling.Platform.{Platform}
use der_scheduling.World.{World, ScheduleState, ScheduleEnablingError, update_at}
use der_scheduling.Storage.Save.{save_if_stored, save_if_stored-files}
use der_scheduling.Controller.Notify.{schedule_state_updated}
use der_scheduling.Controller.Notify.Active.{
  schedule_state_updated-schedule, schedule_value_updated-SameStructs,
}
use der_scheduling.Schedule.State.{
  notify_state, write_state, set_state, update_state, update_schedule_enable_error,
  update_int_status_value, update_time_status, set_act_str_tm_quality, update_current_value_quality,
  update_current_value, update_schd_entr, notify_value, notify_controllers,
}

module _ ⦃lib : Platform⦄ where
  open lib use {Value}

  notify_state-schedule :
      (now : ℕ) (cs : List ℕ) (w : World) → (notify_state now cs w).schedule ≡ w.schedule
  unfolding notify_state
  notify_state-schedule now [] w = refl
  notify_state-schedule now (c ∷ cs) w =
      notify_state-schedule now cs (schedule_state_updated now c w)
      ∙ schedule_state_updated-schedule now c w

  pub save-schedule : (s : ℕ) (w : World) → (save_if_stored s w).schedule ≡ w.schedule
  save-schedule s w = ap (λ (u : World). u.schedule) (save_if_stored-files s w)

  pub write_state-schedule :
      (now s : ℕ) (state : ScheduleState) (w : World)
      → (write_state now s state w).schedule ≡ w.schedule
  unfolding write_state update_at
  write_state-schedule now s state w = ground arith

  pub set_state-schedule :
      (now s : ℕ) (state : ScheduleState) (w : World)
      → (set_state now s state w).schedule ≡ w.schedule
  unfolding set_state
  set_state-schedule now s state w =
      notify_state-schedule now
        ((save_if_stored s (write_state now s state w)).schedule s).known_schedule_controllers
        (save_if_stored s (write_state now s state w))
      ∙ save-schedule s (write_state now s state w)
      ∙ write_state-schedule now s state w

  pub update_state-schedule :
      (now s : ℕ) (state : ScheduleState) (w : World)
      → (update_state now s state w).schedule ≡ w.schedule
  unfolding update_state
  update_state-schedule now s state w = ground (arith, set_state-schedule now s state w)

  pub update_schedule_enable_error-schedule :
      (now s : ℕ) (err : ScheduleEnablingError) (w : World)
      → (update_schedule_enable_error now s err w).schedule ≡ w.schedule
  unfolding update_schedule_enable_error update_int_status_value update_at
  update_schedule_enable_error-schedule now s err w = ground arith

  pub update_time_status-schedule :
      (now s start : ℕ) (name : String) (w : World)
      → (update_time_status now s start name w).schedule ≡ w.schedule
  unfolding update_time_status update_at
  update_time_status-schedule now s start name w = ground arith

  pub set_act_str_tm_quality-schedule :
      (now s : ℕ) (bad : Bool) (w : World)
      → (set_act_str_tm_quality now s bad w).schedule ≡ w.schedule
  unfolding set_act_str_tm_quality update_at
  set_act_str_tm_quality-schedule now s bad w = ground arith

  pub update_current_value_quality-schedule :
      (now s : ℕ) (bad : Bool) (w : World)
      → (update_current_value_quality now s bad w).schedule ≡ w.schedule
  unfolding update_current_value_quality update_at
  update_current_value_quality-schedule now s bad w = ground arith

  pub update_current_value-schedule :
      (now s : ℕ) (v : Value) (w : World) → (update_current_value now s v w).schedule ≡ w.schedule
  unfolding update_current_value update_at
  update_current_value-schedule now s v w = ground arith

  pub update_schd_entr-schedule :
      (now s : ℕ) (idx : ℤ) (w : World) → (update_schd_entr now s idx w).schedule ≡ w.schedule
  unfolding update_schd_entr update_at
  update_schd_entr-schedule now s idx w = ground arith

  notify_value-schedule :
      (cs : List ℕ) (s : ℕ) (val : Option Value) (now : ℕ) (w : World)
      → (notify_value cs s val now w).schedule ≡ w.schedule
  unfolding notify_value
  notify_value-schedule [] s val now w = refl
  notify_value-schedule (c ∷ cs) s val now w =
      notify_value-schedule cs s val now _
      ∙ (schedule_value_updated-SameStructs c s val now w).schedule

  pub notify_controllers-schedule :
      (s : ℕ) (val : Option Value) (now : ℕ) (w : World)
      → (notify_controllers s val now w).schedule ≡ w.schedule
  unfolding notify_controllers
  notify_controllers-schedule s val now w =
      notify_value-schedule (w.schedule s).known_schedule_controllers s val now w
