-- ===== src/Schedule/Enable/Structs.antt =====
-- What enabling, disabling and a written start time change in the structs of the schedules.
use der_scheduling.Prelude.{ℕ, ◌≡◌, refl, ◌∙◌, ap, Bool, true, false, arith, inl, inr, Bool-cases}
use der_scheduling.Platform.{Platform}
use der_scheduling.World.{World, Schedule, ScheduleState, ScheduleEnablingError, set_schedule}
use der_scheduling.Schedule.Getters.{get_num_entr_value}
use der_scheduling.Schedule.Calendar.{get_next_start_time}
use der_scheduling.Schedule.State.{
  same_state, update_state, update_nxt_str_tm, update_current_value_quality, set_act_str_tm_quality,
}
use der_scheduling.Schedule.State.Frame.{
  update_state-schedule, update_schedule_enable_error-schedule, update_time_status-schedule,
  set_act_str_tm_quality-schedule, update_current_value_quality-schedule,
}
use der_scheduling.Schedule.Validity.{
  set_number_of_schedule_entries, perform_generic_validity_checks,
}
use der_scheduling.Schedule.Enable.{
  enter, after_checks, enabling_state, enabling_result, enabled_schedule, disable_schedule,
}
use der_scheduling.Schedule.Enable.Result.{counted}

module _ ⦃lib : Platform⦄ where
  enter-schedule :
      (now s : ℕ) (u : World) (state : ScheduleState)
      → (enter now s (u, state)).0.schedule ≡ u.schedule
  enter-schedule now s u state =
      let u' = update_state now s state u in
      let next = get_next_start_time now u' s in
      elim (Bool-cases (same_state state ScheduleState.ready)) [
        | inl e ↦ rw e (
            update_schedule_enable_error-schedule now s ScheduleEnablingError.none
              (update_nxt_str_tm now s next u')
            ∙ update_time_status-schedule now s next "NxtStrTm" u'
            ∙ update_state-schedule now s state u)
        | inr e ↦ rw e (update_state-schedule now s state u)
      ]

  enabling_state-schedule :
      (now s : ℕ) (u : World) → (enabling_state now s u).0.schedule ≡ u.schedule
  unfolding enabling_state
  enabling_state-schedule now s u = ground (
    arith,
    update_schedule_enable_error-schedule now s ScheduleEnablingError.missing_valid_strtm u,
  )

  checks-schedule :
      (now s : ℕ) (w : World)
      → (perform_generic_validity_checks now s w).0.schedule ≡ (counted now s w).schedule
  unfolding perform_generic_validity_checks
  checks-schedule now s w = ground (
    arith,
    update_schedule_enable_error-schedule now s ScheduleEnablingError.missing_valid_numentr
        (counted now s w),
    update_schedule_enable_error-schedule now s ScheduleEnablingError.missing_valid_schedule_values
        (counted now s w),
    update_schedule_enable_error-schedule now s ScheduleEnablingError.missing_valid_schdintv
        (counted now s w),
  )

  after_checks-schedule :
      (now s : ℕ) (p : World × Bool) → (after_checks now s p).0.schedule ≡ p.0.schedule
  after_checks-schedule now s (u, true) = enabling_state-schedule now s u
  after_checks-schedule now s (u, false) = refl

  counted-struct :
      (now s : ℕ) (w : World)
      → (counted now s w).schedule s
        ≡ record (w.schedule s) { number_of_schedule_entries = get_num_entr_value w s }
  unfolding set_number_of_schedule_entries set_schedule
  counted-struct now s w = ground arith

  -- Enabling a schedule, with success or without, sets the number of entries in its struct and
  -- nothing else.
  pub enabled_schedule-struct :
      (now s : ℕ) (w : World)
      → (enabled_schedule now s w).0.schedule s
        ≡ record (w.schedule s) { number_of_schedule_entries = get_num_entr_value w s }
  unfolding enabled_schedule enabling_result
  enabled_schedule-struct now s w =
      let p = perform_generic_validity_checks now s w in
      let r = after_checks now s p in
      ap (λ (f : ℕ → Schedule). f s)
        (enter-schedule now s r.0 r.1 ∙ after_checks-schedule now s p ∙ checks-schedule now s w)
      ∙ counted-struct now s w

  pub disable_schedule-schedule :
      (now s : ℕ) (w : World) → (disable_schedule now s w).schedule ≡ w.schedule
  unfolding disable_schedule
  disable_schedule-schedule now s w =
      let u = update_current_value_quality now s true w in
      let v = set_act_str_tm_quality now s true u in
      update_state-schedule now s ScheduleState.not_ready (update_nxt_str_tm now s 0 v)
      ∙ update_time_status-schedule now s 0 "NxtStrTm" v
      ∙ set_act_str_tm_quality-schedule now s true u
      ∙ update_current_value_quality-schedule now s true w
