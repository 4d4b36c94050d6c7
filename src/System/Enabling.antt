-- ===== src/System/Enabling.antt =====
-- Enabling and disabling, controls and client writes keep the lists of schedules and controllers.
use der_scheduling.Prelude.{ℕ, refl, Bool, true, false, Option, arith, inl, inr, Bool-cases}
use der_scheduling.Prelude.Int.{ℤ}
use der_scheduling.Platform.{Platform}
use der_scheduling.World.{World, ScheduleState, ScheduleEnablingError}
use der_scheduling.Schedule.Getters.{get_state, get_num_entr_value}
use der_scheduling.Schedule.State.{same_state, update_state, update_schedule_enable_error}
use der_scheduling.Schedule.Calendar.{get_next_start_time}
use der_scheduling.Schedule.Validity.{
  set_number_of_schedule_entries, perform_generic_validity_checks, num_entr_valid, values_valid,
  schd_intv_valid,
}
use der_scheduling.Schedule.Enable.{
  enter, after_checks, enabling_state, enabling_result, enabled_schedule, disable_schedule,
  enable_schedule,
}
use der_scheduling.Schedule.Control.{perform_check_handler, control_handler, checked, reported}
use der_scheduling.System.Keeps.{Keeps, Keeps-refl, Keeps-trans, set_schedule-Keeps}
use der_scheduling.System.Status.{
  update_state-Keeps, update_schedule_enable_error-Keeps, update_time_status-Keeps,
  set_act_str_tm_quality-Keeps, update_current_value_quality-Keeps,
}

module _ ⦃lib : Platform⦄ where
  open lib use {Node, Value, get_boolean}

  counting-Keeps : (s : ℕ) (n : ℤ) (w : World) → Keeps w (set_number_of_schedule_entries s n w)
  unfolding set_number_of_schedule_entries
  counting-Keeps s n w = set_schedule-Keeps s _ w refl

  refused-Keeps :
      (now s : ℕ) (err : ScheduleEnablingError) (n : ℤ) (w : World)
      → Keeps w (update_schedule_enable_error now s err (set_number_of_schedule_entries s n w))
  refused-Keeps now s err n w =
      Keeps-trans (counting-Keeps s n w) (update_schedule_enable_error-Keeps now s err _)

  pub checks-Keeps : (now s : ℕ) (w : World) → Keeps w (perform_generic_validity_checks now s w).0
  unfolding perform_generic_validity_checks
  checks-Keeps now s w =
      let n = get_num_entr_value w s in
      let w' = set_number_of_schedule_entries s n w in
      elim (Bool-cases (num_entr_valid w s)) [
        | inr e ↦ rw e (refused-Keeps now s ScheduleEnablingError.missing_valid_numentr n w)
        | inl e ↦ rw e (elim (Bool-cases (values_valid w' s)) [
          | inr f ↦
              rw f (refused-Keeps now s ScheduleEnablingError.missing_valid_schedule_values n w)
          | inl f ↦ rw f (elim (Bool-cases (schd_intv_valid w' s)) [
            | inr g ↦ rw g (refused-Keeps now s ScheduleEnablingError.missing_valid_schdintv n w)
            | inl g ↦ rw g (counting-Keeps s n w)
          ])
        ])
      ]

  enabling_state-Keeps : (now s : ℕ) (w : World) → Keeps w (enabling_state now s w).0
  unfolding enabling_state
  enabling_state-Keeps now s w = ground (
    arith,
    Keeps-refl w,
    update_schedule_enable_error-Keeps now s ScheduleEnablingError.missing_valid_strtm w,
  )

  after_checks-Keeps : (now s : ℕ) (p : World × Bool) → Keeps p.0 (after_checks now s p).0
  after_checks-Keeps now s (w, true) = enabling_state-Keeps now s w
  after_checks-Keeps now s (w, false) = Keeps-refl w

  enter-Keeps : (now s : ℕ) (w : World) (state : ScheduleState) → Keeps w (enter now s (w, state)).0
  enter-Keeps now s w state =
      let w1 = update_state now s state w in
      let next = get_next_start_time now w1 s in
      elim (Bool-cases (same_state state ScheduleState.ready)) [
        | inr e ↦ rw e (update_state-Keeps now s state w)
        | inl e ↦ rw e (
            Keeps-trans (update_state-Keeps now s state w) (
              Keeps-trans (update_time_status-Keeps now s next "NxtStrTm" w1)
                (update_schedule_enable_error-Keeps now s ScheduleEnablingError.none _)))
      ]

  pub enabled_schedule-Keeps : (now s : ℕ) (w : World) → Keeps w (enabled_schedule now s w).0
  unfolding enabled_schedule enabling_result
  enabled_schedule-Keeps now s w =
      let p = perform_generic_validity_checks now s w in
      let r = after_checks now s p in
      Keeps-trans (checks-Keeps now s w)
        (Keeps-trans (after_checks-Keeps now s p) (enter-Keeps now s r.0 r.1))

  pub disable_schedule-Keeps : (now s : ℕ) (w : World) → Keeps w (disable_schedule now s w)
  unfolding disable_schedule
  disable_schedule-Keeps now s w = Keeps-trans (update_current_value_quality-Keeps now s true w) (
      Keeps-trans (set_act_str_tm_quality-Keeps now s true _) (
        Keeps-trans (update_time_status-Keeps now s 0 "NxtStrTm" _)
          (update_state-Keeps now s ScheduleState.not_ready _)))

  pub enable_schedule-Keeps :
      (now s : ℕ) (enable : Bool) (w : World) → Keeps w (enable_schedule now s enable w).0
  unfolding enable_schedule
  enable_schedule-Keeps now s true w = enabled_schedule-Keeps now s w
  enable_schedule-Keeps now s false w =
      elim (Bool-cases (same_state (get_state w s) ScheduleState.not_ready)) [
        | inl e ↦ rw e (Keeps-refl w)
        | inr e ↦ rw e (disable_schedule-Keeps now s w)
      ]

  checked-Keeps : (w : World) (p : World × Bool) → Keeps w p.0 → Keeps w (checked p).0
  checked-Keeps w (u, true) h = h
  checked-Keeps w (u, false) h = h

  reported-Keeps : (w : World) (p : World × Bool) → Keeps w p.0 → Keeps w (reported p).0
  reported-Keeps w (u, true) h = h
  reported-Keeps w (u, false) h = h

  pub perform_check_handler-Keeps :
      (now s : ℕ) (obj : Node) (val : Option Value) (test : Bool) (w : World)
      → Keeps w (perform_check_handler now s obj val test w).0
  unfolding perform_check_handler
  perform_check_handler-Keeps now s obj val test w = ground (
    arith,
    Keeps-refl w,
    checked-Keeps w (perform_generic_validity_checks now s w) (checks-Keeps now s w),
  )

  pub control_handler-Keeps :
      (now s : ℕ) (obj : Node) (val : Option Value) (test : Bool) (w : World)
      → Keeps w (control_handler now s obj val test w).0
  unfolding control_handler
  control_handler-Keeps now s obj val test w = ground (
    arith,
    Keeps-refl w,
    reported-Keeps w (enabled_schedule now s w) (enabled_schedule-Keeps now s w),
    disable_schedule-Keeps now s w,
  )
