-- ===== src/Schedule/Enable/Result.antt =====
-- When enabledSchedule and the check of a control succeed.
use der_scheduling.Prelude.{
  ℕ, zero, suc, ◌+◌, ◌≡◌, refl, ◌∙◌, ap, Bool, true, false, ◌&&◌, arith, inl, inr, Bool-cases,
  if◌then◌else◌, List, [], ◌∷◌,
}
use der_scheduling.Prelude.Int.{ℤ, pos, negsuc}
use der_scheduling.Platform.{Platform}
use der_scheduling.World.{World, ScheduleState, set_schedule}
use der_scheduling.Schedule.Getters.{int_setting, get_num_entr_value}
use der_scheduling.Schedule.Values.{get_schedule_value_attribute}
use der_scheduling.Schedule.Interval.{get_schd_intv_value_in_ms}
use der_scheduling.Schedule.StartTimes.{
  check_for_valid_start_times, any_valid_start_time, get_start_time, schedule_duration_ms,
}
use der_scheduling.Schedule.State.{same_state}
use der_scheduling.Schedule.Validity.{
  entries_are_numbers, is_number, numbers_of, num_entr_valid, values_valid, schd_intv_valid,
  set_number_of_schedule_entries, perform_generic_validity_checks, is_event_driven,
  check_sync_input,
}
use der_scheduling.Schedule.Enable.{
  enter, after_checks, enabling_state, enabling_result, enabled_schedule,
}

module _ ⦃lib : Platform⦄ (now s : ℕ) (w : World) where
  -- The world after `self->numberOfScheduleEntries = numEntrVal`.
  abbrev pub counted : World
  counted = set_number_of_schedule_entries s (get_num_entr_value w s) w

  number-counted : (i : ℕ) → is_number counted s i ≡ is_number w s i
  unfolding set_number_of_schedule_entries set_schedule get_schedule_value_attribute
  number-counted i = ground arith

  numbers-counted :
      (count i : ℕ) → entries_are_numbers counted s count i ≡ entries_are_numbers w s count i
  unfolding entries_are_numbers
  numbers-counted zero i = refl
  numbers-counted (suc count) i = cc (number-counted i, numbers-counted count (i + 1))

  num_entr-counted : get_num_entr_value counted s ≡ get_num_entr_value w s
  unfolding set_number_of_schedule_entries set_schedule get_num_entr_value int_setting
  num_entr-counted = ground arith

  numbers_of-counted : (z : ℤ) → numbers_of counted s z ≡ numbers_of w s z
  numbers_of-counted (negsuc n) = refl
  numbers_of-counted (pos n) = numbers-counted n 1

  values-counted : values_valid counted s ≡ values_valid w s
  unfolding values_valid
  values-counted = rw num_entr-counted (numbers_of-counted (get_num_entr_value w s))

  intv-counted : schd_intv_valid counted s ≡ schd_intv_valid w s
  unfolding set_number_of_schedule_entries set_schedule schd_intv_valid int_setting
  intv-counted = ground arith

  -- The validity of the settings, whatever the kind of the schedule.
  abbrev pub settings_valid : Bool
  settings_valid = num_entr_valid w s && values_valid w s && schd_intv_valid w s

  pub checks_result : (perform_generic_validity_checks now s w).1 ≡ settings_valid
  unfolding perform_generic_validity_checks
  checks_result = ground (arith, values-counted, intv-counted)

  checks_world : settings_valid ≡ true → perform_generic_validity_checks now s w ≡ (counted, true)
  unfolding perform_generic_validity_checks
  checks_world h = ground (arith, values-counted, intv-counted)

  any_valid-counted :
      (periodic : Bool) (duration : ℕ) (ns : List lib.Node)
      → any_valid_start_time periodic counted duration now ns
        ≡ any_valid_start_time periodic w duration now ns
  unfolding any_valid_start_time set_number_of_schedule_entries set_schedule get_start_time
  any_valid-counted periodic duration [] = refl
  any_valid-counted true duration (n ∷ ns) = cc (any_valid-counted true duration ns)
  any_valid-counted false duration (n ∷ ns) = cc (any_valid-counted false duration ns)

  duration-counted : schedule_duration_ms counted s ≡ schedule_duration_ms w s
  unfolding set_number_of_schedule_entries set_schedule get_num_entr_value int_setting
      get_schd_intv_value_in_ms
  duration-counted = ground arith

  same_struct :
      (counted.schedule s).is_periodic ≡ (w.schedule s).is_periodic
      × (counted.schedule s).is_time_triggered ≡ (w.schedule s).is_time_triggered
      × (counted.schedule s).schedule_ln ≡ (w.schedule s).schedule_ln
      × (counted.schedule s).ev_trg ≡ (w.schedule s).ev_trg
  unfolding set_number_of_schedule_entries set_schedule
  same_struct = ground arith

  start_times-counted :
      check_for_valid_start_times now counted s ≡ check_for_valid_start_times now w s
  unfolding check_for_valid_start_times
  start_times-counted =
      rw (same_struct.0, same_struct.2, duration-counted)
        (any_valid-counted (w.schedule s).is_periodic (schedule_duration_ms w s)
          (lib.get_children (w.schedule s).schedule_ln))

  event-counted : is_event_driven counted s ≡ is_event_driven w s
  unfolding set_number_of_schedule_entries set_schedule is_event_driven
  event-counted = ground arith

  sync-counted : check_sync_input counted s ≡ check_sync_input w s
  unfolding set_number_of_schedule_entries set_schedule check_sync_input
  sync-counted = ground arith

  -- What the kind of the schedule asks for: a valid trigger for an event driven one, nothing more for
  -- a periodic one, a start time whose execution is not over for a time triggered one.
  abbrev pub kind_valid : Bool
  kind_valid =
      if is_event_driven w s
      then check_sync_input w s
      else if (w.schedule s).is_periodic
      then true
      else if (w.schedule s).is_time_triggered
      then check_for_valid_start_times now w s
      else false

  kind_result : same_state (enabling_state now s counted).1 ScheduleState.ready ≡ kind_valid
  unfolding enabling_state
  kind_result = ground (arith, event-counted, sync-counted, same_struct, start_times-counted)

  enter-result :
      (u : World) (state : ScheduleState)
      → (enter now s (u, state)).1 ≡ same_state state ScheduleState.ready
  enter-result u state = ground arith

  valid-result :
      settings_valid ≡ true
      → same_state (enabling_result now s w).1 ScheduleState.ready ≡ kind_valid
  unfolding enabling_result
  valid-result e =
      ap (λ (p : World × Bool). same_state (after_checks now s p).1 ScheduleState.ready)
        (checks_world e)
      ∙ kind_result

  after_checks-refused :
      (p : World × Bool) → p.1 ≡ false → (after_checks now s p).1 ≡ ScheduleState.not_ready
  after_checks-refused (u, true) e = cc
  after_checks-refused (u, false) e = refl

  refused-result : settings_valid ≡ false → (enabling_result now s w).1 ≡ ScheduleState.not_ready
  unfolding enabling_result
  refused-result e =
      after_checks-refused (perform_generic_validity_checks now s w) (checks_result ∙ e)

  -- A schedule is enabled exactly when the number of its entries, the entries and the interval are
  -- valid and so is what its kind asks for, all read before the call.
  pub enabled_schedule-result : (enabled_schedule now s w).1 ≡ (settings_valid && kind_valid)
  unfolding enabled_schedule
  enabled_schedule-result = elim (Bool-cases settings_valid) [
    | inl e ↦
        rw e (enter-result (enabling_result now s w).0 (enabling_result now s w).1 ∙ valid-result e)
    | inr e ↦ rw e (
        enter-result (enabling_result now s w).0 (enabling_result now s w).1
        ∙ rw (refused-result e))
  ]
