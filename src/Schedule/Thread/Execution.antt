-- ===== src/Schedule/Thread/Execution.antt =====
-- What a start, an output and an end leave in the struct of a schedule.
use der_scheduling.Prelude.{
  ℕ, ◌≡◌, refl, ◌∙◌, ap, sym, ◌≢◌, true, false, Option, none, some, arith, inl, inr, List, [], ◌∷◌,
  Bool-cases,
}
use der_scheduling.Prelude.Int.{ℤ, pos, negsuc, eqb_ℤ, int_of_uint64, ◌+ℤ◌}
use der_scheduling.Platform.{Platform}
use der_scheduling.World.{World, Schedule, ScheduleState, set_schedule, update}
use der_scheduling.Schedule.Getters.{get_num_entr_value, value_at}
use der_scheduling.Schedule.Values.{get_schedule_value_attribute}
use der_scheduling.Schedule.Interval.{get_current_idx, get_schd_intv_value_in_ms}
use der_scheduling.Schedule.StartTimes.{erase_start_times, erase_start_time}
use der_scheduling.Schedule.Calendar.{get_next_start_time}
use der_scheduling.Schedule.State.{
  update_act_str_tm, update_nxt_str_tm, set_act_str_tm_quality, update_current_value_quality,
}
use der_scheduling.Schedule.State.Frame.{
  update_time_status-schedule, update_current_value-schedule, update_schd_entr-schedule,
  notify_controllers-schedule,
}
use der_scheduling.Schedule.Thread.{
  set_next_start_time, load_execution, fault_on_zero, start_schedule, output_value, output_entry,
  end_schedule, state_after_end, at_computed, running_round,
}

module _ ⦃lib : Platform⦄ where
  open lib use {Node, get_children}

  erase_start_times-schedule :
      (ns : List Node) (t : ℕ) (w : World) → (erase_start_times ns t w).schedule ≡ w.schedule
  unfolding erase_start_times update
  erase_start_times-schedule [] t w = refl
  erase_start_times-schedule (n ∷ ns) t w = erase_start_times-schedule ns t _ ∙ ground arith

  set_schedule_self : (s : ℕ) (x : Schedule) (w : World) → (set_schedule s x w).schedule s ≡ x
  unfolding set_schedule
  set_schedule_self s x w = ground arith

  -- The struct when an execution has been loaded, and the world when its start time is erased.
  abbrev pub loaded_struct : ℕ → World → Schedule
  loaded_struct s w = record (w.schedule s) {
    start_time = (w.schedule s).next_start_time;
    entry_duration_in_ms = int_of_uint64 (get_schd_intv_value_in_ms w s);
    number_of_schedule_entries = get_num_entr_value w s;
    current_entry_idx = negsuc 1;
  }

  abbrev pub erased : ℕ → ℕ → World → World
  erased now s w =
      let w1 = load_execution s w in
      let t = (w1.schedule s).start_time in
      erase_start_time s t
        (update_act_str_tm now s t (fault_on_zero (get_current_idx (w1.schedule s) now) w1))

  fault_on_zero-schedule : (o : Option ℤ) (w : World) → (fault_on_zero o w).schedule ≡ w.schedule
  fault_on_zero-schedule none w = refl
  fault_on_zero-schedule (some i) w = refl

  erase_start_time-schedule : (s t : ℕ) (w : World) → (erase_start_time s t w).schedule ≡ w.schedule
  unfolding erase_start_time
  erase_start_time-schedule s t w =
      erase_start_times-schedule (get_children (w.schedule s).schedule_ln) t w

  erased-struct : (now s : ℕ) (w : World) → (erased now s w).schedule s ≡ loaded_struct s w
  unfolding load_execution
  erased-struct now s w =
      rw
        (
          erase_start_time-schedule s _ _,
          update_time_status-schedule now s _ "ActStrTm" _,
          fault_on_zero-schedule _ _,
        )
        (set_schedule_self s (loaded_struct s w) w)

  -- A start takes the known start time over, reads the interval and the number of entries from the
  -- settings, forgets the last entry, and looks the next start time up after the due one is erased.
  pub start_schedule-struct :
      (now s : ℕ) (w : World)
      → (start_schedule now s w).schedule s ≡ record (loaded_struct s w) {
        next_start_time = get_next_start_time now (erased now s w) s;
      }
  unfolding start_schedule
  start_schedule-struct now s w =
      let next = get_next_start_time now (erased now s w) s in
      let w4 = set_next_start_time s next (erased now s w) in
      ap (λ (f : ℕ → Schedule). f s)
        (update_time_status-schedule now s (w4.schedule s).next_start_time "NxtStrTm" w4)
      ∙ set_schedule_self s (record ((erased now s w).schedule s) { next_start_time = next })
          (erased now s w)
      ∙ ap (λ (x : Schedule). record x { next_start_time = next }) (erased-struct now s w)

  output_value-schedule :
      (now s : ℕ) (idx : ℤ) (o : Option lib.Value) (w : World)
      → (output_value now s idx o w).schedule ≡ w.schedule
  output_value-schedule now s idx none w = refl
  output_value-schedule now s idx (some v) w =
      notify_controllers-schedule s (some v) now _
      ∙ update_schd_entr-schedule now s (idx +ℤ pos 1) _
      ∙ update_current_value-schedule now s v w

  -- An output is remembered by its index, and nothing else of the struct changes.
  pub output_entry-struct :
      (now s : ℕ) (idx : ℤ) (w : World)
      → (output_entry now s idx w).schedule s ≡ record (w.schedule s) { current_entry_idx = idx }
  unfolding output_entry
  output_entry-struct now s idx w =
      let o = value_at w (get_schedule_value_attribute w s (idx +ℤ pos 1)) in
      set_schedule_self s _ (output_value now s idx o w)
      ∙ ap (λ (f : ℕ → Schedule). record (f s) { current_entry_idx = idx })
          (output_value-schedule now s idx o w)

  pub eqb_ℤ_self : (i : ℤ) → eqb_ℤ i i ≡ true
  eqb_ℤ_self i = ground arith

  pub eqb_ℤ→≡ : (i j : ℤ) → eqb_ℤ i j ≡ true → j ≡ i
  eqb_ℤ→≡ i j h = ground arith

  pub running_round-quiet :
      (now s : ℕ) (idx : ℤ) (w : World)
      → get_current_idx (w.schedule s) now ≡ some idx
      → (w.schedule s).current_entry_idx ≡ idx
      → idx ≢ negsuc 0
      → running_round now s w ≡ (w, ScheduleState.running)
  unfolding running_round
  running_round-quiet now s idx w e c h = rw (e, at_computed) (ground (arith, eqb_ℤ_self idx))

  pub running_round-outputs :
      (now s : ℕ) (idx : ℤ) (w : World)
      → get_current_idx (w.schedule s) now ≡ some idx
      → eqb_ℤ idx (w.schedule s).current_entry_idx ≡ false
      → idx ≢ negsuc 0
      → running_round now s w ≡ (output_entry now s idx w, ScheduleState.running)
  unfolding running_round
  running_round-outputs now s idx w e c h = rw (e, at_computed) (ground arith)

  idx-after_output :
      (later now s : ℕ) (idx : ℤ) (w : World)
      → get_current_idx ((output_entry now s idx w).schedule s) later
        ≡ get_current_idx (w.schedule s) later
  unfolding get_current_idx
  idx-after_output later now s idx w =
      ap (λ (x : Schedule). get_current_idx x later) (output_entry-struct now s idx w)

  -- Each entry is put out once: of two rounds in a row with the same index, which is not -1, the
  -- second changes nothing and the schedule stays RUNNING.
  pub running_round-output_once :
      (now later s : ℕ) (idx : ℤ) (w : World)
      → get_current_idx (w.schedule s) now ≡ some idx
      → get_current_idx (w.schedule s) later ≡ some idx
      → idx ≢ negsuc 0
      → running_round later s (running_round now s w).0
        ≡ ((running_round now s w).0, ScheduleState.running)
  running_round-output_once now later s idx w e e' h =
      elim (Bool-cases (eqb_ℤ idx (w.schedule s).current_entry_idx)) [
        | inl out ↦
            rw (running_round-quiet now s idx w e (eqb_ℤ→≡ idx _ out) h)
              (running_round-quiet later s idx w e' (eqb_ℤ→≡ idx _ out) h)
        | inr fresh ↦ rw (running_round-outputs now s idx w e fresh h) (
            running_round-quiet later s idx (output_entry now s idx w)
              (idx-after_output later now s idx w ∙ e')
              (ap (λ (x : Schedule). x.current_entry_idx) (output_entry-struct now s idx w)) h)
      ]

  pub end_schedule-next :
      (now s : ℕ) (w : World)
      → (end_schedule now s w).1
        ≡ state_after_end ((end_schedule now s w).0.schedule s).next_start_time
  unfolding end_schedule
  end_schedule-next now s w =
      let w1 = set_act_str_tm_quality now s true (update_current_value_quality now s true w) in
      let next = get_next_start_time now w1 s in
      let w2 = set_next_start_time s next w1 in
      ap state_after_end (
        sym (
          ap (λ (f : ℕ → Schedule). (f s).next_start_time)
            (update_time_status-schedule now s 0 "ActStrTm" (update_nxt_str_tm now s next w2)
              ∙ update_time_status-schedule now s next "NxtStrTm" w2)
          ∙ ap (λ (x : Schedule). x.next_start_time)
              (set_schedule_self s (record (w1.schedule s) { next_start_time = next }) w1)))

  -- When the index is -1, the last entry's interval being over, the schedule is READY again
  -- exactly if there is a next start time, which the struct then holds, and NOT READY otherwise.
  running_round-end :
      (now s : ℕ) (w : World)
      → get_current_idx (w.schedule s) now ≡ some (negsuc 0)
      → (running_round now s w).1
        ≡ state_after_end ((running_round now s w).0.schedule s).next_start_time
  unfolding running_round
  running_round-end now s w e = rw (e, at_computed) (end_schedule-next now s w)
