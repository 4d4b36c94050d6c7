-- ===== src/System/Rounds.antt =====
-- The rounds of a schedule's thread keep the lists of schedules and controllers.
use der_scheduling.Prelude.{
  ℕ, refl, true, Option, some, none, List, [], ◌∷◌, arith, inl, inr, Bool-cases, ◌==◌,
}
use der_scheduling.Prelude.Int.{ℤ, pos, ◌+ℤ◌}
use der_scheduling.Platform.{Platform}
use der_scheduling.World.{World, ScheduleState, update}
use der_scheduling.Schedule.Getters.{get_state, value_at}
use der_scheduling.Schedule.Values.{get_schedule_value_attribute}
use der_scheduling.Schedule.Interval.{get_current_idx}
use der_scheduling.Schedule.StartTimes.{erase_start_times, erase_start_time}
use der_scheduling.Schedule.Calendar.{get_next_start_time}
use der_scheduling.Schedule.State.{same_state, set_state}
use der_scheduling.Schedule.Thread.{
  set_next_start_time, set_current_entry_idx, ensure_next_start_time, load_execution, fault_on_zero,
  start_schedule, is_due, ready_round, output_value, output_entry, end_schedule, at_index,
  at_computed, running_round, round_in, reset_entry, finish_round, thread_start, thread_round,
}
use der_scheduling.System.Keeps.{Keeps, Keeps-refl, Keeps-trans, Keeps-same, set_schedule-Keeps}
use der_scheduling.System.Events.{notify_controllers-Keeps}
use der_scheduling.System.Status.{
  set_state-Keeps, update_time_status-Keeps, set_act_str_tm_quality-Keeps,
  update_current_value_quality-Keeps, update_current_value-Keeps, update_schd_entr-Keeps,
}

module _ ⦃lib : Platform⦄ where
  open lib use {Node, Value, get_children}

  next_start-Keeps : (s t : ℕ) (w : World) → Keeps w (set_next_start_time s t w)
  unfolding set_next_start_time
  next_start-Keeps s t w = set_schedule-Keeps s _ w refl

  entry_idx-Keeps : (s : ℕ) (i : ℤ) (w : World) → Keeps w (set_current_entry_idx s i w)
  unfolding set_current_entry_idx
  entry_idx-Keeps s i w = set_schedule-Keeps s _ w refl

  load-Keeps : (s : ℕ) (w : World) → Keeps w (load_execution s w)
  unfolding load_execution
  load-Keeps s w = set_schedule-Keeps s _ w refl

  ensure-Keeps : (now s : ℕ) (w : World) → Keeps w (ensure_next_start_time now s w)
  unfolding ensure_next_start_time
  ensure-Keeps now s w = elim (Bool-cases ((w.schedule s).next_start_time == 0)) [
    | inl e ↦ rw e (next_start-Keeps s (get_next_start_time now w s) w)
    | inr e ↦ rw e (Keeps-refl w)
  ]

  fault-Keeps : (o : Option ℤ) (w : World) → Keeps w (fault_on_zero o w)
  fault-Keeps none w = Keeps-same refl refl
  fault-Keeps (some i) w = Keeps-refl w

  erase_one-Keeps : (n : Node) (t : ℕ) (w : World) → Keeps w (erase_start_times (n ∷ []) t w)
  unfolding erase_start_times update
  erase_one-Keeps n t w = Keeps-same (ground arith) (ground arith)

  erase_times-Keeps : (ns : List Node) (t : ℕ) (w : World) → Keeps w (erase_start_times ns t w)
  unfolding erase_start_times
  erase_times-Keeps [] t w = Keeps-refl w
  erase_times-Keeps (n ∷ ns) t w = Keeps-trans (erase_one-Keeps n t w) (erase_times-Keeps ns t _)

  erase-Keeps : (s t : ℕ) (w : World) → Keeps w (erase_start_time s t w)
  unfolding erase_start_time
  erase-Keeps s t w = erase_times-Keeps (get_children (w.schedule s).schedule_ln) t w

  start-Keeps : (now s : ℕ) (w : World) → Keeps w (start_schedule now s w)
  unfolding start_schedule
  start-Keeps now s w = Keeps-trans (load-Keeps s w) (
      Keeps-trans (fault-Keeps _ _) (
        Keeps-trans (update_time_status-Keeps now s _ "ActStrTm" _) (
          Keeps-trans (erase-Keeps s _ _) (
            Keeps-trans (next_start-Keeps s _ _) (update_time_status-Keeps now s _ "NxtStrTm" _)))))

  ready_round-Keeps : (now s : ℕ) (w : World) → Keeps w (ready_round now s w).0
  unfolding ready_round
  ready_round-Keeps now s w =
      let w' = ensure_next_start_time now s w in
      elim (Bool-cases (is_due (w'.schedule s).next_start_time now)) [
        | inl e ↦ rw e (Keeps-trans (ensure-Keeps now s w) (start-Keeps now s w'))
        | inr e ↦ rw e (ensure-Keeps now s w)
      ]

  output_value-Keeps :
      (now s : ℕ) (idx : ℤ) (o : Option Value) (w : World) → Keeps w (output_value now s idx o w)
  output_value-Keeps now s idx none w = Keeps-refl w
  output_value-Keeps now s idx (some v) w = Keeps-trans (update_current_value-Keeps now s v w) (
      Keeps-trans (update_schd_entr-Keeps now s (idx +ℤ pos 1) _)
        (notify_controllers-Keeps s (some v) now _))

  output_entry-Keeps : (now s : ℕ) (idx : ℤ) (w : World) → Keeps w (output_entry now s idx w)
  unfolding output_entry
  output_entry-Keeps now s idx w =
      Keeps-trans
        (output_value-Keeps now s idx (value_at w (get_schedule_value_attribute w s (idx +ℤ pos 1)))
          w)
        (entry_idx-Keeps s idx _)

  end-Keeps : (now s : ℕ) (w : World) → Keeps w (end_schedule now s w).0
  unfolding end_schedule
  end-Keeps now s w = Keeps-trans (update_current_value_quality-Keeps now s true w) (
      Keeps-trans (set_act_str_tm_quality-Keeps now s true _) (
        Keeps-trans (next_start-Keeps s _ _) (
          Keeps-trans (update_time_status-Keeps now s _ "NxtStrTm" _)
            (update_time_status-Keeps now s 0 "ActStrTm" _))))

  at_index-Keeps : (now s : ℕ) (idx : ℤ) (w : World) → Keeps w (at_index now s idx w).0
  at_index-Keeps now s idx w =
      ground (arith, Keeps-refl w, end-Keeps now s w, output_entry-Keeps now s idx w)

  at_computed-Keeps : (now s : ℕ) (o : Option ℤ) (w : World) → Keeps w (at_computed now s o w).0
  at_computed-Keeps now s none w = Keeps-same refl refl
  at_computed-Keeps now s (some idx) w = at_index-Keeps now s idx w

  round_in-Keeps :
      (state : ScheduleState) (now s : ℕ) (w : World) → Keeps w (round_in state now s w).0
  unfolding round_in running_round
  round_in-Keeps ScheduleState.ready now s w = ready_round-Keeps now s w
  round_in-Keeps ScheduleState.running now s w =
      at_computed-Keeps now s (get_current_idx (w.schedule s) now) w
  round_in-Keeps _ now s w = Keeps-refl w

  reset-Keeps :
      (state : ScheduleState) (now s : ℕ) (w : World) → Keeps w (reset_entry state now s w)
  reset-Keeps ScheduleState.running now s w = update_schd_entr-Keeps now s (pos 0) w
  reset-Keeps _ now s w = Keeps-refl w

  finish-Keeps :
      (state : ScheduleState) (now s : ℕ) (p : World × ScheduleState)
      → Keeps p.0 (finish_round state now s p)
  finish-Keeps state now s (w, new_state) = elim (Bool-cases (same_state new_state state)) [
    | inl e ↦ rw e (Keeps-refl w)
    | inr e ↦ rw e (
        Keeps-trans (set_state-Keeps now s new_state w)
          (reset-Keeps state now s (set_state now s new_state w)))
  ]

  pub thread_start-Keeps : (now s : ℕ) (w : World) → Keeps w (thread_start now s w)
  unfolding thread_start
  thread_start-Keeps now s w = update_time_status-Keeps now s (w.schedule s).start_time "ActStrTm" w

  pub thread_round-Keeps : (now s : ℕ) (w : World) → Keeps w (thread_round now s w)
  unfolding thread_round
  thread_round-Keeps now s w =
      Keeps-trans (round_in-Keeps (get_state w s) now s w)
        (finish-Keeps (get_state w s) now s (round_in (get_state w s) now s w))
