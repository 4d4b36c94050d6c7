-- ===== src/Schedule/Thread.antt =====
-- One round of the loop of schedule_thread (schedule.c), and the schedule's setters of its struct.
pub mod Stale
pub mod Execution
pub mod Output
pub mod Course
pub mod Missed
pub mod Starting
pub mod Rounds
use der_scheduling.Prelude.{
  ℕ, Bool, true, false, Option, none, some, if◌then◌else◌, ◌==◌, ltb, ◌&&◌, not,
}
use der_scheduling.Prelude.Int.{ℤ, pos, negsuc, ◌+ℤ◌, int_of_uint64, eqb_ℤ}
use der_scheduling.Platform.{Platform}
use der_scheduling.World.{World, Schedule, ScheduleState, set_schedule}
use der_scheduling.Schedule.Getters.{get_state, get_num_entr_value, value_at}
use der_scheduling.Schedule.Values.{get_schedule_value_attribute}
use der_scheduling.Schedule.Interval.{get_schd_intv_value_in_ms, get_current_idx}
use der_scheduling.Schedule.StartTimes.{erase_start_time}
use der_scheduling.Schedule.Calendar.{get_next_start_time}
use der_scheduling.Schedule.State.{
  same_state, set_state, update_act_str_tm, update_nxt_str_tm, update_current_value_quality,
  set_act_str_tm_quality, update_current_value, update_schd_entr, notify_controllers,
}

module _ ⦃lib : Platform⦄ where
  open lib use {Node, Value}

  unfoldable pub set_next_start_time : ℕ → ℕ → World → World
  set_next_start_time s t w = set_schedule s (record (w.schedule s) { next_start_time = t }) w

  unfoldable pub set_current_entry_idx : ℕ → ℤ → World → World
  set_current_entry_idx s i w = set_schedule s (record (w.schedule s) { current_entry_idx = i }) w

  -- The next start time is looked up where none is known.
  unfoldable pub ensure_next_start_time : ℕ → ℕ → World → World
  unfolding set_next_start_time
  ensure_next_start_time now s w =
      if (w.schedule s).next_start_time == 0
      then set_next_start_time s (get_next_start_time now w s) w
      else w

  -- The start time that is due is taken over with the interval and the number of entries;
  -- -2 stands for no entry so far.
  unfoldable pub load_execution : ℕ → World → World
  load_execution s w =
      set_schedule s
        (record (w.schedule s) {
          start_time = (w.schedule s).next_start_time;
          entry_duration_in_ms = int_of_uint64 (get_schd_intv_value_in_ms w s);
          number_of_schedule_entries = get_num_entr_value w s;
          current_entry_idx = negsuc 1;
        })
        w

  abbrev pub fault_on_zero : Option ℤ → World → World
  fault_on_zero none w = record w { faulted = true }
  fault_on_zero (some idx) w = w

  -- The entry's index is computed here too, and not used.
  unfoldable pub start_schedule : ℕ → ℕ → World → World
  unfolding load_execution set_next_start_time
  start_schedule now s w =
      let w1 = load_execution s w in
      let start = (w1.schedule s).start_time in
      let w2 = fault_on_zero (get_current_idx (w1.schedule s) now) w1 in
      let w3 = erase_start_time s start (update_act_str_tm now s start w2) in
      let w4 = set_next_start_time s (get_next_start_time now w3 s) w3 in
      update_nxt_str_tm now s (w4.schedule s).next_start_time w4

  abbrev pub is_due : ℕ → ℕ → Bool
  is_due next now = not (next == 0) && ltb next now

  -- The state READY; the result is the state to enter.
  unfoldable pub ready_round : ℕ → ℕ → World → World × ScheduleState
  ready_round now s w =
      let w' = ensure_next_start_time now s w in
      if is_due (w'.schedule s).next_start_time now
      then (start_schedule now s w', ScheduleState.running)
      else (w', ScheduleState.ready)

  abbrev pub output_value : ℕ → ℕ → ℤ → Option Value → World → World
  output_value now s idx none w = w
  output_value now s idx (some v) w =
      notify_controllers s (some v) now
        (update_schd_entr now s (idx +ℤ pos 1) (update_current_value now s v w))

  -- A new entry: its value becomes the current value and goes to the controllers.
  unfoldable pub output_entry : ℕ → ℕ → ℤ → World → World
  unfolding set_current_entry_idx
  output_entry now s idx w =
      set_current_entry_idx s idx
        (output_value now s idx (value_at w (get_schedule_value_attribute w s (idx +ℤ pos 1))) w)

  abbrev pub state_after_end : ℕ → ScheduleState
  state_after_end next = if next == 0 then ScheduleState.not_ready else ScheduleState.ready

  -- The end of the schedule.
  unfoldable pub end_schedule : ℕ → ℕ → World → World × ScheduleState
  unfolding set_next_start_time
  end_schedule now s w =
      let w1 = set_act_str_tm_quality now s true (update_current_value_quality now s true w) in
      let next = get_next_start_time now w1 s in
      let w2 = update_nxt_str_tm now s next (set_next_start_time s next w1) in
      (update_act_str_tm now s 0 w2, state_after_end next)

  -- The index -1, and the index of the entry that is out already.
  abbrev pub at_index : ℕ → ℕ → ℤ → World → World × ScheduleState
  at_index now s idx w =
      if eqb_ℤ idx (negsuc 0)
      then end_schedule now s w
      else if eqb_ℤ idx (w.schedule s).current_entry_idx
      then (w, ScheduleState.running)
      else (output_entry now s idx w, ScheduleState.running)

  abbrev pub at_computed : ℕ → ℕ → Option ℤ → World → World × ScheduleState
  at_computed now s none w = (record w { faulted = true }, ScheduleState.running)
  at_computed now s (some idx) w = at_index now s idx w

  -- The state RUNNING.
  unfoldable pub running_round : ℕ → ℕ → World → World × ScheduleState
  running_round now s w = at_computed now s (get_current_idx (w.schedule s) now) w

  unfoldable pub round_in : ScheduleState → ℕ → ℕ → World → World × ScheduleState
  round_in ScheduleState.ready now s w = ready_round now s w
  round_in ScheduleState.running now s w = running_round now s w
  round_in state now s w = (w, state)

  abbrev pub reset_entry : ScheduleState → ℕ → ℕ → World → World
  reset_entry ScheduleState.running now s w = update_schd_entr now s (pos 0) w
  reset_entry _ now s w = w

  abbrev pub finish_round : ScheduleState → ℕ → ℕ → World × ScheduleState → World
  finish_round state now s (w, new_state) =
      if same_state new_state state
      then w
      else reset_entry state now s (set_state now s new_state w)

  -- What the thread does before its loop.
  unfoldable pub thread_start : ℕ → ℕ → World → World
  thread_start now s w = update_act_str_tm now s (w.schedule s).start_time w

  -- One round of the loop, at one reading of the clock.
  unfoldable pub thread_round : ℕ → ℕ → World → World
  thread_round now s w = finish_round (get_state w s) now s (round_in (get_state w s) now s w)
