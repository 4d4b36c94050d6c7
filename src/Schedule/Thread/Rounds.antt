-- ===== src/Schedule/Thread/Rounds.antt =====
-- The states that a round of the thread goes through.
use der_scheduling.Prelude.{
  ℕ, ◌≤◌, ◌≡◌, refl, ◌∙◌, ◌≢◌, ◌⊎◌, Bool, true, false, arith, inl, inr, if◌then◌else◌, ◌==◌,
}
use der_scheduling.Platform.{Platform}
use der_scheduling.World.{World, ScheduleState, set_schedule}
use der_scheduling.Schedule.Getters.{get_state}
use der_scheduling.Schedule.Calendar.{get_next_start_time}
use der_scheduling.Schedule.Thread.{
  set_next_start_time, ensure_next_start_time, is_due, ready_round, end_schedule, running_round,
  round_in, thread_round,
}

-- The transitions of a schedule that its thread makes.
pub data Transition : ScheduleState → ScheduleState → Type 0 where
  stay : {a : ScheduleState} → Transition a a
  start : Transition ScheduleState.ready ScheduleState.running
  finish : Transition ScheduleState.running ScheduleState.not_ready
  rearm : Transition ScheduleState.running ScheduleState.ready

module _ ⦃lib : Platform⦄ (now s : ℕ) (w : World) where
  -- The next start time that the round works with.
  abbrev due_time : ℕ
  due_time =
      if (w.schedule s).next_start_time == 0
      then get_next_start_time now w s
      else (w.schedule s).next_start_time

  -- A READY schedule is started exactly when it has a start time and the clock is past it.
  ready_round-result :
      (ready_round now s w).1
      ≡ (if is_due due_time now then ScheduleState.running else ScheduleState.ready)
  unfolding ready_round ensure_next_start_time set_next_start_time set_schedule
  ready_round-result = ground arith

  running_round-result :
      ((running_round now s w).1 ≡ ScheduleState.running)
      ⊎ ((running_round now s w).1 ≡ (end_schedule now s w).1)
  unfolding running_round
  running_round-result = ground arith

  pub end_schedule-result :
      ((end_schedule now s w).1 ≡ ScheduleState.ready)
      ⊎ ((end_schedule now s w).1 ≡ ScheduleState.not_ready)
  unfolding end_schedule
  end_schedule-result = ground arith

  from_ready :
      (b : Bool)
      → Transition ScheduleState.ready (if b then ScheduleState.running else ScheduleState.ready)
  from_ready true = start
  from_ready false = stay

  -- A round takes the schedule along one of the transitions: in no other state than READY does it
  -- start, in no other than RUNNING does it end, and from the others it does not move.
  pub round_in-Transition : (state : ScheduleState) → Transition state (round_in state now s w).1
  unfolding round_in
  round_in-Transition ScheduleState.ready = rw ready_round-result (from_ready (is_due due_time now))
  round_in-Transition ScheduleState.running = elim running_round-result [
    | inl e ↦ rw e stay
    | inr e ↦ elim end_schedule-result [ inl e' ↦ rw (e ∙ e') rearm | inr e' ↦ rw (e ∙ e') finish ]
  ]
  round_in-Transition _ = stay

  idle_round :
      get_state w s ≢ ScheduleState.ready
      → get_state w s ≢ ScheduleState.running
      → thread_round now s w ≡ w
  unfolding thread_round round_in
  idle_round h k = ground arith

  waiting_round :
      get_state w s ≡ ScheduleState.ready
      → (w.schedule s).next_start_time ≢ 0
      → now ≤ (w.schedule s).next_start_time
      → thread_round now s w ≡ w
  unfolding thread_round round_in ready_round ensure_next_start_time
  waiting_round e h k = ground arith

  is_ready_or_not :
      (state : ScheduleState) → (state ≡ ScheduleState.ready) ⊎ (state ≢ ScheduleState.ready)
  is_ready_or_not ScheduleState.ready = inl refl
  is_ready_or_not _ = inr (λ h. cc h)

  -- A round of a schedule that is not RUNNING changes nothing in the whole state, unless the schedule
  -- is READY and its start time is past or has not been looked up.
  pub thread_round_quiet :
      get_state w s ≢ ScheduleState.running
      → (get_state w s ≢ ScheduleState.ready)
        ⊎ (((w.schedule s).next_start_time ≢ 0) × (now ≤ (w.schedule s).next_start_time))
      → thread_round now s w ≡ w
  thread_round_quiet k (inl h) = idle_round h k
  thread_round_quiet k (inr (h, le)) = elim (is_ready_or_not (get_state w s)) [
    | inl e ↦ waiting_round e h le
    | inr ne ↦ idle_round ne k
  ]
