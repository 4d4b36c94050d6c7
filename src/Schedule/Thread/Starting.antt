-- ===== src/Schedule/Thread/Starting.antt =====
-- When a READY schedule that is not periodic is started (schedule_thread of schedule.c).
use der_scheduling.Prelude.{
  ℕ, ◌≤◌, ◌<◌, ◌≡◌, refl, ap, ◌≢◌, ◌⊎◌, inl, inr, List, arith, false, ◌==◌, ltb, Bool-cases,
}
use der_scheduling.Platform.{Platform}
use der_scheduling.World.{World, Schedule, ScheduleState, set_schedule}
use der_scheduling.Schedule.Calendar.{get_next_start_time}
use der_scheduling.Schedule.Calendar.Earliest.{
  IsEarliest, start_times, get_next_start_time-IsEarliest,
}
use der_scheduling.Schedule.Thread.{
  set_next_start_time, ensure_next_start_time, start_schedule, ready_round,
}
use der_scheduling.Schedule.Thread.Execution.{start_schedule-struct}

earliest-future : (now r : ℕ) (ts : List ℕ) → IsEarliest now ts r → (r ≡ 0) ⊎ (now < r)
earliest-future now r ts (inl (z, past)) = inl z
earliest-future now r ts (inr (lt, e, least)) = inr lt

module _ ⦃lib : Platform⦄ where
  -- What a round makes of a READY schedule: it is started at the start time `known` that is past, or it
  -- waits for one that is not past, or it looks one up, the earliest of the future ones, and waits.
  pub data StartOutcome (now known : ℕ) (times : List ℕ) : ScheduleState → Schedule → Type 0 where
    started :
        {x : Schedule}
        → known ≢ 0
        → known < now
        → x.start_time ≡ known
        → StartOutcome now known times ScheduleState.running x
    waits :
        {x : Schedule}
        → known ≢ 0
        → now ≤ known
        → x.next_start_time ≡ known
        → StartOutcome now known times ScheduleState.ready x
    looked_up :
        {x : Schedule}
        → known ≡ 0
        → IsEarliest now times x.next_start_time
        → StartOutcome now known times ScheduleState.ready x

module _ ⦃lib : Platform⦄ (now s : ℕ) (w : World) where
  round_known_past :
      (w.schedule s).next_start_time ≢ 0
      → (w.schedule s).next_start_time < now
      → ready_round now s w ≡ (start_schedule now s w, ScheduleState.running)
  unfolding ready_round ensure_next_start_time
  round_known_past h k = ground arith

  round_known_future :
      (w.schedule s).next_start_time ≢ 0
      → now ≤ (w.schedule s).next_start_time
      → ready_round now s w ≡ (w, ScheduleState.ready)
  unfolding ready_round ensure_next_start_time
  round_known_future h k = ground arith

  round_unknown :
      (w.schedule s).next_start_time ≡ 0
      → (get_next_start_time now w s ≡ 0) ⊎ (now < get_next_start_time now w s)
      → ready_round now s w
        ≡ (set_next_start_time s (get_next_start_time now w s) w, ScheduleState.ready)
  unfolding ready_round ensure_next_start_time set_next_start_time set_schedule
  round_unknown h (inl z) = ground arith
  round_unknown h (inr lt) = ground arith

  next_set : (t : ℕ) → ((set_next_start_time s t w).schedule s).next_start_time ≡ t
  unfolding set_next_start_time set_schedule
  next_set t = ground arith

  -- A READY schedule that is not periodic is started in a round exactly if its thread knows a start
  -- time and the clock is past it, and then at that time. Without one the thread looks up the earliest
  -- of the start times after the clock, and the schedule is not started in that round.
  pub ready_round-StartOutcome :
      (w.schedule s).is_periodic ≡ false
      → let (w', state) = ready_round now s w in
        StartOutcome now
          (w.schedule s).next_start_time
          (start_times w (lib.get_children (w.schedule s).schedule_ln))
          state
          (w'.schedule s)
  ready_round-StartOutcome p = elim (Bool-cases ((w.schedule s).next_start_time == 0)) [
    | inl unknown ↦
        let next = get_next_start_time now w s in
        let least = get_next_start_time-IsEarliest w s now p in
        rw (round_unknown (ground arith) (earliest-future now next _ least))
          (looked_up (ground arith) (rw (next_set next) least))
    | inr known ↦ elim (Bool-cases (ltb (w.schedule s).next_start_time now)) [
      | inl past ↦ rw (round_known_past (ground arith) (ground arith)) (
          started (ground arith) (ground arith)
            (ap (λ (x : Schedule). x.start_time) (start_schedule-struct now s w)))
      | inr future ↦
          rw (round_known_future (ground arith) (ground arith))
            (waits (ground arith) (ground arith) refl)
    ]
  ]
