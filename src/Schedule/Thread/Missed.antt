-- ===== src/Schedule/Thread/Missed.antt =====
-- A schedule that is enabled between its start time and the end of its entries.
use der_scheduling.Prelude.{
  ℕ, ◌≤◌, ◌≡◌, refl, ◌∙◌, ap, inl, inr, List, [], ◌∷◌, ◌++◌, All, arith, false,
}
use der_scheduling.Platform.{Platform}
use der_scheduling.World.{World, Schedule, ScheduleState}
use der_scheduling.Schedule.Calendar.Earliest.{IsEarliest, start_times}
use der_scheduling.Schedule.Enable.{enabled_schedule}
use der_scheduling.Schedule.Enable.Structs.{enabled_schedule-struct}
use der_scheduling.Schedule.Thread.{ready_round}
use der_scheduling.Schedule.Thread.Starting.{
  StartOutcome, started, waits, looked_up, ready_round-StartOutcome,
}

not_in-past :
    (now r : ℕ) (before after : List ℕ) → All (λ t. t ≤ now) (before ++ (r ∷ after)) → r ≤ now
not_in-past now r [] after h = h.0
not_in-past now r (x ∷ xs) after h = not_in-past now r xs after h.1

none-earliest : (now r : ℕ) (ts : List ℕ) → IsEarliest now ts r → All (λ t. t ≤ now) ts → r ≡ 0
none-earliest now r ts (inl (z, past)) h = z
none-earliest now r ts (inr (lt, (before, after, e), least)) h =
    absurd (omega (arith, not_in-past now r before after (rw e at h)))

module _ ⦃lib : Platform⦄ where
  outcome-missed :
      (now known : ℕ) (ts : List ℕ) (state : ScheduleState) (x : Schedule)
      → StartOutcome now known ts state x
      → known ≡ 0
      → All (λ t. t ≤ now) ts
      → (state ≡ ScheduleState.ready) × (x.next_start_time ≡ 0)
  outcome-missed now known ts _ x (started ne lt e) z h = absurd (ne z)
  outcome-missed now known ts _ x (waits ne le e) z h = absurd (ne z)
  outcome-missed now known ts _ x (looked_up e least) z h =
      (refl, none-earliest now x.next_start_time ts least h)

  -- If enabling is asked for of a schedule that is not periodic and whose thread knows no start time,
  -- and all its start times have come by a later round for a READY schedule, then that round does not
  -- start it, and the thread knows no start time after it. What the checks say to the request does
  -- not matter.
  pub missed_start :
      (enabled_at now s : ℕ) (w : World)
      → (w.schedule s).is_periodic ≡ false
      → (w.schedule s).next_start_time ≡ 0
      → let u = (enabled_schedule enabled_at s w).0 in
        All (λ t. t ≤ now) (start_times u (lib.get_children (u.schedule s).schedule_ln))
        → ((ready_round now s u).1 ≡ ScheduleState.ready)
          × (((ready_round now s u).0.schedule s).next_start_time ≡ 0)
  missed_start enabled_at now s w p n h =
      let u = (enabled_schedule enabled_at s w).0 in
      let e = enabled_schedule-struct enabled_at s w in
      outcome-missed now (u.schedule s).next_start_time _ _ _
        (ready_round-StartOutcome now s u (ap (λ (x : Schedule). x.is_periodic) e ∙ p))
        (ap (λ (x : Schedule). x.next_start_time) e ∙ n) h
