-- ===== src/Schedule/Thread/Course.antt =====
-- The course of an execution: rounds of a RUNNING schedule at any readings of the clock.
use der_scheduling.Prelude.{
  ℕ, ◌+◌, ◌-◌, ◌*◌, ◌/◌, ◌^◌, ◌≤◌, ◌<◌, ◌≡◌, refl, ap, ◌≢◌, ◌↔◌, inl, inr, Option, some, List, [],
  ◌∷◌, All, arith, ltb, suc, Bool-cases,
}
use der_scheduling.Prelude.Int.{ℤ, pos, negsuc, eqb_ℤ}
use der_scheduling.Platform.{Platform}
use der_scheduling.World.{World, Schedule, ScheduleState}
use der_scheduling.Schedule.Interval.{get_current_idx}
use der_scheduling.Schedule.Interval.Window.{
  IsIndexAt, get_current_idx-IsIndexAt, div_window, mul_mono,
}
use der_scheduling.Schedule.Thread.{running_round}
use der_scheduling.Schedule.Thread.Rounds.{end_schedule-result}
use der_scheduling.Schedule.Thread.Output.{PutsOut, round-PutsOut}
use der_scheduling.Schedule.Thread.Execution.{
  running_round-quiet, running_round-outputs, output_entry-struct, eqb_ℤ→≡,
}

-- A reading of the clock during the execution.
abbrev pub IsDuring : (start d n now : ℕ) → Type 0
IsDuring start d n now = (start ≤ now) × (now < start + n * d) × (now < 2 ^ 64)

quotient-below : (t n d : ℕ) → 0 < d → t < n * d → t / d < n
quotient-below t n d d0 h = elim (Bool-cases (ltb (t / d) n)) [
  | inl lt ↦ ground arith
  | inr ge ↦ absurd (omega (arith, mul_mono n (t / d) d (ground arith), (div_window t d d0).0))
]

window-entry :
    (start d n now : ℕ) (r : Option ℤ)
    → IsIndexAt start d n now r
    → now < start + n * d
    → (k : ℕ) × (r ≡ some (pos k)) × (start + k * d ≤ now) × (now < start + k * d + d)
window-entry start d n now r (inl (e, h)) before = absurd (omega arith)
window-entry start d n now r (inr (k, e, lt, a, b)) before = (k, e, a, b)

window-end :
    (start d n now : ℕ) (r : Option ℤ)
    → IsIndexAt start d n now r
    → start + n * d ≤ now
    → r ≡ some (negsuc 0)
window-end start d n now r (inl (e, h)) past = e
window-end start d n now r (inr (k, e, lt, a, b)) past =
    absurd (omega (arith, mul_mono (suc k) n d lt))

module _ ⦃lib : Platform⦄ where
  -- An execution of `n` entries of `d` milliseconds from `start` on, within the ranges of the types.
  pub record IsExecution (x : Schedule) (start d n : ℕ) : Type 0 where
    pub starts : x.start_time ≡ start
    pub duration : x.entry_duration_in_ms ≡ pos d
    pub entries : x.number_of_schedule_entries ≡ pos n
    pub some_duration : 0 < d
    pub duration_fits : d < 2 ^ 31
    pub entries_fit : n < 2 ^ 31

  index-at :
      (x : Schedule) (start d n now : ℕ)
      → IsExecution x start d n
      → start ≤ now
      → now < 2 ^ 64
      → (now - start) / d < 2 ^ 31
      → IsIndexAt start d n now (get_current_idx x now)
  index-at x start d n now h a b q = rw (← h.starts) (
      get_current_idx-IsIndexAt x now d n h.duration h.entries h.some_duration h.duration_fits
        (rw h.starts a) b (rw h.starts q))

  -- A round before the end, by its index.
  indexed_round :
      (now s : ℕ) (idx : ℤ) (w : World)
      → get_current_idx (w.schedule s) now ≡ some idx
      → idx ≢ negsuc 0
      → ((running_round now s w).1 ≡ ScheduleState.running)
        × ((running_round now s w).0.schedule s ≡ record (w.schedule s) { current_entry_idx = idx })
  indexed_round now s idx w e h = elim (Bool-cases (eqb_ℤ idx (w.schedule s).current_entry_idx)) [
    | inl out ↦
        rw (running_round-quiet now s idx w e (eqb_ℤ→≡ idx _ out) h) (
          refl,
          ap (λ (i : ℤ). record (w.schedule s) { current_entry_idx = i }) (eqb_ℤ→≡ idx _ out),
        )
    | inr fresh ↦
        rw (running_round-outputs now s idx w e fresh h) (refl, output_entry-struct now s idx w)
  ]

  indexed_during :
      (x : Schedule) (start d n now : ℕ)
      → IsExecution x start d n
      → IsDuring start d n now
      → (k : ℕ) × (get_current_idx x now ≡ some (pos k))
        × (start + k * d ≤ now)
        × (now < start + k * d + d)
  indexed_during x start d n now h (a, b, c) =
      window-entry start d n now (get_current_idx x now)
        (index-at x start d n now h a c (
          omega
            (arith, quotient-below (now - start) n d h.some_duration (omega arith), h.entries_fit)))
        b

  -- Rounds one after the other at the given readings of the clock.
  abbrev pub running_rounds : List ℕ → ℕ → World → World
  running_rounds [] s w = w
  running_rounds (t ∷ ts) s w = running_rounds ts s (running_round t s w).0

  during_round-IsExecution :
      (start d n t s : ℕ) (w : World)
      → IsExecution (w.schedule s) start d n
      → IsDuring start d n t
      → IsExecution ((running_round t s w).0.schedule s) start d n
  during_round-IsExecution start d n t s w h during =
      let (k, e, a, b) = indexed_during (w.schedule s) start d n t h during in
      rw (indexed_round t s (pos k) w e (λ eq. cc eq)).1 (record {
        starts = h.starts;
        duration = h.duration;
        entries = h.entries;
        some_duration = h.some_duration;
        duration_fits = h.duration_fits;
        entries_fit = h.entries_fit;
      })

  -- During an execution within the ranges of the types, after any number of rounds at any readings
  -- of the clock, the next round goes on running and leaves the entry out whose interval holds its
  -- reading. If that entry is out already, the round changes nothing; or else its value, where it has
  -- one, becomes the current value and goes to the schedule controllers.
  pub running_rounds-entry :
      (start d n s : ℕ) (ts : List ℕ) (now : ℕ) (w : World)
      → IsExecution (w.schedule s) start d n
      → All (IsDuring start d n) ts
      → IsDuring start d n now
      → let (w', state) = running_round now s (running_rounds ts s w) in
        (state ≡ ScheduleState.running)
        × ((k : ℕ) × ((w'.schedule s).current_entry_idx ≡ pos k)
            × (start + k * d ≤ now)
            × (now < start + k * d + d)
            × PutsOut now s k (running_rounds ts s w) w')
  running_rounds-entry start d n s [] now w h all during =
      let (k, e, a, b) = indexed_during (w.schedule s) start d n now h during in
      let round = indexed_round now s (pos k) w e (λ eq. cc eq) in
      (
        round.0,
        (k, ap (λ (x : Schedule). x.current_entry_idx) round.1, a, b, round-PutsOut now s k w e),
      )
  running_rounds-entry start d n s (t ∷ ts) now w h (first, rest) during =
      running_rounds-entry start d n s ts now (running_round t s w).0
        (during_round-IsExecution start d n t s w h first) rest during

  ended-not_running :
      (now s : ℕ) (w : World)
      → get_current_idx (w.schedule s) now ≡ some (negsuc 0)
      → (running_round now s w).1 ≢ ScheduleState.running
  unfolding running_round
  ended-not_running now s w e r = elim (end_schedule-result now s w) [
    | inl ready ↦ cc (e, ready, r)
    | inr idle ↦ cc (e, idle, r)
  ]

  -- A RUNNING schedule whose execution is within the ranges of the types stays RUNNING in a round
  -- exactly as long as the clock is before the end of its last entry. The clock is not before the
  -- start, and less than 2 ^ 31 intervals have gone by.
  pub running_round_iff :
      (start d n now s : ℕ) (w : World)
      → IsExecution (w.schedule s) start d n
      → start ≤ now
      → now < 2 ^ 64
      → (now - start) / d < 2 ^ 31
      → ((running_round now s w).1 ≡ ScheduleState.running) ↔ (now < start + n * d)
  running_round_iff start d n now s w h a b q = (
    λ r. elim (Bool-cases (ltb now (start + n * d))) [
      | inl lt ↦ ground arith
      | inr ge ↦ absurd (
          ended-not_running now s w
            (window-end start d n now (get_current_idx (w.schedule s) now)
              (index-at (w.schedule s) start d n now h a b q) (ground arith))
            r)
    ],
    λ before.
        let (k, e, lo, hi) = indexed_during (w.schedule s) start d n now h (a, before, b) in
        (indexed_round now s (pos k) w e (λ eq. cc eq)).0,
  )
