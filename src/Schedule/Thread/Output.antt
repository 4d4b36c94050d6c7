-- ===== src/Schedule/Thread/Output.antt =====
-- What a round of a RUNNING schedule does with the value of an entry (schedule_thread of schedule.c).
use der_scheduling.Prelude.{
  ℕ, ◌+◌, ◌≡◌, refl, ap, ◌≢◌, inl, inr, Option, some, none, arith, Bool-cases, ◌⊎◌,
}
use der_scheduling.Prelude.Int.{pos, eqb_ℤ, ◌+ℤ◌}
use der_scheduling.Platform.{Platform}
use der_scheduling.World.{World}
use der_scheduling.Schedule.Getters.{value_at}
use der_scheduling.Schedule.Values.{get_schedule_value_attribute}
use der_scheduling.Schedule.Interval.{get_current_idx}
use der_scheduling.Schedule.State.{notify_controllers, update_schd_entr, update_current_value}
use der_scheduling.Schedule.Thread.{
  running_round, output_value, output_entry, set_current_entry_idx,
}
use der_scheduling.Schedule.Thread.Execution.{
  running_round-quiet, running_round-outputs, eqb_ℤ→≡, eqb_ℤ_self,
}

next_number : (k : ℕ) → (pos k +ℤ pos 1) ≡ pos (k + 1)
unfolding ◌+ℤ◌
next_number k = ground arith

module _ ⦃lib : Platform⦄ where
  open lib use {Value}

  -- What becomes of the value of entry number `i`, where it has one: it becomes the schedule's current
  -- value, its number is written to SchdEntr, and it goes to the schedule controllers.
  abbrev pub value_out : (now s i : ℕ) → Option Value → World → World
  value_out now s i none w = w
  value_out now s i (some v) w =
      notify_controllers s (some v) now
        (update_schd_entr now s (pos i) (update_current_value now s v w))

  -- The round puts out the entry with index `k`, whose number is `k + 1`, unless it is out already.
  abbrev pub PutsOut : (now s k : ℕ) → World → World → Type 0
  PutsOut now s k w w' =
      (((w.schedule s).current_entry_idx ≡ pos k) × (w' ≡ w))
      ⊎ (((w.schedule s).current_entry_idx ≢ pos k)
          × (w'
              ≡ set_current_entry_idx s (pos k) (
                  value_out now s (k + 1)
                    (value_at w (get_schedule_value_attribute w s (pos (k + 1)))) w)))

  output_value-value_out :
      (now s k : ℕ) (o : Option Value) (w : World)
      → output_value now s (pos k) o w ≡ value_out now s (k + 1) o w
  output_value-value_out now s k none w = refl
  output_value-value_out now s k (some v) w = rw (next_number k) refl

  output_entry-value_out :
      (now s k : ℕ) (w : World)
      → output_entry now s (pos k) w
        ≡ set_current_entry_idx s (pos k) (
            value_out now s (k + 1) (value_at w (get_schedule_value_attribute w s (pos (k + 1)))) w)
  unfolding output_entry
  output_entry-value_out now s k w = rw (next_number k) (
      ap (set_current_entry_idx s (pos k)) (
        output_value-value_out now s k (value_at w (get_schedule_value_attribute w s (pos (k + 1))))
          w))

  pub round-PutsOut :
      (now s k : ℕ) (w : World)
      → get_current_idx (w.schedule s) now ≡ some (pos k)
      → PutsOut now s k w (running_round now s w).0
  round-PutsOut now s k w e = elim (Bool-cases (eqb_ℤ (pos k) (w.schedule s).current_entry_idx)) [
    | inl out ↦
        let same = eqb_ℤ→≡ (pos k) _ out in
        inl (same, rw (running_round-quiet now s (pos k) w e same (λ eq. cc eq)) refl)
    | inr fresh ↦ inr (
      λ same. cc (same, fresh, eqb_ℤ_self (pos k)),
      rw (running_round-outputs now s (pos k) w e fresh (λ eq. cc eq))
          (output_entry-value_out now s k w),
    )
  ]
