-- ===== src/Schedule/Setters.antt =====
-- The functions of schedule.c that set a schedule's settings in place, which restoring uses.
pub mod Readback
use der_scheduling.Prelude.{ℕ, Bool, true, Option, none, some, String}
use der_scheduling.Prelude.Int.{ℤ, pos, uint64_of_int}
use der_scheduling.Platform.{Platform, SetValue, set_int32, set_boolean}
use der_scheduling.World.{World, ScheduleState, set_schedule}
use der_scheduling.Schedule.Getters.{ln_child, value_at, integer_of, int_setting}
use der_scheduling.Schedule.Interval.{base_time, multiplier}
use der_scheduling.Schedule.State.{update_state}

module _ ⦃lib : Platform⦄ where
  open lib use {
    Node, Value, set_value, Double, double_of_int, double_of_uint64, mul_double, div_double, to_int,
  }

  abbrev set_present : SetValue Double → Node → Option Value → World → World
  set_present u n none w = w
  set_present u n (some v) w = record w { model = set_value u n w.model }

  abbrev set_at : SetValue Double → Option Node → World → World
  set_at u none w = w
  set_at u (some n) w = set_present u n (value_at w (some n)) w

  unfoldable pub set_prio : ℕ → ℤ → World → World
  set_prio s i w = set_at (set_int32 i) (ln_child w s "SchdPrio.setVal") w

  unfoldable pub set_schd_reuse : ℕ → Bool → World → World
  set_schd_reuse s reuse w = set_at (set_boolean reuse) (ln_child w s "SchdReuse.setVal") w

  unfoldable pub set_num_entr : ℕ → ℤ → World → World
  set_num_entr s i w = set_at (set_int32 i) (ln_child w s "NumEntr.setVal") w

  -- `(double)interval / ((double)baseTime * 1000.0 * multiPl)`
  abbrev interval_value : Option ℤ → Option ℤ → ℕ → ℤ
  interval_value unit mult interval = to_int (
      div_double (double_of_uint64 interval) (
        mul_double (mul_double (double_of_int (base_time unit)) (double_of_int (pos 1000)))
          (multiplier mult)))

  abbrev set_integer : Option Node → Option ℤ → ℤ → World → World
  set_integer none old i w = w
  set_integer (some n) none i w = w
  set_integer (some n) (some old) i w = record w { model = set_value (set_int32 i) n w.model }

  -- Only a value that is an integer is set.
  unfoldable pub set_schd_intv_value_in_ms : ℕ → ℕ → World → World
  set_schd_intv_value_in_ms s interval w =
      let value =
        interval_value (int_setting w s "SchdIntv.units.SIUnit")
          (int_setting w s "SchdIntv.units.multiplier") interval in
      set_integer (ln_child w s "SchdIntv.setVal") (int_setting w s "SchdIntv.setVal") value w

  -- `Schedule_setSchIntvInMs`: the `int` goes to a `uint64_t`.
  unfoldable pub set_schd_intv_in_ms : ℕ → ℤ → World → World
  unfolding set_schd_intv_value_in_ms
  set_schd_intv_in_ms s value w =
      let w' = set_schd_intv_value_in_ms s (uint64_of_int value) w in
      set_schedule s (record (w'.schedule s) { entry_duration_in_ms = value }) w'

  -- `Schedule_setReuse`, which does not read its argument.
  unfoldable pub set_reuse : ℕ → Bool → World → World
  set_reuse s reuse w = set_schedule s (record (w.schedule s) { reuse = true }) w

  -- `Schedule_setState`
  abbrev pub schedule_set_state : ℕ → ℕ → ScheduleState → World → World
  schedule_set_state now s state w = update_state now s state w
