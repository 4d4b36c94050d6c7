-- ===== src/Schedule/Interval.antt =====
-- The interval between two entries, and the index of the entry that is due (schedule.c).
pub mod Window
use der_scheduling.Prelude.{
  ℕ, ◌+◌, ◌-◌, ◌/◌, ◌%◌, ◌^◌, Bool, true, false, Option, none, some, String, if◌then◌else◌, ◌==◌,
}
use der_scheduling.Prelude.Int.{ℤ, pos, negsuc, ◌*ℤ◌, wrap_int, int_of_uint64, uint64_of_int, leb_ℤ}
use der_scheduling.Platform.{Platform}
use der_scheduling.World.{World, Schedule}
use der_scheduling.Schedule.Getters.{int_setting, or_else}

-- The seconds of a time unit: `SIUnit` 4 second, 84 hour, 85 minute; else a second, with a message.
abbrev pub base_time : Option ℤ → ℤ
base_time none = pos 1
base_time (some (negsuc n)) = pos 1
base_time (some (pos n)) =
    if n == 4 then pos 1 else if n == 84 then pos 3600 else if n == 85 then pos 60 else pos 1

module _ ⦃lib : Platform⦄ where
  open lib use {Double, double_of_int, mul_double, pow10, to_uint64}

  -- 1.0 with no multiplier; `pow(10, 0)` is that too.
  abbrev pub multiplier : Option ℤ → Double
  multiplier none = double_of_int (pos 1)
  multiplier (some k) = pow10 k

  -- The products are `int`s, the last factor a `double`.
  abbrev interval_ms : Option ℤ → Option ℤ → Option ℤ → ℕ
  interval_ms unit mult none = 0
  interval_ms unit mult (some v) = to_uint64 (
      mul_double (double_of_int (wrap_int (wrap_int (v *ℤ base_time unit) *ℤ pos 1000)))
        (multiplier mult))

  unfoldable pub get_schd_intv_value_in_ms : World → ℕ → ℕ
  get_schd_intv_value_in_ms w s =
      interval_ms (int_setting w s "SchdIntv.units.SIUnit")
        (int_setting w s "SchdIntv.units.multiplier") (int_setting w s "SchdIntv.setVal")

  -- `Schedule_getSchdIntvInMs` returns it as an `int`.
  unfoldable pub get_schd_intv_in_ms : World → ℕ → ℤ
  unfolding get_schd_intv_value_in_ms
  get_schd_intv_in_ms w s = int_of_uint64 (get_schd_intv_value_in_ms w s)

  -- `(currentTime - startTime) / entryDurationInMs` in `uint64_t`, kept as an `int`; none is the
  -- division by zero.
  unfoldable pub get_current_idx : Schedule → ℕ → Option ℤ
  get_current_idx x current_time =
      let divisor = uint64_of_int x.entry_duration_in_ms in
      let idx = int_of_uint64 ((current_time + 2 ^ 64 - x.start_time) % 2 ^ 64 / divisor) in
      if divisor == 0
      then none
      else some (if leb_ℤ x.number_of_schedule_entries idx then negsuc 0 else idx)
