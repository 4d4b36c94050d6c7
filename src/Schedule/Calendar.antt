-- ===== src/Schedule/Calendar.antt =====
-- Periodic start times: setCal and the next start time (schedule.c). The time zone is the platform's.
pub mod Periodic
pub mod Earliest
use der_scheduling.Prelude.{
  ℕ, ◌+◌, ◌*◌, ◌/◌, ◌%◌, ◌^◌, Bool, true, false, Option, none, some, List, [], ◌∷◌, String,
  if◌then◌else◌, ◌==◌, ltb, leb, ◌||◌,
}
use der_scheduling.Prelude.Int.{ℤ, pos, negsuc, ◌*ℤ◌, uint64_of_int, wrap_int}
use der_scheduling.Platform.{Platform, AttributeType, Tm, int8u, enumerated}
use der_scheduling.World.{World}
use der_scheduling.Schedule.Getters.{value_at, get_num_entr}
use der_scheduling.Schedule.Interval.{get_schd_intv_in_ms}
use der_scheduling.Schedule.StartTimes.{check_if_str_tm, update_next_start_time}

-- `struct sSetCalValues`
pub record SetCalValues : Type 0 where
  pub occ_type : ℤ
  pub occ_per : ℤ
  pub hr : ℕ
  pub mn : ℕ

-- `handleSetCal` returns false on an error, and ends with no `return` when all is well.
pub data SetCalResult : Type 0 where
  rejected : SetCalResult
  reached_end : SetCalValues → SetCalResult

abbrev is_enumerated : AttributeType → Bool
is_enumerated enumerated = true
is_enumerated _ = false

abbrev is_int8u : AttributeType → Bool
is_int8u int8u = true
is_int8u _ = false

abbrev is_supported_period : ℤ → Bool
is_supported_period (pos n) = n == 0 || n == 1
is_supported_period (negsuc n) = false

abbrev is_zero : ℤ → Bool
is_zero (pos n) = n == 0
is_zero (negsuc n) = false

abbrev is_one : ℤ → Bool
is_one (pos n) = n == 1
is_one (negsuc n) = false

abbrev hour_ms : ℕ
hour_ms = 3600000

-- C's `a <= b`, as the `int` that the chained comparison goes on with.
abbrev le_int : ℕ → ℕ → ℕ
le_int a b = if leb a b then 1 else 0

-- The next start time where the computed one is not past. The condition is the source's,
-- `startTime <= startTime <= nextStartTime || nextStartTime == 0`.
unfoldable pub upcoming : ℕ → ℕ → ℕ
upcoming start next = if leb (le_int start start) next || next == 0 then start else next

abbrev pub later_by_hour : ℕ → ℕ
later_by_hour start = (start + hour_ms) % 2 ^ 64

infixl 5 ◌>>=◌
abbrev ◌>>=◌ {ℓ} : {A : Type ℓ} → Option A → (A → SetCalResult) → SetCalResult
none >>= f = rejected
some a >>= f = f a

-- A condition that the source answers with `return false` where it fails.
abbrev require : Bool → Option (Unit {0})
require true = some tt
require false = none

module _ ⦃lib : Platform⦄ where
  open lib use {
    Node, get_child, get_children, node_name, attribute_type, mms_value, to_int32, to_uint32,
    localtime, timelocal, missing_return,
  }

  -- The values are written as far as the checks go; a caller reads them only where all pass.
  unfoldable pub handle_set_cal : World → Node → SetCalResult
  handle_set_cal w obj = do
    set_cal ← get_child (some obj) "setCal"
    occ ← get_child (some set_cal) "occ"
    occ_type ← get_child (some set_cal) "occType"
    typed ← require (is_enumerated (attribute_type occ_type))
    let occ_type_val = to_int32 (mms_value w.model occ_type)
    occ_per ← get_child (some set_cal) "occPer"
    typed ← require (is_enumerated (attribute_type occ_per))
    let occ_per_val = to_int32 (mms_value w.model occ_per)
    week_day ← get_child (some set_cal) "weekDay"
    month ← get_child (some set_cal) "month"
    day ← get_child (some set_cal) "day"
    typed ← require (is_int8u (attribute_type day))
    in_range ← require (leb (to_uint32 (mms_value w.model day)) 31)
    hr ← get_child (some set_cal) "hr"
    typed ← require (is_int8u (attribute_type hr))
    let hr_val = to_uint32 (mms_value w.model hr)
    in_range ← require (leb hr_val 23)
    mn ← get_child (some set_cal) "mn"
    typed ← require (is_int8u (attribute_type mn))
    let mn_val = to_uint32 (mms_value w.model mn)
    in_range ← require (leb mn_val 59)
    reached_end
        (record { occ_type = occ_type_val; occ_per = occ_per_val; hr = hr_val; mn = mn_val })

  -- `(timelocal(tm) * 1000) + msPart`, as a `uint64_t`.
  abbrev pub unix_ms : Tm → ℕ → ℕ
  unix_ms tm ms = (uint64_of_int (timelocal tm *ℤ pos 1000) + ms) % 2 ^ 64

  -- `Schedule_getSchdIntvInMs(self) * Schedule_getNumEntr(self)`, an `int`, added to a `uint64_t`.
  abbrev pub execution_end : World → ℕ → ℕ → ℕ
  execution_end w s start =
      (start + uint64_of_int (wrap_int (get_schd_intv_in_ms w s *ℤ get_num_entr w s))) % 2 ^ 64

  -- occPer = Day: an hour after a past start, and only if that brings the next start time forward.
  unfoldable pub next_daily : World → ℕ → ℕ → ℕ → ℕ → ℕ
  unfolding upcoming
  next_daily w s start next now =
      if leb now start
      then upcoming start next
      else if ltb now (execution_end w s start)
      then start
      else if leb (later_by_hour start) next || next == 0
      then (if leb (later_by_hour start) next then later_by_hour start else next)
      else next

  -- occPer = Hour
  unfoldable pub next_hourly : World → ℕ → ℕ → ℕ → ℕ → ℕ
  unfolding upcoming
  next_hourly w s start next now =
      if leb now start
      then upcoming start next
      else if ltb now (execution_end w s start)
      then start
      else if leb now (later_by_hour start)
      then (if leb (later_by_hour start) next || next == 0 then later_by_hour start else next)
      else next

  abbrev next_from_tm : World → ℕ → SetCalValues → ℕ → ℕ → Option Tm → ℕ
  next_from_tm w s cal next now none = next
  next_from_tm w s cal next now (some tm) =
      if is_one cal.occ_per
      then next_daily w s (unix_ms (record tm { hour = cal.hr }) (now % 1000)) next now
      else next_hourly w s (unix_ms (record tm { min = cal.mn }) (now % 1000)) next now

  unfoldable pub update_next_periodic_start_time : World → ℕ → ℕ → ℕ → SetCalValues → ℕ
  unfolding next_daily next_hourly
  update_next_periodic_start_time w s next now cal =
      if is_zero cal.occ_type
      then (if is_supported_period cal.occ_per
          then next_from_tm w s cal next now (localtime (now / 1000))
          else next)
      else next

  -- The caller tests what `handleSetCal` returns.
  abbrev next_from_set_cal : World → ℕ → ℕ → ℕ → SetCalResult → ℕ
  next_from_set_cal w s next now rejected = next
  next_from_set_cal w s next now (reached_end cal) =
      if missing_return then update_next_periodic_start_time w s next now cal else next

  abbrev next_of_object : Bool → World → ℕ → Node → ℕ → ℕ → ℕ
  next_of_object true w s obj next now = next_from_set_cal w s next now (handle_set_cal w obj)
  next_of_object false w s obj next now = update_next_start_time w obj next now

  unfoldable pub next_of_objects : Bool → World → ℕ → ℕ → List Node → ℕ → ℕ
  next_of_objects periodic w s now [] next = next
  next_of_objects periodic w s now (n ∷ ns) next =
      next_of_objects periodic w s now ns
        (if check_if_str_tm (node_name n) then next_of_object periodic w s n next now else next)

  unfoldable pub get_next_start_time : ℕ → World → ℕ → ℕ
  unfolding next_of_objects handle_set_cal update_next_periodic_start_time
  get_next_start_time now w s =
      next_of_objects (w.schedule s).is_periodic w s now (get_children (w.schedule s).schedule_ln) 0
