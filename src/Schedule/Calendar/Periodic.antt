-- ===== src/Schedule/Calendar/Periodic.antt =====
-- The next start time of a periodic schedule: updateNextPeriodicStartTime.
use der_scheduling.Prelude.{ℕ, ◌+◌, ◌^◌, ◌≤◌, ◌<◌, ◌≡◌, ◌⊎◌, ◌/◌, ◌%◌, some, arith}
use der_scheduling.Prelude.Int.{pos}
use der_scheduling.Platform.{Platform, Tm}
use der_scheduling.World.{World}
use der_scheduling.Schedule.Calendar.{
  SetCalValues, execution_end, unix_ms, next_daily, next_hourly, update_next_periodic_start_time,
}

module _ ⦃lib : Platform⦄ (w : World) (s : ℕ) where
  -- `r` is the start of an hourly schedule at `now`, of the one in the clock's hour, `start`, and the
  -- one an hour later: the first of them that is not over, where only the execution from `start` is
  -- taken to last; and 0 where both are over.
  abbrev pub IsUpcoming : (start now r : ℕ) → Type 0
  IsUpcoming start now r =
      ((r ≡ start) × ((now ≤ start) ⊎ (now < execution_end w s start)))
      ⊎ ((r ≡ start + 3600000)
          × (start < now)
          × (execution_end w s start ≤ now)
          × (now ≤ start + 3600000))
      ⊎ ((r ≡ 0) × (start + 3600000 < now) × (execution_end w s start ≤ now))

  hourly-IsUpcoming :
      (start now : ℕ)
      → start + 3600000 < 2 ^ 64
      → IsUpcoming start now (next_hourly w s start 0 now)
  unfolding next_hourly
  hourly-IsUpcoming start now h = ground arith

  -- Where no start time is known yet, and the start in the clock's hour is an hour or more below
  -- 2 ^ 64, a schedule whose setCal asks for a start each hour gets exactly this: the start in the
  -- clock's hour, if it is not past or its execution is still going on; or else the start an hour
  -- later, if that is not past; or else none. The clock converts to local time.
  pub update_next_periodic_start_time-IsUpcoming :
      (now : ℕ) (cal : SetCalValues) (tm : Tm)
      → cal.occ_type ≡ pos 0
      → cal.occ_per ≡ pos 0
      → lib.localtime (now / 1000) ≡ some tm
      → let start = unix_ms (record tm { min = cal.mn }) (now % 1000) in
        start + 3600000 < 2 ^ 64
        → IsUpcoming start now (update_next_periodic_start_time w s 0 now cal)
  unfolding update_next_periodic_start_time
  update_next_periodic_start_time-IsUpcoming now cal tm t p local h =
      rw (t, p, local) (hourly-IsUpcoming (unix_ms (record tm { min = cal.mn }) (now % 1000)) now h)

  -- A start time that is not past replaces an earlier one that is known already, for an hourly and
  -- for a daily schedule.
  pub next_start-takes_later :
      (start next now : ℕ)
      → now ≤ start
      → next < start
      → (next_hourly w s start next now ≡ start) × (next_daily w s start next now ≡ start)
  unfolding next_hourly next_daily
  next_start-takes_later start next now h k = ground arith

  -- Where no start time is known, a daily schedule whose start is past and whose execution is over
  -- gets none, for a start an hour or more below 2 ^ 64.
  pub next_daily-none :
      (start now : ℕ)
      → start < now
      → execution_end w s start ≤ now
      → start + 3600000 < 2 ^ 64
      → next_daily w s start 0 now ≡ 0
  unfolding next_daily
  next_daily-none start now h k l = ground arith
