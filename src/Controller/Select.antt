-- ===== src/Controller/Select.antt =====
-- Which schedule is active: scheduleController_getActiveSchedule of schedule_controller.c.
pub mod Arbitration
use der_scheduling.Prelude.{
  ℕ, Bool, true, false, Option, none, some, List, [], ◌∷◌, if◌then◌else◌, ltb, ◌||◌, ◌&&◌,
}
use der_scheduling.Prelude.Int.{ltb_ℤ, eqb_ℤ}
use der_scheduling.Platform.{Platform}
use der_scheduling.World.{World}
use der_scheduling.Schedule.Getters.{get_prio, is_running}

module _ ⦃lib : Platform⦄ where
  -- The schedule `s` takes the place of the active schedule `a`.
  unfoldable pub replaces : World → ℕ → ℕ → Bool
  replaces w s a =
      if ltb_ℤ (get_prio w a) (get_prio w s)
      then true
      else if eqb_ℤ (get_prio w s) (get_prio w a)
      then ltb (w.schedule a).start_time (w.schedule s).start_time
      else false

  abbrev pub challenge : World → ℕ → Option ℕ → Option ℕ
  challenge w s none = some s
  challenge w s (some a) = if replaces w s a then some s else some a

  unfoldable pub select_active : World → List ℕ → Option ℕ → Option ℕ
  select_active w [] active = active
  select_active w (s ∷ ss) active =
      select_active w ss (if is_running w s then challenge w s active else active)

  unfoldable pub get_active_schedule : World → ℕ → Option ℕ
  unfolding select_active replaces
  get_active_schedule w c = select_active w (w.controller c).schedules none
