-- ===== src/Scheduler.antt =====
-- src/scheduler/der_scheduler.c: the look-up of a schedule, and the functions that the user of the
-- scheduler calls with a reference.
pub mod Database
pub mod Create
use Prim.Native.Char.{code}
use text.Mathlib.Text.{◌==◌ as str_eq}
use der_scheduling.Prelude.{
  ℕ, Bool, true, false, Option, none, some, List, [], ◌∷◌, String, if◌then◌else◌, ◌==◌,
}
use der_scheduling.Platform.{Platform}
use der_scheduling.World.{World}
use der_scheduling.Schedule.Enable.{enable_schedule}
use der_scheduling.Schedule.Access.{
  enable_schedule_control, enable_write_access_to_schd_prio, enable_write_access_to_str_tm,
  enable_write_access_to_schd_reuse,
}

-- `Scheduler_ScheduleParameter`, with the values that the `switch` does not know.
pub data ScheduleParameter : Type 0 where
  schd_prio str_tm schd_reuse other_parameter : ScheduleParameter

module _ ⦃lib : Platform⦄ where
  open lib use {object_reference}

  unfoldable pub find_schedule : World → Bool → String → List ℕ → Option ℕ
  find_schedule w without_ied_name ref [] = none
  find_schedule w without_ied_name ref (s ∷ ss) =
      if str_eq ref (object_reference without_ied_name (w.schedule s).schedule_ln)
      then some s
      else find_schedule w without_ied_name ref ss

  -- `Scheduler_getScheduleByObjRef`: after an `@` the reference has no IED name.
  unfoldable pub get_schedule_by_obj_ref : World → String → Option ℕ
  unfolding find_schedule
  get_schedule_by_obj_ref w String.[] = none
  get_schedule_by_obj_ref w (String.◌∷◌ c ref) =
      if code c == b'@'
      then find_schedule w true ref w.schedules
      else find_schedule w false (String.◌∷◌ c ref) w.schedules

  abbrev pub with_schedule {ℓ} : {A : Type ℓ} → Option ℕ → A → (ℕ → A) → A
  with_schedule none missing found = missing
  with_schedule (some s) missing found = found s

  unfoldable pub scheduler_enable_schedule_control : String → Bool → World → World
  scheduler_enable_schedule_control ref enable w =
      with_schedule (get_schedule_by_obj_ref w ref) w (λ s. enable_schedule_control s enable w)

  unfoldable pub scheduler_enable_schedule : ℕ → String → Bool → World → World × Bool
  scheduler_enable_schedule now ref enable w =
      with_schedule (get_schedule_by_obj_ref w ref) (w, false) (λ s. enable_schedule now s enable w)

  abbrev pub enable_parameter : ScheduleParameter → Bool → World → ℕ → World
  enable_parameter schd_prio enable w s = enable_write_access_to_schd_prio s enable w
  enable_parameter str_tm enable w s = enable_write_access_to_str_tm s enable w
  enable_parameter schd_reuse enable w s = enable_write_access_to_schd_reuse s enable w
  enable_parameter other_parameter enable w s = w

  unfoldable pub scheduler_enable_write_access_to_parameter :
      String → ScheduleParameter → Bool → World → World
  scheduler_enable_write_access_to_parameter ref parameter enable w =
      with_schedule (get_schedule_by_obj_ref w ref) w (enable_parameter parameter enable w)
