-- ===== src/Schedule/State.antt =====
-- The status of a schedule in the data model, and the events that it sends (schedule.c).
pub mod Frame
use der_scheduling.Prelude.{
  ℕ, ◌+◌, Bool, true, false, Option, none, some, List, [], ◌∷◌, String, if◌then◌else◌, ◌==◌, fold,
}
use der_scheduling.Prelude.Int.{ℤ, eqb_ℤ}
use der_scheduling.Platform.{
  Platform, MmsType, mms_integer, Quality, good, invalid, attribute_value, int32, utc_time,
  timestamp, quality,
}
use der_scheduling.World.{
  World, ScheduleState, ScheduleEnablingError, state_value, error_value, update, update_at,
}
use der_scheduling.Schedule.Getters.{ln_child, value_at, get_state, is_integer}
use der_scheduling.Schedule.Values.{get_current_value_attribute, get_current_value_sub_attribute}
use der_scheduling.Storage.Save.{save_if_stored}
use der_scheduling.Controller.Notify.{schedule_state_updated, schedule_value_updated}

abbrev pub same_state : ScheduleState → ScheduleState → Bool
same_state a b = eqb_ℤ (state_value a) (state_value b)

abbrev validity : Bool → Quality
validity true = invalid
validity false = good

module _ ⦃lib : Platform⦄ where
  open lib use {Node, Value, get_child, get_type}

  -- Each known controller is told, in order.
  unfoldable pub notify_state : ℕ → List ℕ → World → World
  notify_state now [] w = w
  notify_state now (c ∷ cs) w = notify_state now cs (schedule_state_updated now c w)

  -- The writes to SchdSt; the timestamp's subsecond precision is 10.
  unfoldable pub write_state : ℕ → ℕ → ScheduleState → World → World
  write_state now s state w =
      let obj = (w.schedule s).schd_st in
      update_at (int32 (state_value state)) (get_child obj "stVal") (
        update_at (quality good) (get_child obj "q")
          (update_at (timestamp 10 now) (get_child obj "t") w))

  -- `schedule_setState`
  unfoldable pub set_state : ℕ → ℕ → ScheduleState → World → World
  unfolding notify_state
  set_state now s state w =
      let w' = save_if_stored s (write_state now s state w) in
      notify_state now (w'.schedule s).known_schedule_controllers w'

  -- `schedule_udpateState`
  unfoldable pub update_state : ℕ → ℕ → ScheduleState → World → World
  update_state now s state w =
      if same_state (get_state w s) state then w else set_state now s state w

  abbrev write_integer_status : Node → Node → Option Value → ℤ → ℕ → World → World
  write_integer_status obj st_val none i now w = w
  write_integer_status obj st_val (some v) i now w =
      if is_integer (get_type (some v))
      then update (int32 i) st_val (update_at (utc_time now) (get_child (some obj) "t") w)
      else w

  abbrev write_status_at : Node → Option Node → ℤ → ℕ → World → World
  write_status_at obj none i now w = w
  write_status_at obj (some n) i now w = write_integer_status obj n (value_at w (some n)) i now w

  -- `updateIntStatusValue`
  unfoldable pub update_int_status_value : Node → ℤ → ℕ → World → World
  update_int_status_value obj i now w = write_status_at obj (get_child (some obj) "stVal") i now w

  abbrev update_error_at : Option Node → ScheduleEnablingError → ℕ → World → World
  update_error_at none err now w = w
  update_error_at (some obj) err now w = update_int_status_value obj (error_value err) now w

  -- `schedule_updateScheduleEnableError`
  unfoldable pub update_schedule_enable_error : ℕ → ℕ → ScheduleEnablingError → World → World
  update_schedule_enable_error now s err w = update_error_at (ln_child w s "SchdEnaErr") err now w

  abbrev pub time_quality : ℕ → Quality
  time_quality start = if start == 0 then invalid else good

  -- All three attributes, or nothing is written.
  abbrev pub write_time : ℕ → ℕ → Option Node → Option Node → Option Node → World → World
  write_time now start (some st_val) (some q) (some t) w =
      update (timestamp 0 now) t
        (update (quality (time_quality start)) q (update (timestamp 0 start) st_val w))
  write_time now start _ _ _ w = w

  abbrev pub update_time_at : ℕ → ℕ → Option Node → World → World
  update_time_at now start none w = w
  update_time_at now start (some obj) w =
      write_time now start (get_child (some obj) "stVal") (get_child (some obj) "q")
        (get_child (some obj) "t") w

  -- `updateTimeStatus`
  unfoldable pub update_time_status : ℕ → ℕ → ℕ → String → World → World
  update_time_status now s start name w = update_time_at now start (ln_child w s name) w

  abbrev pub update_act_str_tm : ℕ → ℕ → ℕ → World → World
  update_act_str_tm now s start w = update_time_status now s start "ActStrTm" w

  abbrev pub update_nxt_str_tm : ℕ → ℕ → ℕ → World → World
  update_nxt_str_tm now s start w = update_time_status now s start "NxtStrTm" w

  abbrev update_quality_of : Option Node → ℕ → Bool → World → World
  update_quality_of none now bad w = w
  update_quality_of (some obj) now bad w =
      update_at (quality (validity bad)) (get_child (some obj) "q")
        (update_at (utc_time now) (get_child (some obj) "t") w)

  -- `schedule_setActStrTmQualityInvalid`, with `schedule_updateObjectQuality`
  unfoldable pub set_act_str_tm_quality : ℕ → ℕ → Bool → World → World
  set_act_str_tm_quality now s bad w = update_quality_of (ln_child w s "ActStrTm") now bad w

  abbrev if_current : Option Node → World → World → World
  if_current none changed w = w
  if_current (some n) changed w = changed

  -- `schedule_updateCurrentValueQuality`
  unfoldable pub update_current_value_quality : ℕ → ℕ → Bool → World → World
  update_current_value_quality now s bad w =
      if_current (get_current_value_attribute w s)
        (update_at (quality (validity bad)) (get_current_value_sub_attribute w s "q")
          (update_at (utc_time now) (get_current_value_sub_attribute w s "t") w))
        w

  -- `schedule_updateCurrentValue` of schedule.c
  unfoldable pub update_current_value : ℕ → ℕ → Value → World → World
  update_current_value now s v w =
      if_current (get_current_value_attribute w s)
        (update_at (quality good) (get_current_value_sub_attribute w s "q") (
          update_at (utc_time now) (get_current_value_sub_attribute w s "t")
            (update_at (attribute_value v) (get_current_value_attribute w s) w)))
        w

  abbrev write_entry : ℤ → Option Node → Option Node → ℕ → World → World
  write_entry idx none t now w = w
  write_entry idx (some n) t now w = update (int32 idx) n (update_at (utc_time now) t w)

  -- `schedule_updateSchdEntr`
  unfoldable pub update_schd_entr : ℕ → ℕ → ℤ → World → World
  update_schd_entr now s idx w =
      write_entry idx (ln_child w s "SchdEntr.stVal") (ln_child w s "SchdEntr.t") now w

  unfoldable pub notify_value : List ℕ → ℕ → Option Value → ℕ → World → World
  notify_value [] s val now w = w
  notify_value (c ∷ cs) s val now w =
      notify_value cs s val now (schedule_value_updated c s val now w)

  -- `notifyControllers`
  unfoldable pub notify_controllers : ℕ → Option Value → ℕ → World → World
  unfolding notify_value
  notify_controllers s val now w =
      notify_value (w.schedule s).known_schedule_controllers s val now w
