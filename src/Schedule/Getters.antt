-- ===== src/Schedule/Getters.antt =====
-- What schedule.c reads from a schedule's settings and status in the data model.
use der_scheduling.Prelude.{ℕ, Bool, true, false, Option, none, some, String, ◌==◌, if◌then◌else◌}
use der_scheduling.Prelude.Int.{ℤ, pos, negsuc}
use der_scheduling.Platform.{Platform, MmsType, mms_integer, mms_boolean}
use der_scheduling.World.{ScheduleState, World}

abbrev pub is_integer : MmsType → Bool
is_integer mms_integer = true
is_integer _ = false

abbrev pub is_boolean : MmsType → Bool
is_boolean mms_boolean = true
is_boolean _ = false

abbrev pub state_of_value : ℤ → ScheduleState
state_of_value (negsuc n) = ScheduleState.invalid
state_of_value (pos n) =
    if n == 1
    then ScheduleState.not_ready
    else if n == 2
    then ScheduleState.start_time_required
    else if n == 3
    then ScheduleState.ready
    else if n == 4
    then ScheduleState.running
    else ScheduleState.invalid

abbrev pub is_running_state : ScheduleState → Bool
is_running_state ScheduleState.running = true
is_running_state _ = false

module _ ⦃lib : Platform⦄ where
  open lib use {Node, Value, get_child, mms_value, get_type, to_int32, get_boolean, get_int32}

  -- `ModelNode_getChild(scheduleLn, name)`
  abbrev pub ln_child : World → ℕ → String → Option Node
  ln_child w s name = get_child (some (w.schedule s).schedule_ln) name

  -- The integer under a value that may be NULL, if its type says that it is one.
  abbrev pub integer_of : Option Value → Option ℤ
  integer_of none = none
  integer_of (some v) = if is_integer (get_type (some v)) then some (to_int32 (some v)) else none

  abbrev pub value_at : World → Option Node → Option Value
  value_at w none = none
  value_at w (some n) = mms_value w.model n

  -- The integer setting at a path below the schedule's logical node.
  unfoldable pub int_setting : World → ℕ → String → Option ℤ
  int_setting w s name = integer_of (value_at w (ln_child w s name))

  abbrev pub or_else {ℓ} : {A : Type ℓ} → Option A → A → A
  or_else none d = d
  or_else (some a) d = a

  unfoldable pub get_prio : World → ℕ → ℤ
  unfolding int_setting
  get_prio w s = or_else (int_setting w s "SchdPrio.setVal") (pos 0)

  unfoldable pub get_num_entr : World → ℕ → ℤ
  unfolding int_setting
  get_num_entr w s = or_else (int_setting w s "NumEntr.setVal") (pos 0)

  unfoldable pub get_num_entr_value : World → ℕ → ℤ
  unfolding int_setting
  get_num_entr_value w s = or_else (int_setting w s "NumEntr.setVal") (negsuc 0)

  abbrev boolean_of : Option Value → Bool
  boolean_of none = false
  boolean_of (some v) = if is_boolean (get_type (some v)) then get_boolean (some v) else false

  unfoldable pub get_schd_reuse : World → ℕ → Bool
  get_schd_reuse w s = boolean_of (value_at w (ln_child w s "SchdReuse.setVal"))

  abbrev state_at : World → Option Node → ScheduleState
  state_at w none = ScheduleState.invalid
  state_at w (some n) = state_of_value (get_int32 w.model n)

  abbrev status_value : Option Node → Option Node
  status_value none = none
  status_value (some n) = get_child (some n) "stVal"

  unfoldable pub get_state : World → ℕ → ScheduleState
  get_state w s = state_at w (status_value (w.schedule s).schd_st)

  unfoldable pub is_running : World → ℕ → Bool
  unfolding get_state
  is_running w s = is_running_state (get_state w s)
