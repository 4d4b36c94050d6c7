-- ===== src/Storage/States.antt =====
-- The texts that stand for the states of a schedule in the database (storage_json.c).
use text.Mathlib.Text.{◌==◌ as str_eq}
use der_scheduling.Prelude.{String, if◌then◌else◌, ◌≡◌, refl}
use der_scheduling.World.{ScheduleState}

unfoldable pub get_string_from_state : ScheduleState → String
get_string_from_state ScheduleState.not_ready = "not ready"
get_string_from_state ScheduleState.start_time_required = "start time required"
get_string_from_state ScheduleState.ready = "ready"
get_string_from_state ScheduleState.running = "running"
get_string_from_state ScheduleState.invalid = "invalid"

unfoldable pub get_state_from_string : String → ScheduleState
get_state_from_string text =
    if str_eq text "not ready"
    then ScheduleState.not_ready
    else if str_eq text "start time required"
    then ScheduleState.start_time_required
    else if str_eq text "ready"
    then ScheduleState.ready
    else if str_eq text "running"
    then ScheduleState.running
    else ScheduleState.invalid

-- A state that is saved is restored as it was.
pub get_state_from_string-get_string_from_state :
    (state : ScheduleState) → get_state_from_string (get_string_from_state state) ≡ state
unfolding get_string_from_state get_state_from_string
get_state_from_string-get_string_from_state ScheduleState.invalid = refl
get_state_from_string-get_string_from_state _ = refl
