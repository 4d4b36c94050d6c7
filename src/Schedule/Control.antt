-- ===== src/Schedule/Control.antt =====
-- The control objects EnaReq and DsaReq: the check handler and the control handler of schedule.c.
pub mod Agreement
use der_scheduling.Prelude.{ℕ, Bool, true, false, Option, none, some, if◌then◌else◌, ◌&&◌, not}
use der_scheduling.Platform.{Platform}
use der_scheduling.World.{World}
use der_scheduling.Schedule.Validity.{perform_generic_validity_checks}
use der_scheduling.Schedule.Enable.{enabled_schedule, disable_schedule}

-- `CheckHandlerResult`
pub data CheckHandlerResult : Type 0 where
  accepted value_invalid access_denied object_undefined : CheckHandlerResult

-- `ControlHandlerResult`
pub data ControlHandlerResult : Type 0 where
  result_ok result_failed : ControlHandlerResult

-- A control takes effect if it is no test and its value is true.
abbrev pub takes_effect : Bool → Bool → Bool
takes_effect test ctl_val = not test && ctl_val

module _ ⦃lib : Platform⦄ where
  open lib use {Node, Value, same_node, get_boolean}

  abbrev pub is_object : Node → Option Node → Bool
  is_object obj none = false
  is_object obj (some n) = same_node obj n

  abbrev pub checked : World × Bool → World × CheckHandlerResult
  checked (w, true) = (w, accepted)
  checked (w, false) = (w, value_invalid)

  -- `schedule_performCheckHandler`
  unfoldable pub perform_check_handler :
      ℕ → ℕ → Node → Option Value → Bool → World → World × CheckHandlerResult
  perform_check_handler now s ctrl_obj ctl_val test w =
      let allowed = (w.schedule s).allow_remote_control in
      let effect = takes_effect test (get_boolean ctl_val) in
      if is_object ctrl_obj (w.schedule s).ena_req
      then (if effect
          then (if allowed
              then checked (perform_generic_validity_checks now s w)
              else (w, access_denied))
          else (w, accepted))
      else if is_object ctrl_obj (w.schedule s).dsa_req
      then (if effect
          then (if allowed then (w, accepted) else (w, access_denied))
          else (w, accepted))
      else (w, object_undefined)

  abbrev pub reported : World × Bool → World × ControlHandlerResult
  reported (w, true) = (w, result_ok)
  reported (w, false) = (w, result_failed)

  -- `schedule_controlHandler`
  unfoldable pub control_handler :
      ℕ → ℕ → Node → Option Value → Bool → World → World × ControlHandlerResult
  control_handler now s ctrl_obj ctl_val test w =
      let effect = takes_effect test (get_boolean ctl_val) in
      if is_object ctrl_obj (w.schedule s).ena_req
      then (if effect then reported (enabled_schedule now s w) else (w, result_ok))
      else if is_object ctrl_obj (w.schedule s).dsa_req
      then (if effect then (disable_schedule now s w, result_ok) else (w, result_ok))
      else (w, result_ok)
