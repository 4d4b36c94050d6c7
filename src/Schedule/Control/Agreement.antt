-- ===== src/Schedule/Control/Agreement.antt =====
-- The check of a control on EnaReq and the control itself.
use der_scheduling.Prelude.{ℕ, ◌≡◌, refl, Bool, true, false, Option, arith, if◌then◌else◌}
use der_scheduling.Platform.{Platform}
use der_scheduling.World.{World}
use der_scheduling.Schedule.Validity.{perform_generic_validity_checks}
use der_scheduling.Schedule.Enable.{enabled_schedule}
use der_scheduling.Schedule.Enable.Result.{
  settings_valid, kind_valid, checks_result, enabled_schedule-result,
}
use der_scheduling.Schedule.Control.{
  accepted, value_invalid, access_denied, result_ok, result_failed, is_object, checked, reported,
  perform_check_handler, control_handler,
}

module _ ⦃lib : Platform⦄ where
  open lib use {Node, Value, get_boolean}

  checked-result : (p : World × Bool) → (checked p).1 ≡ (if p.1 then accepted else value_invalid)
  checked-result (w, true) = refl
  checked-result (w, false) = refl

  reported-result : (p : World × Bool) → (reported p).1 ≡ (if p.1 then result_ok else result_failed)
  reported-result (w, true) = refl
  reported-result (w, false) = refl

  module _ (now s : ℕ) (obj : Node) (val : Option Value) (w : World) where
    -- A request to enable a schedule, that is no test, is denied where remote control is off, and
    -- else accepted exactly when the settings of the schedule are valid.
    pub check_enable-result :
        is_object obj (w.schedule s).ena_req ≡ true
        → get_boolean val ≡ true
        → (perform_check_handler now s obj val false w).1 ≡ (
            if (w.schedule s).allow_remote_control
            then (if settings_valid now s w then accepted else value_invalid)
            else access_denied)
    unfolding perform_check_handler
    check_enable-result o b =
        ground
          (arith, checked-result (perform_generic_validity_checks now s w), checks_result now s w)

    -- A request to enable a schedule, that is no test and that the check has accepted, succeeds,
    -- on the same state, exactly when what the kind of the schedule asks for is valid too: the
    -- check does not foresee the other failures.
    pub control_enable-result :
        is_object obj (w.schedule s).ena_req ≡ true
        → get_boolean val ≡ true
        → (perform_check_handler now s obj val false w).1 ≡ accepted
        → (control_handler now s obj val false w).1
          ≡ (if kind_valid now s w then result_ok else result_failed)
    unfolding control_handler
    control_enable-result o b a = ground (
      arith,
      check_enable-result o b,
      reported-result (enabled_schedule now s w),
      enabled_schedule-result now s w,
    )
