-- ===== src/Schedule/Access/Outcome.antt =====
-- The outcome of a client's write to a setting of a schedule.
use der_scheduling.Prelude.{ℕ, ◌≡◌, refl, ap, ◌≢◌, Bool, true, some, arith, if◌then◌else◌, ltb}
use der_scheduling.Platform.{Platform, attribute_value}
use der_scheduling.World.{
  World, DataAccessError, success_no_update, object_access_denied, object_value_invalid, update,
}
use der_scheduling.Storage.Save.{save_if_stored, save_if_stored-files}
use der_scheduling.Schedule.Access.{
  str_tm_write_access_handler, str_tm_set_cal_write_access_handler, schd_prio_write_access_handler,
  schd_reuse_write_access_handler, schd_intv_write_access_handler, generic_write_access_handler,
  schd_value_write_access_handler,
}

-- The settings for which Schedule_create installs a write handler.
pub data Setting : Type 0 where
  str_tm str_tm_set_cal schd_prio schd_reuse schd_intv num_entr entry : Setting

module _ ⦃lib : Platform⦄ where
  open lib use {Node, Value, mms_value, mms_value-write_self, get_type, utc_time_in_ms}

  unfoldable pub handle_write : Setting → ℕ → ℕ → Node → Value → World → World × DataAccessError
  handle_write str_tm now s attr v w = str_tm_write_access_handler now s attr v w
  handle_write str_tm_set_cal now s attr v w = str_tm_set_cal_write_access_handler s attr v w
  handle_write schd_prio now s attr v w = schd_prio_write_access_handler now s attr v w
  handle_write schd_reuse now s attr v w = schd_reuse_write_access_handler s attr v w
  handle_write schd_intv now s attr v w = schd_intv_write_access_handler s attr v w
  handle_write num_entr now s attr v w = generic_write_access_handler s attr v w
  handle_write entry now s attr v w = schd_value_write_access_handler s attr v w

  -- The settings that the schedule opens to clients.
  abbrev pub is_open : Setting → World → ℕ → Bool
  is_open str_tm w s = (w.schedule s).allow_write_to_str_tm
  is_open str_tm_set_cal w s = (w.schedule s).allow_write_to_str_tm
  is_open schd_prio w s = (w.schedule s).allow_write_to_schd_prio
  is_open schd_reuse w s = (w.schedule s).allow_write_to_schd_reuse
  is_open schd_intv w s = (w.schedule s).allow_write_to_schd_intv
  is_open num_entr w s = true
  is_open entry w s = true

  -- The values that a setting takes: a start time lies in the future.
  abbrev pub is_proper : Setting → ℕ → Value → Bool
  is_proper str_tm now v = ltb now (utc_time_in_ms (some v))
  is_proper _ now v = true

  -- A write succeeds exactly when the setting is open to clients and the value is proper; else it is
  -- denied, if the setting is not open, or its value is called invalid.
  pub handle_write-result :
      (k : Setting) (now s : ℕ) (attr : Node) (v : Value) (w : World)
      → (handle_write k now s attr v w).1 ≡ (
          if is_open k w s
          then (if is_proper k now v then success_no_update else object_value_invalid)
          else object_access_denied)
  unfolding handle_write str_tm_write_access_handler str_tm_set_cal_write_access_handler
      schd_prio_write_access_handler schd_reuse_write_access_handler schd_intv_write_access_handler
      generic_write_access_handler schd_value_write_access_handler
  handle_write-result str_tm now s attr v w = ground arith
  handle_write-result _ now s attr v w = ground arith

  -- A write that does not succeed changes nothing.
  pub handle_write_refused :
      (k : Setting) (now s : ℕ) (attr : Node) (v : Value) (w : World)
      → (handle_write k now s attr v w).1 ≢ success_no_update
      → (handle_write k now s attr v w).0 ≡ w
  unfolding handle_write str_tm_write_access_handler str_tm_set_cal_write_access_handler
      schd_prio_write_access_handler schd_reuse_write_access_handler schd_intv_write_access_handler
      generic_write_access_handler schd_value_write_access_handler
  handle_write_refused str_tm now s attr v w h = ground arith
  handle_write_refused _ now s attr v w h = ground arith

  saved-model : (s : ℕ) (w : World) → (save_if_stored s w).model ≡ w.model
  saved-model s w = ap (λ (u : World). u.model) (save_if_stored-files s w)

  stored :
      (s : ℕ) (attr : Node) (u v : Value) (w : World)
      → mms_value w.model attr ≡ some u
      → get_type (some u) ≡ get_type (some v)
      → mms_value (save_if_stored s (update (attribute_value v) attr w)).model attr ≡ some v
  unfolding update
  stored s attr u v w h t =
      rw (saved-model s (update (attribute_value v) attr w))
        (mms_value-write_self w.model attr u v h t)

  -- A write that succeeds, of a value of the attribute's type, stores the value, for every setting but the priority, whose handler goes
  -- on to write for the schedule's controllers.
  handle_write-stored :
      (k : Setting) (now s : ℕ) (attr : Node) (u v : Value) (w : World)
      → k ≢ schd_prio
      → mms_value w.model attr ≡ some u
      → get_type (some u) ≡ get_type (some v)
      → (handle_write k now s attr v w).1 ≡ success_no_update
      → mms_value (handle_write k now s attr v w).0.model attr ≡ some v
  unfolding handle_write str_tm_write_access_handler str_tm_set_cal_write_access_handler
      schd_prio_write_access_handler schd_reuse_write_access_handler schd_intv_write_access_handler
      generic_write_access_handler schd_value_write_access_handler
  handle_write-stored schd_prio now s attr u v w h c t e = absurd (h refl)
  handle_write-stored str_tm now s attr u v w h c t e = ground (arith, stored s attr u v w c t)
  handle_write-stored _ now s attr u v w h c t e = ground (arith, stored s attr u v w c t)
