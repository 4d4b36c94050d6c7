-- ===== src/Storage/Restore/Complete.antt =====
-- Which files restore a schedule (getScheduleData of storage_json.c).
use der_scheduling.Prelude.{
  ℕ, ◌≡◌, refl, ap, ◌∙◌, ◌↔◌, Bool, true, false, Bool-cases, inl, inr, Option, none, some,
  some-injective, String,
}
use der_scheduling.Platform.{Platform}
use der_scheduling.World.{World}
use der_scheduling.Storage.Reading.{
  Restoring, ◌>>=◌, go_on, required, checked_item, followed, is_done, nonzero, call,
}
use der_scheduling.Schedule.Setters.{
  set_schd_reuse, set_prio, set_schd_intv_in_ms, schedule_set_state,
}
use der_scheduling.Storage.States.{get_state_from_string}
use der_scheduling.Storage.Entries.{restore_values}
use der_scheduling.Storage.StartTimes.{restore_start_times}
use der_scheduling.Storage.Restore.{
  restore_num_entr, restore_act_str_tm, restore_items, restore_parsed, parse_printed,
  get_schedule_data,
}

module _ ⦃lib : Platform⦄ where
  open lib use {
    Json, Text, get_item, is_string, is_bool, is_number, is_array, value_string, value_int,
  }

  -- The item is there, has the type that is asked for, and is as `P` says.
  abbrev Item : (Json → Bool) → Json → String → (Json → Type 0) → Type 0
  Item test json key P =
      (item : Json) × (get_item json key ≡ some item) × (test item ≡ true) × P item

  unfoldable pub IsComplete : Json → Type 0
  IsComplete json = Item is_string json "objRef" λ _. Item is_string json "state" λ state.
      Item is_bool json "reuse" λ _. Item is_number json "prio" λ _.
        Item is_number json "numEntr" λ _.
          Item is_number json "schdIntv"
            λ _. Item is_array json "values" λ _. (text : String) × (value_string state ≡ some text)

  abbrev Done : {A : Type 0} → World × Option A → Type 0
  Done r = (is_done r).1 ≡ true

  failing : {b : Bool} → b ≡ false → b ≡ true → ⊥
  failing p q = absurd cc

  checked_iff :
      {B : Type 0} (test : Json → Bool) (f : Json → Restoring B) (P : Json → Type 0) (w : World)
      → ((item : Json) → Done (f item w) ↔ P item)
      → (o : Option Json)
      → Done (go_on f (w, checked_item test o))
        ↔ ((item : Json) × (o ≡ some item) × (test item ≡ true) × P item)
  checked_iff test f P w k none = (λ h. absurd cc, λ h. absurd cc)
  checked_iff test f P w k (some j) = elim (Bool-cases (test j)) [
    | inl e ↦
        rw e (λ h. (j, refl, e, (k j).0 h), λ (i, p, t, q). (k j).1 (rw (some-injective _ _ p) q))
    | inr e ↦
        rw e
          (λ h. absurd cc, λ (i, p, t, q). absurd (failing e (ap test (some-injective _ _ p) ∙ t)))
  ]

  required_iff :
      {B : Type 0} (test : Json → Bool) (json : Json) (key : String) (f : Json → Restoring B)
      (P : Json → Type 0)
      → ((item : Json) (w : World) → Done (f item w) ↔ P item)
      → (w : World) → Done ((required test json key >>= f) w) ↔ Item test json key P
  unfolding required
  required_iff test json key f P k w = checked_iff test f P w (λ item. k item w) (get_item json key)

  followed_iff :
      {B : Type 0} (f : String → Restoring B) (w : World)
      → ((text : String) (u : World) → Done (f text u))
      → (o : Option String) → Done (go_on f (followed o w)) ↔ ((text : String) × (o ≡ some text))
  followed_iff f w k none = (λ h. absurd cc, λ h. absurd cc)
  followed_iff f w k (some text) = (λ h. (text, refl), λ h. k text w)

  restore_items_iff :
      (now s : ℕ) (json : Json) (w : World) → Done (restore_items now s json w) ↔ IsComplete json
  unfolding restore_items IsComplete
  restore_items_iff now s json w =
      required_iff is_string json "objRef" _ _
        (λ obj_ref. required_iff is_string json "state" _ _ (λ state.
          required_iff is_bool json "reuse" _ _ λ reuse u.
            required_iff is_number json "prio" _ _
              (λ prio u1.
                required_iff is_number json "numEntr" _ _
                  (λ num_entr u2.
                    required_iff is_number json "schdIntv" _ _
                      (λ schd_intv u3.
                        required_iff is_array json "values" _ _
                          (λ values u4.
                            followed_iff
                              (λ text. call (schedule_set_state now s (get_state_from_string text)))
                              (restore_start_times s (get_item json "startTimes")
                                (restore_values s values u4))
                              (λ text u5. refl) (value_string state))
                          (restore_act_str_tm now s (get_item json "ActStrTm")
                            (set_schd_intv_in_ms s (value_int schd_intv) u3)))
                      (restore_num_entr s (value_int num_entr) u2))
                  (set_prio s (value_int prio) u1))
              (set_schd_reuse s (nonzero (value_int reuse)) u)))
        w

  parsed_iff :
      (now s : ℕ) (w : World) (o : Option Json)
      → ((restore_parsed now s o w).1 ≡ true) ↔ ((json : Json) × (o ≡ some json) × IsComplete json)
  parsed_iff now s w none = (λ h. absurd cc, λ h. absurd cc)
  parsed_iff now s w (some j) = (
    λ h. (j, refl, (restore_items_iff now s j w).0 h),
    λ (i, e, c). (restore_items_iff now s j w).1 (rw (some-injective _ _ e) c),
  )

  -- A text restores a schedule to the end exactly if cJSON parses it and finds every item that must
  -- be there, with the type that it must have: the reference, the state, the reuse, the priority,
  -- the number of entries, the interval and the values.
  pub get_schedule_data_iff :
      (now s : ℕ) (text : Option Text) (w : World)
      → ((get_schedule_data now s text w).1 ≡ true)
        ↔ ((json : Json) × (parse_printed text ≡ some json) × IsComplete json)
  unfolding get_schedule_data
  get_schedule_data_iff now s text w = parsed_iff now s w (parse_printed text)
