-- ===== src/Storage/Restore/Entry.antt =====
-- One entry that is restored (getScheduleData of storage_json.c).
use der_scheduling.Prelude.{ℕ, ◌+◌, ◌≡◌, refl, some}
use der_scheduling.Prelude.Int.{pos, IsInt32}
use der_scheduling.Platform.{
  Platform, mms_boolean, mms_float, mms_integer, set_boolean, set_float, set_int32,
}
use der_scheduling.World.{World}
use der_scheduling.Schedule.Values.{get_schedule_value_attribute}
use der_scheduling.Storage.Save.{json_of_value}
use der_scheduling.Storage.Entries.{restore_entry}
use der_scheduling.Storage.Restore.RoundTrip.{nonzero-value_int}

module _ ⦃lib : Platform⦄ where
  open lib use {
    Node, Value, Model, Json, Double, Apart, get_type, to_int32, to_float, get_boolean, mms_value,
    set_value, array_item, value_int, value_double, create_number, double_of_int, set_int32-holds,
    set_boolean-holds, set_float-holds, mms_value-set_value_apart, create_number-holds,
    value_int-create_number,
  }

  -- Two values of one of the types that a file keeps; an integer fits its type.
  pub data SameKind (a b : Value) : Type 0 where
    booleans : get_type (some a) ≡ mms_boolean → get_type (some b) ≡ mms_boolean → SameKind a b
    floats : get_type (some a) ≡ mms_float → get_type (some b) ≡ mms_float → SameKind a b
    integers :
        get_type (some a) ≡ mms_integer
        → get_type (some b) ≡ mms_integer
        → IsInt32 (to_int32 (some b))
        → SameKind a b

  -- The data model after the value of `b` was set at a node, and nothing changed apart from it.
  pub record IsSetTo (n : Node) (b : Value) (m m' : Model) : Type 0 where
    pub stored : Value
    pub stored_value : mms_value m' n ≡ some stored
    pub stored_json : json_of_value (some stored) ≡ json_of_value (some b)
    pub apart_same : (k : Node) → Apart n k → mms_value m' k ≡ mms_value m k

  module _ (s i : ℕ) (values : Json) (w : World) (n : Node) (a b : Value)
      (attr : get_schedule_value_attribute w s (pos (i + 1)) ≡ some n)
      (held : mms_value w.model n ≡ some a)
      (item : array_item values i ≡ json_of_value (some b)) where
    boolean-set :
        get_type (some a) ≡ mms_boolean
        → get_type (some b) ≡ mms_boolean
        → (m : Model) × (restore_entry s values i w ≡ record w { model = m })
          × IsSetTo n b w.model m
    unfolding restore_entry json_of_value
    boolean-set ta tb =
        let (u, stored, typed, same) =
          set_boolean-holds w.model n a (get_boolean (some b)) held ta in
        (
          set_value (set_boolean (get_boolean (some b))) n w.model,
          rw (attr, item, tb, held, ta, nonzero-value_int (get_boolean (some b))) refl,
          record {
            stored = u;
            stored_value = stored;
            stored_json = rw (typed, tb, same) refl;
            apart_same = λ k h. mms_value-set_value_apart w.model _ n k h;
          },
        )

    float-set :
        get_type (some a) ≡ mms_float
        → get_type (some b) ≡ mms_float
        → (m : Model) × (restore_entry s values i w ≡ record w { model = m })
          × IsSetTo n b w.model m
    unfolding restore_entry json_of_value
    float-set ta tb =
        let (u, stored, typed, same) = set_float-holds w.model n a b held ta in
        (
          set_value (set_float (to_float (some b))) n w.model,
          rw (attr, item, tb, held, ta, (create_number-holds (to_float (some b))).1) refl,
          record {
            stored = u;
            stored_value = stored;
            stored_json = rw (typed, tb, same) refl;
            apart_same = λ k h. mms_value-set_value_apart w.model _ n k h;
          },
        )

    integer-set :
        get_type (some a) ≡ mms_integer
        → get_type (some b) ≡ mms_integer
        → IsInt32 (to_int32 (some b))
        → (m : Model) × (restore_entry s values i w ≡ record w { model = m })
          × IsSetTo n b w.model m
    unfolding restore_entry json_of_value
    integer-set ta tb range =
        let (u, stored, typed, same) =
          set_int32-holds w.model n a (to_int32 (some b)) held ta range in
        (
          set_value (set_int32 (to_int32 (some b))) n w.model,
          rw (attr, item, tb, held, ta, value_int-create_number (to_int32 (some b)) range) refl,
          record {
            stored = u;
            stored_value = stored;
            stored_json = rw (typed, tb, same) refl;
            apart_same = λ k h. mms_value-set_value_apart w.model _ n k h;
          },
        )

    pub entry-set :
        SameKind a b
        → (m : Model) × (restore_entry s values i w ≡ record w { model = m })
          × IsSetTo n b w.model m
    entry-set (booleans ta tb) = boolean-set ta tb
    entry-set (floats ta tb) = float-set ta tb
    entry-set (integers ta tb range) = integer-set ta tb range
