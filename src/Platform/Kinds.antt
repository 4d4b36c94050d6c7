-- ===== src/Platform/Kinds.antt =====
-- The enumerations and structs of libiec61850 and the C library that the scheduler uses, and its calls
-- that write values.
use der_scheduling.Prelude.{ℕ, Bool, String}
use der_scheduling.Prelude.Int.{ℤ}

-- `ModelNodeType`; the scheduler tells two of the kinds from the rest.
pub data ModelType : Type 0 where
  data_object data_attribute other_node : ModelType

-- `DataAttributeType`, as far as the scheduler asks for it.
pub data AttributeType : Type 0 where
  boolean int8u enumerated timestamp visible_string_129 constructed other_type : AttributeType

-- `MmsType`, as far as the scheduler asks for it.
pub data MmsType : Type 0 where
  mms_boolean mms_integer mms_unsigned mms_float mms_utc_time other_mms : MmsType

-- The two validities of `Quality` that the scheduler writes.
pub data Quality : Type 0 where
  good invalid : Quality

-- One call of an `IedServer_update...` function. A timestamp carries its subsecond precision.
pub data Write (Value : Type 0) : Type 0 where
  attribute_value : Value → Write Value
  int32 : ℤ → Write Value
  utc_time : ℕ → Write Value
  timestamp : (precision ms : ℕ) → Write Value
  quality : Quality → Write Value
  visible_string : String → Write Value

-- One call of an `MmsValue_set...` function, on the value of an attribute. The library converts the
-- `int` or `double` that it is given to the value's type.
pub data SetValue (Double : Type 0) : Type 0 where
  set_int32 : ℤ → SetValue Double
  set_uint32 : ℤ → SetValue Double
  set_boolean : Bool → SetValue Double
  set_float : Double → SetValue Double
  set_utc_time : ℕ → SetValue Double
  set_visible_string : String → SetValue Double

-- `struct tm`.
pub record Tm : Type 0 where
  pub sec : ℕ
  pub min : ℕ
  pub hour : ℕ
  pub mday : ℕ
  pub mon : ℕ
  pub year : ℕ
  pub isdst : ℤ
