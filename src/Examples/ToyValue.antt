-- ===== src/Examples/ToyValue.antt =====
-- The values of the small platform, and a data model as a function from its nodes.
use der_scheduling.Prelude.{
  ℕ, ◌≡◌, ◌≢◌, Bool, true, false, Option, none, some, String, ◌==◌, arith, if◌then◌else◌,
}
use der_scheduling.Prelude.Int.{ℤ, pos, negsuc}
use der_scheduling.Platform.{
  SetValue, MmsType, mms_boolean, mms_integer, mms_float, mms_utc_time, other_mms, good, invalid,
  Write,
}

pub data ToyValue : Type 0 where
  integer : ℤ → ToyValue
  number : ℕ → ToyValue
  time : ℕ → ToyValue
  bool : Bool → ToyValue
  chars : String → ToyValue

abbrev pub written : Write ToyValue → ToyValue
written (Write.attribute_value v) = v
written (Write.int32 i) = integer i
written (Write.utc_time t) = time t
written (Write.timestamp p t) = time t
written (Write.quality good) = bool true
written (Write.quality invalid) = bool false
written (Write.visible_string s) = chars s

abbrev pub integer_in : Option ToyValue → ℤ
integer_in (some (integer i)) = i
integer_in _ = pos 0

abbrev pub natural_in : Option ToyValue → ℕ
natural_in (some (integer (pos n))) = n
natural_in _ = 0

abbrev pub number_in : Option ToyValue → ℕ
number_in (some (number x)) = x
number_in _ = 0

abbrev pub time_in : Option ToyValue → ℕ
time_in (some (time t)) = t
time_in _ = 0

abbrev pub bool_in : Option ToyValue → Bool
bool_in (some (bool b)) = b
bool_in _ = false

abbrev pub text_in : Option ToyValue → String
text_in (some (chars s)) = s
text_in _ = ""

abbrev pub type_in : Option ToyValue → MmsType
type_in none = other_mms
type_in (some (integer i)) = mms_integer
type_in (some (number x)) = mms_float
type_in (some (time t)) = mms_utc_time
type_in (some (bool b)) = mms_boolean
type_in (some (chars s)) = other_mms

abbrev pub put : Write ToyValue → ℕ → (ℕ → Option ToyValue) → ℕ → Option ToyValue
put u n m k = if n == k then some (written u) else m k

pub put_self :
    (u : Write ToyValue) (n : ℕ) (m : ℕ → Option ToyValue) → put u n m n ≡ some (written u)
put_self u n m = ground arith

pub put_apart : (u : Write ToyValue) (n k : ℕ) (m : ℕ → Option ToyValue) → n ≢ k → put u n m k ≡ m k
put_apart u n k m h = ground arith

abbrev pub natural : ℤ → ℕ
natural (pos n) = n
natural (negsuc n) = 0

abbrev pub set_to : SetValue ℤ → ToyValue
set_to (SetValue.set_int32 i) = integer i
set_to (SetValue.set_uint32 i) = integer i
set_to (SetValue.set_boolean b) = bool b
set_to (SetValue.set_float d) = number (natural d)
set_to (SetValue.set_utc_time t) = time t
set_to (SetValue.set_visible_string s) = chars s

abbrev pub put_value : SetValue ℤ → ℕ → (ℕ → Option ToyValue) → ℕ → Option ToyValue
put_value u n m k = if n == k then some (set_to u) else m k

pub put_value_self :
    (u : SetValue ℤ) (n : ℕ) (m : ℕ → Option ToyValue) → put_value u n m n ≡ some (set_to u)
put_value_self u n m = ground arith

pub put_value_apart :
    (u : SetValue ℤ) (n k : ℕ) (m : ℕ → Option ToyValue) → n ≢ k → put_value u n m k ≡ m k
put_value_apart u n k m h = ground arith
