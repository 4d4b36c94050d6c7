-- ===== src/Examples/Toy.antt =====
-- A small platform: the nodes of the data model are numbers, a hundred to each schedule.
use text.Mathlib.Text.{◌==◌ as str_eq}
use der_scheduling.Prelude.{
  length, ℕ, ◌+◌, ◌*◌, ◌/◌, ◌%◌, ◌^◌, refl, ◌≢◌, true, false, Option, none, some, List, [], ◌∷◌,
  String, ◌==◌, ==_iff, if◌then◌else◌, map,
}
use der_scheduling.Prelude.Int.{ℤ, pos}
pub use der_scheduling.Examples.ToyValue.{ToyValue, integer, number, time, bool, chars}
use der_scheduling.Examples.ToyValue.{
  integer_in, natural_in, number_in, time_in, bool_in, text_in, type_in, put, put_self, put_apart,
  natural, put_value, put_value_self, put_value_apart,
}
use der_scheduling.Examples.ToyJson.{
  ToyJson, object, array, text_item, bool_item, number_item, with_field, with_item, field_of,
  items_of, nth, is_list, is_text_item, is_bool_item, is_number_item, text_value, number_value,
  bool_laws, parsed, size_add, nth_add,
}
use der_scheduling.Platform.{
  Platform, SetValue, ModelType, data_object, data_attribute, other_node, other_type, timestamp,
  visible_string_129, Write,
}

-- The nodes below each kind of node, by the path that leads to them.
abbrev table : ℕ → List (String × ℕ)
table n =
    if n == 0
    then ("SchdSt", 1)
      ∷ ("SchdPrio.setVal", 4)
      ∷ ("NumEntr.setVal", 5)
      ∷ ("SchdIntv.setVal", 6)
      ∷ ("StrTm1", 7)
      ∷ ("ValASG1", 9)
      ∷ ("ValASG2", 11)
      ∷ ("ValMV", 13)
      ∷ ("ActSchdRef", 15)
      ∷ ("NxtStrTm", 17)
      ∷ ("EnaReq", 18)
      ∷ ("CtlEnt.setSrcRef", 22)
      ∷ ("Schd1", 21)
      ∷ ("Schd1.setSrcRef", 20)
      ∷ []
    else if n == 1
    then ("stVal", 2) ∷ ("q", 3) ∷ []
    else if n == 17
    then ("stVal", 19) ∷ []
    else if n == 7
    then ("setTm", 8) ∷ []
    else if n == 9
    then ("setMag.f", 10) ∷ []
    else if n == 11
    then ("setMag.f", 12) ∷ []
    else if n == 13
    then ("mag.f", 14) ∷ []
    else if n == 21
    then ("setSrcRef", 20) ∷ []
    else if n == 15
    then ("stVal", 16) ∷ []
    else []

abbrev find : ℕ → String → List (String × ℕ) → Option ℕ
find base name [] = none
find base name ((key, n) ∷ rest) =
    let later = find base name rest in if str_eq name key then some (base + n) else later

abbrev base : ℕ → ℕ
base n = n / 100 * 100

abbrev pub child : Option ℕ → String → Option ℕ
child none name = none
child (some n) name = find (base n) name (table (n % 100))

abbrev children : ℕ → List ℕ
children n = map (λ (e : String × ℕ). base n + e.1) (table (n % 100))

abbrev name_in : ℕ → List (String × ℕ) → String
name_in n [] = "FSCH"
name_in n ((key, m) ∷ rest) = let later = name_in n rest in if n == m then key else later

abbrev kind : ℕ → ModelType
kind n =
    if n == 0
    then other_node
    else if n == 10
    then data_attribute
    else if n == 8
    then data_attribute
    else if n == 12
    then data_attribute
    else if n == 14
    then data_attribute
    else data_object

abbrev reference : ℕ → String
reference n = if n == 0 then "LD/FSCH1" else if n == 100 then "LD/FSCH2" else "LD/other"

instance abbrev pub toy : Platform
toy = record {
  Node = ℕ;
  same_node = ◌==◌;
  same_node_iff = ==_iff;
  node_name = λ n. if n == 900 then "FSCC1" else name_in (n % 100) (table 0);
  get_parent = λ n.
      if n == 114
      then some 113
      else if n == 14
      then some 13
      else if n == 920
      then some 921
      else none;
  get_child = child;
  get_children = children;
  logical_devices = 1000 ∷ [];
  logical_nodes = λ d. if d == 1000 then 900 ∷ 0 ∷ 100 ∷ [] else [];
  model_type = λ n. kind (n % 100);
  attribute_type = λ n.
      if n % 100 == 8 then timestamp else if n % 100 == 20 then visible_string_129 else other_type;
  object_reference = λ b n. reference n;
  node_by_reference = λ s. if str_eq s "LD/target" then some 900 else none;
  Double = ℤ;
  Value = ToyValue;
  get_type = type_in;
  to_int32 = integer_in;
  to_uint32 = natural_in;
  get_boolean = bool_in;
  utc_time_in_ms = time_in;
  to_string = text_in;
  to_float = λ v. pos (number_in v);
  print_to_buffer = λ v size. text_in (some v);
  Model = ℕ → Option ToyValue;
  mms_value = λ m n. m n;
  get_int32 = λ m n. integer_in (m n);
  write = λ u n m. put u n m;
  Apart = λ a b. a ≢ b;
  HoldsInteger = λ n. Unit {0};
  get_int32-write_self = λ m n i h. rw (put_self (Write.int32 i) n m) refl;
  get_int32-write_apart = λ m u n k h. rw (put_apart u n k m h) refl;
  mms_value-write_self = λ m n u v h k. put_self (Write.attribute_value v) n m;
  mms_value-write_apart = λ m u n k h. put_apart u n k m h;
  set_value = put_value;
  set_int32-holds =
      λ m n v i e t r. (integer i, put_value_self (SetValue.set_int32 i) n m, refl, refl);
  set_boolean-holds =
      λ m n v b e t. (bool b, put_value_self (SetValue.set_boolean b) n m, refl, refl);
  set_float-holds = λ m n v a e t. (
    number (number_in (some a)),
    put_value_self (SetValue.set_float (pos (number_in (some a)))) n m,
    refl,
    refl,
  );
  mms_value-set_value_apart = λ m u n k h. put_value_apart u n k m h;
  div_double = λ a b. pos (natural a / natural b);
  to_int = λ d. d;
  double_of_int = λ i. i;
  double_of_uint64 = pos;
  mul_double = λ a b. pos (natural a * natural b);
  pow10 = λ k. pos (10 ^ natural k);
  is_nan = λ d. false;
  to_uint64 = natural;
  mul_double-exact = λ n k h. refl;
  localtime = λ t. some (record {
    sec = t % 60;
    min = t / 60 % 60;
    hour = t / 3600 % 24;
    mday = t / 86400;
    mon = 0;
    year = 70;
    isdst = pos 0;
  });
  timelocal = λ tm. pos (tm.sec + tm.min * 60 + tm.hour * 3600 + tm.mday * 86400);
  missing_return = true;
  to_uint64-double_of_uint64 = λ n h. refl;
  Json = ToyJson;
  create_object = object;
  create_array = array;
  create_string = text_item;
  create_bool = bool_item;
  create_number = number_item;
  add_item_to_object = with_field;
  add_item_to_array = with_item;
  get_item = field_of;
  get_item-create_object = λ key. refl;
  get_item-add_item_to_object = λ j key item other. refl;
  array_size = λ j. length (items_of j);
  array_item = λ j i. nth (items_of j) i;
  is_array = is_list;
  is_array-create_array = refl;
  is_array-add_item_to_array = λ j item. refl;
  array_size-create_array = refl;
  array_size-add_item_to_array = λ j item. size_add (items_of j) item;
  array_item-add_item_to_array = λ j item i. nth_add (items_of j) item i;
  is_string = is_text_item;
  is_bool = is_bool_item;
  is_number = is_number_item;
  value_string = text_value;
  value_int = number_value;
  value_double = number_value;
  create_string-holds = λ s. (refl, refl);
  create_bool-holds = bool_laws;
  create_number-holds = λ d. (refl, refl);
  value_int-create_number = λ i h. refl;
  Text = Option ToyJson;
  empty_text = none;
  print = λ j. some (some j);
  print_unformatted = λ j. some (some j);
  parse = λ t. t;
  IsPrintable = λ j. Unit {0};
  parse-print = parsed;
  parse-print_unformatted = parsed;
  can_open = λ name. true;
  can_print = λ t. true;
  can_read = λ name. true;
}
