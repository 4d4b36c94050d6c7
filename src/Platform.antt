-- ===== src/Platform.antt =====
-- What src/scheduler uses and does not implement, as one record of operations and laws:
-- libiec61850 (data model, MMS values, server), cJSON, the C library's doubles, time zone and files.
-- A pointer that may be NULL is an `Option`; what a library does when it is given NULL is left open.
mod Kinds
pub use Kinds.*
use der_scheduling.Prelude.{
  ◌==◌, ◌+◌, first_some, none, if◌then◌else◌, ℕ, ◌*◌, ◌^◌, ◌<◌, ◌≡◌, ◌↔◌, Bool, true, Option, some,
  List, String,
}
use der_scheduling.Prelude.Int.{ℤ, pos, IsInt32}
use der_scheduling.Names.{same_key}

pub record Platform : Type 1 where
  -- libiec61850: the nodes of the data model, which do not change.
  pub Node : Type 0
  pub same_node : Node → Node → Bool
  pub same_node_iff : (a b : Node) → (same_node a b ≡ true) ↔ (a ≡ b)
  pub node_name : Node → String
  pub get_parent : Node → Option Node
  pub get_child : Option Node → String → Option Node
  pub get_children : Node → List Node
  pub model_type : Node → ModelType
  pub attribute_type : Node → AttributeType
  -- `ModelNode_getObjectReferenceEx`: true leaves the IED's name out.
  pub object_reference : Bool → Node → String
  -- `IedModel_getModelNodeByShortObjectReference`
  pub node_by_reference : String → Option Node
  -- The logical devices of the model, and the nodes from `firstChild` by `sibling`.
  pub logical_devices : List Node
  pub logical_nodes : Node → List Node
  -- libiec61850: MMS values.
  pub Double : Type 0
  pub Value : Type 0
  pub get_type : Option Value → MmsType
  pub to_int32 : Option Value → ℤ
  pub to_uint32 : Option Value → ℕ
  pub get_boolean : Option Value → Bool
  pub utc_time_in_ms : Option Value → ℕ
  pub to_string : Option Value → String
  pub to_float : Option Value → Double
  -- `MmsValue_printToBuffer`, of a value and the size of the buffer.
  pub print_to_buffer : Value → ℕ → String
  -- libiec61850: the values of the data model and the server's access to them.
  pub Model : Type 0
  pub mms_value : Model → Node → Option Value
  pub get_int32 : Model → Node → ℤ
  pub write : Write Value → Node → Model → Model
  -- Neither node is the other or lies within it.
  pub Apart : Node → Node → Type 0
  pub HoldsInteger : Node → Type 0
  pub get_int32-write_self :
      (m : Model) (n : Node) (i : ℤ) → HoldsInteger n → get_int32 (write (int32 i) n m) n ≡ i
  pub get_int32-write_apart :
      (m : Model) (u : Write Value) (n k : Node)
      → Apart n k
      → get_int32 (write u n m) k ≡ get_int32 m k
  -- A value of the type that the attribute has replaces the attribute's value.
  pub mms_value-write_self :
      (m : Model) (n : Node) (u v : Value)
      → mms_value m n ≡ some u
      → get_type (some u) ≡ get_type (some v)
      → mms_value (write (attribute_value v) n m) n ≡ some v
  pub mms_value-write_apart :
      (m : Model) (u : Write Value) (n k : Node)
      → Apart n k
      → mms_value (write u n m) k ≡ mms_value m k
  -- Setting a value in place: an integer stays one, and a Boolean stays one.
  pub set_value : SetValue Double → Node → Model → Model
  pub set_int32-holds :
      (m : Model) (n : Node) (v : Value) (i : ℤ)
      → mms_value m n ≡ some v
      → get_type (some v) ≡ mms_integer
      → IsInt32 i
      → (u : Value) × (mms_value (set_value (set_int32 i) n m) n ≡ some u)
        × (get_type (some u) ≡ mms_integer)
        × (to_int32 (some u) ≡ i)
  pub set_boolean-holds :
      (m : Model) (n : Node) (v : Value) (b : Bool)
      → mms_value m n ≡ some v
      → get_type (some v) ≡ mms_boolean
      → (u : Value) × (mms_value (set_value (set_boolean b) n m) n ≡ some u)
        × (get_type (some u) ≡ mms_boolean)
        × (get_boolean (some u) ≡ b)
  -- A `FLOAT32` read as a double is set as it was.
  pub set_float-holds :
      (m : Model) (n : Node) (v a : Value)
      → mms_value m n ≡ some v
      → get_type (some v) ≡ mms_float
      → (u : Value) × (mms_value (set_value (set_float (to_float (some a))) n m) n ≡ some u)
        × (get_type (some u) ≡ mms_float)
        × (to_float (some u) ≡ to_float (some a))
  pub mms_value-set_value_apart :
      (m : Model) (u : SetValue Double) (n k : Node)
      → Apart n k
      → mms_value (set_value u n m) k ≡ mms_value m k
  -- Doubles. Products of integers with a power of ten are exact below 2 ^ 53.
  pub double_of_int : ℤ → Double
  pub double_of_uint64 : ℕ → Double
  pub div_double : Double → Double → Double
  pub to_int : Double → ℤ
  pub mul_double : Double → Double → Double
  pub pow10 : ℤ → Double
  pub is_nan : Double → Bool
  pub to_uint64 : Double → ℕ
  pub mul_double-exact :
      (n k : ℕ)
      → n * 10 ^ k < 2 ^ 53
      → to_uint64 (mul_double (double_of_int (pos n)) (pow10 (pos k))) ≡ n * 10 ^ k
  -- `localtime_r` and `timelocal`.
  pub localtime : ℕ → Option Tm
  pub timelocal : Tm → ℤ
  -- What a caller reads as the result of a function that ends with no `return`.
  pub missing_return : Bool
  pub to_uint64-double_of_uint64 : (n : ℕ) → n < 2 ^ 53 → to_uint64 (double_of_uint64 n) ≡ n
  -- cJSON. A `Json` is the content of a tree, with the values that a parsed tree holds.
  pub Json : Type 0
  pub create_object : Json
  pub create_array : Json
  pub create_string : String → Json
  pub create_bool : Bool → Json
  pub create_number : Double → Json
  pub add_item_to_object : Json → String → Json → Json
  pub add_item_to_array : Json → Json → Json
  -- `cJSON_GetObjectItem`: the first item with the key, whatever the case of its letters.
  pub get_item : Json → String → Option Json
  pub get_item-create_object : (key : String) → get_item create_object key ≡ none
  pub get_item-add_item_to_object :
      (j : Json) (key : String) (item : Json) (other : String)
      → get_item (add_item_to_object j key item) other
        ≡ first_some (get_item j other) (if same_key key other then some item else none)
  pub array_size : Json → ℕ
  pub array_item : Json → ℕ → Option Json
  pub is_array : Json → Bool
  pub is_array-create_array : is_array create_array ≡ true
  pub is_array-add_item_to_array :
      (j item : Json) → is_array (add_item_to_array j item) ≡ is_array j
  pub array_size-create_array : array_size create_array ≡ 0
  pub array_size-add_item_to_array :
      (j item : Json) → array_size (add_item_to_array j item) ≡ array_size j + 1
  pub array_item-add_item_to_array :
      (j item : Json) (i : ℕ)
      → array_item (add_item_to_array j item) i
        ≡ (if i == array_size j then some item else array_item j i)
  pub is_string : Json → Bool
  pub is_bool : Json → Bool
  pub is_number : Json → Bool
  -- `valuestring`, which is NULL where the item is no text, `valueint` and `valuedouble`.
  pub value_string : Json → Option String
  pub value_int : Json → ℤ
  pub value_double : Json → Double
  pub create_string-holds :
      (s : String)
      → (is_string (create_string s) ≡ true) × (value_string (create_string s) ≡ some s)
  pub create_bool-holds :
      (b : Bool)
      → (is_bool (create_bool b) ≡ true)
        × (value_int (create_bool b) ≡ (if b then pos 1 else pos 0))
  pub create_number-holds :
      (d : Double) → (is_number (create_number d) ≡ true) × (value_double (create_number d) ≡ d)
  pub value_int-create_number :
      (i : ℤ) → IsInt32 i → value_int (create_number (double_of_int i)) ≡ i
  -- A text as cJSON prints and parses it; a tree is printed in two layouts. What is printed is parsed
  -- again as it was, unless there is a number in it that JSON has no text for.
  pub Text : Type 0
  pub empty_text : Text
  pub print : Json → Option Text
  pub print_unformatted : Json → Option Text
  pub parse : Text → Option Json
  pub IsPrintable : Json → Type 0
  pub parse-print : (j : Json) (t : Text) → IsPrintable j → print j ≡ some t → parse t ≡ some j
  pub parse-print_unformatted :
      (j : Json) (t : Text) → IsPrintable j → print_unformatted j ≡ some t → parse t ≡ some j
  -- `fopen(name, "w")` gives a file; `fprintf` of a text to it succeeds; a file that exists is read.
  pub can_open : String → Bool
  pub can_print : Text → Bool
  pub can_read : String → Bool
