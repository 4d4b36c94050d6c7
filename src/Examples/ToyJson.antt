-- ===== src/Examples/ToyJson.antt =====
-- JSON trees as they are built, an item at a time, and their texts, which are the trees themselves.
use der_scheduling.Prelude.{
  first_some, ◌++◌, length, length-append, zero, suc, ℕ, ◌+◌, ◌≡◌, refl, Bool, true, false, Option,
  none, some, List, [], ◌∷◌, String, if◌then◌else◌, arith, ◌==◌,
}
use der_scheduling.Prelude.Int.{ℤ, pos}
use der_scheduling.Names.{same_key}

pub data ToyJson : Type 0 where
  object array : ToyJson
  text_item : String → ToyJson
  bool_item : Bool → ToyJson
  number_item : ℤ → ToyJson
  with_field : ToyJson → String → ToyJson → ToyJson
  with_item : ToyJson → ToyJson → ToyJson

abbrev pub field_of : ToyJson → String → Option ToyJson
field_of (with_field j key item) other =
    first_some (field_of j other) (if same_key key other then some item else none)
field_of (with_item j item) other = none
field_of object other = none
field_of array other = none
field_of (text_item s) other = none
field_of (bool_item b) other = none
field_of (number_item d) other = none

abbrev pub items_of : ToyJson → List ToyJson
items_of (with_item j item) = items_of j ++ (item ∷ [])
items_of (with_field j key item) = items_of j ++ (item ∷ [])
items_of object = []
items_of array = []
items_of (text_item s) = []
items_of (bool_item b) = []
items_of (number_item d) = []

abbrev pub nth : List ToyJson → ℕ → Option ToyJson
nth [] n = none
nth (j ∷ js) zero = some j
nth (j ∷ js) (suc n) = nth js n

abbrev pub is_list : ToyJson → Bool
is_list array = true
is_list (with_item j item) = is_list j
is_list (with_field j key item) = false
is_list object = false
is_list (text_item s) = false
is_list (bool_item b) = false
is_list (number_item d) = false

abbrev pub is_text_item : ToyJson → Bool
is_text_item (text_item s) = true
is_text_item _ = false

abbrev pub is_bool_item : ToyJson → Bool
is_bool_item (bool_item b) = true
is_bool_item _ = false

abbrev pub is_number_item : ToyJson → Bool
is_number_item (number_item d) = true
is_number_item _ = false

abbrev pub text_value : ToyJson → Option String
text_value (text_item s) = some s
text_value _ = none

abbrev pub number_value : ToyJson → ℤ
number_value (number_item d) = d
number_value (bool_item true) = pos 1
number_value _ = pos 0

pub bool_laws :
    (b : Bool)
    → (is_bool_item (bool_item b) ≡ true)
      × (number_value (bool_item b) ≡ (if b then pos 1 else pos 0))
bool_laws true = (refl, refl)
bool_laws false = (refl, refl)

pub parsed : (j : ToyJson) (t : Option ToyJson) → Unit {0} → some (some j) ≡ some t → t ≡ some j
parsed j t p e = cc e

pub size_add : (js : List ToyJson) (j : ToyJson) → length (js ++ (j ∷ [])) ≡ length js + 1
size_add js j = length-append js (j ∷ [])

pub nth_add :
    (js : List ToyJson) (j : ToyJson) (i : ℕ)
    → nth (js ++ (j ∷ [])) i ≡ (if i == length js then some j else nth js i)
nth_add [] j zero = refl
nth_add [] j (suc i) = ground arith
nth_add (k ∷ js) j zero = ground arith
nth_add (k ∷ js) j (suc i) = ground (arith, nth_add js j i)
