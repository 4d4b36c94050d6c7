-- ===== src/Schedule/Values.antt =====
-- The schedule's entries and its current value in the data model (schedule.c).
use der_scheduling.Prelude.{
  first_some, ℕ, ◌+◌, Option, none, some, List, [], ◌∷◌, String, if◌then◌else◌,
}
use der_scheduling.Prelude.Int.{ℤ, pos, ◌+ℤ◌}
use der_scheduling.Platform.{Platform}
use der_scheduling.Names.{codes, check_if_multi_obj_inst, numbered_name}
use der_scheduling.World.{TargetType, World}
use der_scheduling.Schedule.Getters.{ln_child, value_at}

-- The name of the objects that hold the entries of a schedule.
abbrev pub entry_name : TargetType → Option String
entry_name TargetType.mv = some "ValASG"
entry_name TargetType.ens = some "ValENG"
entry_name TargetType.ins = some "ValING"
entry_name TargetType.sps = some "ValSPG"
entry_name TargetType.unknown = none

-- The name of the object that holds the current value.
abbrev pub value_name : TargetType → Option String
value_name TargetType.mv = some "ValMV"
value_name TargetType.ens = some "ValENS"
value_name TargetType.ins = some "ValINS"
value_name TargetType.sps = some "ValSPS"
value_name TargetType.unknown = none

module _ ⦃lib : Platform⦄ where
  open lib use {Node, Value, get_child, get_children, node_name, mms_value}

  unfoldable pub count_instances : String → List Node → ℕ
  count_instances name [] = 0
  count_instances name (n ∷ ns) =
      let rest = count_instances name ns in
      if check_if_multi_obj_inst (codes (node_name n)) (codes name) then rest + 1 else rest

  abbrev count_named : Option String → List Node → ℕ
  count_named none ns = 0
  count_named (some name) ns = count_instances name ns

  unfoldable pub get_number_of_schedule_entries : World → ℕ → ℕ
  unfolding count_instances
  get_number_of_schedule_entries w s =
      count_named (entry_name (w.schedule s).target_type) (get_children (w.schedule s).schedule_ln)

  -- For MV the float, or else the integer: the second look-up starts at the NULL of the first.
  abbrev entry_attribute : TargetType → Option Node → Option Node
  entry_attribute t none = none
  entry_attribute TargetType.mv (some obj) =
      first_some (get_child (some obj) "setMag.f") (get_child none "setMag.i")
  entry_attribute _ (some obj) = get_child (some obj) "setVal"

  abbrev numbered_child : World → ℕ → String → ℕ → ℤ → Option Node
  numbered_child w s name width idx = ln_child w s (numbered_name name width idx)

  abbrev entry_object : World → ℕ → ℤ → Option String → Option Node
  entry_object w s idx none = none
  entry_object w s idx (some name) = first_some (numbered_child w s name 0 idx) (
      first_some (numbered_child w s name 2 idx)
        (first_some (numbered_child w s name 3 idx) (numbered_child w s name 4 idx)))

  unfoldable pub get_schedule_value_attribute : World → ℕ → ℤ → Option Node
  get_schedule_value_attribute w s idx =
      entry_attribute (w.schedule s).target_type
        (entry_object w s idx (entry_name (w.schedule s).target_type))

  abbrev current_object : World → ℕ → Option String → Option Node
  current_object w s none = none
  current_object w s (some name) = ln_child w s name

  abbrev current_attribute : TargetType → Option Node → Option Node
  current_attribute t none = none
  current_attribute TargetType.mv (some obj) =
      first_some (get_child (some obj) "mag.f") (get_child none "mag.i")
  current_attribute _ (some obj) = get_child (some obj) "stVal"

  unfoldable pub get_current_value_attribute : World → ℕ → Option Node
  get_current_value_attribute w s =
      current_attribute (w.schedule s).target_type
        (current_object w s (value_name (w.schedule s).target_type))

  abbrev sub_attribute : Option Node → String → Option Node
  sub_attribute none name = none
  sub_attribute (some obj) name = get_child (some obj) name

  unfoldable pub get_current_value_sub_attribute : World → ℕ → String → Option Node
  get_current_value_sub_attribute w s name =
      sub_attribute (current_object w s (value_name (w.schedule s).target_type)) name

  unfoldable pub get_value_with_idx : World → ℕ → ℤ → Option Value
  unfolding get_schedule_value_attribute
  get_value_with_idx w s idx = value_at w (get_schedule_value_attribute w s (idx +ℤ pos 1))
