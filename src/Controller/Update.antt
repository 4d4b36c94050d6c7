-- ===== src/Controller/Update.antt =====
-- What a schedule controller writes to the data model and hands to the user of the scheduler
-- (schedule_controller.c, and scheduler_targetValueChanged of der_scheduler.c).
pub mod Frame
use der_scheduling.Prelude.{
  first_some, ℕ, Bool, true, false, Option, none, some, [], ◌∷◌, ◌++◌, String, if◌then◌else◌,
}
use der_scheduling.Platform.{
  Platform, ModelType, data_object, data_attribute, other_node, Quality, good, invalid, Write,
  attribute_value, utc_time, timestamp, quality, visible_string,
}
use der_scheduling.World.{TargetType, TargetValue, World, update_at}

abbrev is_data_object : ModelType → Bool
is_data_object data_object = true
is_data_object _ = false

-- `Timestamp_setSubsecondPrecision` is not called: the precision is 0.
abbrev plain : ℕ
plain = 0

module _ ⦃lib : Platform⦄ where
  open lib use {Node, Value, get_child, get_parent, model_type, object_reference}

  abbrev below : Option Node → String → Option Node
  below none name = none
  below (some n) name = get_child (some n) name

  abbrev active_ref : World → Option ℕ → String
  active_ref w none = ""
  active_ref w (some s) = object_reference false (w.schedule s).schedule_ln

  abbrev active_quality : Option ℕ → Quality
  active_quality none = invalid
  active_quality (some s) = good

  abbrev write_act_schd_ref : ℕ → Option Node → Option ℕ → World → World
  write_act_schd_ref now obj s w = update_at (timestamp plain now) (below obj "t") (
      update_at (quality (active_quality s)) (below obj "q")
        (update_at (visible_string (active_ref w s)) (below obj "stVal") w))

  -- `scheduleController_updateActSchdRef`
  unfoldable pub update_act_schd_ref : ℕ → ℕ → Option ℕ → World → World
  update_act_schd_ref now c s w =
      write_act_schd_ref now (get_child (some (w.controller c).controller_ln) "ActSchdRef") s w

  -- `scheduler_targetValueChanged`
  unfoldable pub target_value_changed : Node → Option Value → Quality → ℕ → World → World
  target_value_changed attr val q now w =
      let call : TargetValue = record {
        object_ref = object_reference true attr;
        value = val;
        quality = q;
        timestamp = now;
      } in
      if w.target_value_handler
      then record w { target_values = w.target_values ++ (call ∷ []) }
      else w

  -- `valueAttr`, `qAttr` and `tAttr`.
  pub record Attributes : Type 0 where
    pub value_attr : Option Node
    pub q_attr : Option Node
    pub t_attr : Option Node

  abbrev mag_attribute : Option Node → Option Node
  mag_attribute obj = first_some (get_child obj "mag.f") (get_child obj "mag.i")

  abbrev target_value_attribute : TargetType → Option Node → Option Node
  target_value_attribute TargetType.mv obj = mag_attribute obj
  target_value_attribute _ obj = get_child obj "stVal"

  -- The object that a target attribute lies in: its parent, or the parent of that.
  abbrev enclosing_object : Option Node → Option Node
  enclosing_object none = none
  enclosing_object (some p) = if is_data_object (model_type p) then some p else get_parent p

  abbrev if_object : Option Node → Option Node
  if_object none = none
  if_object (some p) = if is_data_object (model_type p) then some p else none

  abbrev attributes_in : Option Node → Node → Attributes
  attributes_in none entity = record { value_attr = some entity; q_attr = none; t_attr = none }
  attributes_in (some p) entity = record {
    value_attr = some entity;
    q_attr = get_child (some p) "q";
    t_attr = get_child (some p) "t";
  }

  abbrev target_attributes : TargetType → Node → ModelType → Attributes
  target_attributes target entity data_object = record {
    value_attr = target_value_attribute target (some entity);
    q_attr = get_child (some entity) "q";
    t_attr = get_child (some entity) "t";
  }
  target_attributes target entity data_attribute =
      attributes_in (if_object (enclosing_object (get_parent entity))) entity
  target_attributes target entity other_node = record {
    value_attr = none;
    q_attr = none;
    t_attr = none;
  }

  abbrev is_null : Option Node → Bool
  is_null none = true
  is_null (some n) = false

  -- An attribute's parent that is no object and has itself no parent: the NULL is followed.
  abbrev is_orphan : Option Node → Bool
  is_orphan none = false
  is_orphan (some p) = if is_data_object (model_type p) then false else is_null (get_parent p)

  abbrev follows_null : Node → ModelType → Bool
  follows_null entity data_attribute = is_orphan (get_parent entity)
  follows_null entity _ = false

  abbrev value_quality : Option Value → Quality
  value_quality none = invalid
  value_quality (some v) = good

  abbrev write_value : Option Value → Option Node → World → World
  write_value none attr w = w
  write_value (some v) attr w = update_at (attribute_value v) attr w

  abbrev notified_node : Option Node → Node → Node
  notified_node none entity = entity
  notified_node (some attr) entity = attr

  abbrev write_target : Attributes → Node → Option Value → ℕ → World → World
  write_target a entity val now w =
      target_value_changed (notified_node a.value_attr entity) val (value_quality val) now (
        write_value val a.value_attr
          (update_at (quality (value_quality val)) a.q_attr (update_at (utc_time now) a.t_attr w)))

  abbrev update_entity : TargetType → Option Node → Option Value → ℕ → World → World
  update_entity target none val now w = w
  update_entity target (some entity) val now w =
      if follows_null entity (model_type entity)
      then record w { faulted = true }
      else write_target (target_attributes target entity (model_type entity)) entity val now w

  -- `scheduleController_updateTargetValue`
  unfoldable pub update_target_value : ℕ → TargetType → Option Value → ℕ → World → World
  unfolding target_value_changed
  update_target_value c target val now w =
      update_entity target (w.controller c).control_entity val now w

  -- With no target type the code looks for ValMV alone: each further test asks for NULL again
  -- in an `else`.
  abbrev current_value_name : TargetType → String
  current_value_name TargetType.mv = "ValMV"
  current_value_name TargetType.ens = "ValENS"
  current_value_name TargetType.ins = "ValINS"
  current_value_name TargetType.sps = "ValSPS"
  current_value_name TargetType.unknown = "ValMV"

  abbrev write_current : Option Node → Option Node → Option Value → World → World
  write_current none q val w = update_at (quality invalid) q w
  write_current (some attr) q none w = update_at (quality invalid) q w
  write_current (some attr) q (some v) w =
      update_at (quality good) q (update_at (attribute_value v) (some attr) w)

  abbrev update_value_object : TargetType → Option Node → Option Value → ℕ → World → World
  update_value_object target none val now w = w
  update_value_object target (some obj) val now w =
      update_at (utc_time now) (get_child (some obj) "t")
        (write_current (target_value_attribute target (some obj)) (get_child (some obj) "q") val w)

  -- `scheduleController_updateCurrentValue`
  unfoldable pub update_current_value : ℕ → TargetType → Option Value → ℕ → World → World
  update_current_value c target val now w =
      update_value_object target
        (get_child (some (w.controller c).controller_ln) (current_value_name target)) val now w
