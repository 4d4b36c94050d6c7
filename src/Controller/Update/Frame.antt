-- ===== src/Controller/Update/Frame.antt =====
-- What the writes of a schedule controller leave alone: the structs of the program.
use mathlib.Core.List.{append-nil}
use der_scheduling.Prelude.{
  ℕ, List, ◌≡◌, ◌∙◌, Bool, true, false, Option, none, some, [], ◌∷◌, ◌++◌, arith, if◌then◌else◌,
}
use der_scheduling.Platform.{Platform}
use der_scheduling.World.{World, TargetType, TargetValue, update_at}
use der_scheduling.Controller.Update.{
  update_act_schd_ref, update_current_value, update_target_value, follows_null, notified_node,
  target_attributes, value_quality,
}

module _ ⦃lib : Platform⦄ where
  open lib use {Node, Value, model_type, object_reference}

  -- The structs of schedules and controllers, and the settings of the scheduler, are the same.
  pub record SameStructs (w w' : World) : Type 0 where
    pub schedule : w'.schedule ≡ w.schedule
    pub controller : w'.controller ≡ w.controller
    pub schedules : w'.schedules ≡ w.schedules
    pub handler : w'.target_value_handler ≡ w.target_value_handler

  pub SameStructs-trans : {u v w : World} → SameStructs u v → SameStructs v w → SameStructs u w
  SameStructs-trans p q = record {
    schedule = q.schedule ∙ p.schedule;
    controller = q.controller ∙ p.controller;
    schedules = q.schedules ∙ p.schedules;
    handler = q.handler ∙ p.handler;
  }

  pub update_act_schd_ref-SameStructs :
      (now c : ℕ) (s : Option ℕ) (w : World) → SameStructs w (update_act_schd_ref now c s w)
  unfolding update_act_schd_ref update_at
  update_act_schd_ref-SameStructs now c s w = ground arith

  pub update_current_value-SameStructs :
      (c : ℕ) (target : TargetType) (val : Option Value) (now : ℕ) (w : World)
      → SameStructs w (update_current_value c target val now w)
  unfolding update_current_value update_at
  update_current_value-SameStructs c target val now w = ground arith

  pub update_target_value-SameStructs :
      (c : ℕ) (target : TargetType) (val : Option Value) (now : ℕ) (w : World)
      → SameStructs w (update_target_value c target val now w)
  unfolding update_target_value update_at
  update_target_value-SameStructs c target val now w = ground arith

  pub update_act_schd_ref-target_values :
      (now c : ℕ) (s : Option ℕ) (w : World)
      → (update_act_schd_ref now c s w).target_values ≡ w.target_values
  unfolding update_act_schd_ref update_at
  update_act_schd_ref-target_values now c s w = ground arith

  pub update_current_value-target_values :
      (c : ℕ) (target : TargetType) (val : Option Value) (now : ℕ) (w : World)
      → (update_current_value c target val now w).target_values ≡ w.target_values
  unfolding update_current_value update_at
  update_current_value-target_values c target val now w = ground arith

  abbrev call_for : Node → TargetType → Option Value → ℕ → TargetValue
  call_for entity target val now = record {
    object_ref =
        object_reference true
          (notified_node (target_attributes target entity (model_type entity)).value_attr entity);
    value = val;
    quality = value_quality val;
    timestamp = now;
  }

  -- The calls of the user's handler for a new target value: one, where a handler and a control
  -- entity are set and the entity lies in a data object or at the top of the model.
  abbrev pub target_calls : Bool → Option Node → TargetType → Option Value → ℕ → List TargetValue
  target_calls false entity target val now = []
  target_calls true none target val now = []
  target_calls true (some entity) target val now =
      if follows_null entity (model_type entity) then [] else call_for entity target val now ∷ []

  pub update_target_value-target_values :
      (c : ℕ) (target : TargetType) (val : Option Value) (now : ℕ) (w : World)
      → (update_target_value c target val now w).target_values
        ≡ w.target_values
          ++ target_calls w.target_value_handler (w.controller c).control_entity target val now
  unfolding update_target_value update_at
  update_target_value-target_values c target val now w = ground (arith, append-nil w.target_values)
