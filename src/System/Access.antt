-- ===== src/System/Access.antt =====
-- Client writes to a schedule, to a control entity, and the user's calls keep the lists.
use der_scheduling.Prelude.{ℕ, refl, Bool, false, Option, some, none, String, arith, inl}
use der_scheduling.Platform.{Platform, attribute_value}
use der_scheduling.World.{World, update, set_controller}
use der_scheduling.Storage.Save.{save_if_stored}
use der_scheduling.Schedule.Access.{
  accept, str_tm_write_access_handler, str_tm_set_cal_write_access_handler, notify_prio,
  schd_prio_write_access_handler, generic_write_access_handler, schd_value_write_access_handler,
  schd_reuse_write_access_handler, schd_intv_write_access_handler, enable_schedule_control,
  enable_write_access_to_schd_prio, enable_write_access_to_str_tm,
  enable_write_access_to_schd_reuse,
}
use der_scheduling.Schedule.Access.Outcome.{Setting, str_tm, schd_prio, handle_write}
use der_scheduling.Controller.References.{
  look_up_target_object, fault_if_missing, target_reference, set_entity,
  ctl_ent_write_access_handler,
}
use der_scheduling.Schedule.Enable.{enable_schedule}
use der_scheduling.Scheduler.{
  ScheduleParameter, get_schedule_by_obj_ref, with_schedule, enable_parameter,
  scheduler_enable_schedule_control, scheduler_enable_schedule,
  scheduler_enable_write_access_to_parameter,
}
use der_scheduling.System.Keeps.{
  known, Keeps, Keeps-refl, Keeps-trans, Keeps-same, set_schedule-Keeps,
}
use der_scheduling.System.Events.{notify_prio-Keeps}
use der_scheduling.System.Status.{update-Keeps, save-Keeps, save_controller-Keeps}
use der_scheduling.System.Enabling.{enable_schedule-Keeps}

module _ ⦃lib : Platform⦄ where
  open lib use {Node, Value, to_string, node_by_reference}

  accept-Keeps : (s : ℕ) (attr : Node) (v : Value) (w : World) → Keeps w (accept s attr v w).0
  accept-Keeps s attr v w = Keeps-trans (update-Keeps (attribute_value v) attr w) (save-Keeps s _)

  prio_write-Keeps :
      (now s : ℕ) (attr : Node) (v : Value) (w : World)
      → Keeps w (save_if_stored s (notify_prio now (known w s) (update (attribute_value v) attr w)))
  prio_write-Keeps now s attr v w =
      Keeps-trans (update-Keeps (attribute_value v) attr w)
        (Keeps-trans (notify_prio-Keeps now (known w s) _) (save-Keeps s _))

  pub handle_write-Keeps :
      (k : Setting) (now s : ℕ) (attr : Node) (v : Value) (w : World)
      → Keeps w (handle_write k now s attr v w).0
  unfolding handle_write str_tm_write_access_handler str_tm_set_cal_write_access_handler
      schd_prio_write_access_handler schd_reuse_write_access_handler schd_intv_write_access_handler
      generic_write_access_handler schd_value_write_access_handler
  handle_write-Keeps schd_prio now s attr v w =
      ground (arith, Keeps-refl w, prio_write-Keeps now s attr v w)
  handle_write-Keeps str_tm now s attr v w = ground (arith, Keeps-refl w, accept-Keeps s attr v w)
  handle_write-Keeps _ now s attr v w = ground (arith, Keeps-refl w, accept-Keeps s attr v w)

  pub entity-Keeps :
      (c : ℕ) (x : Option Node) (w : World)
      → Keeps w (set_controller c (record (w.controller c) { control_entity = x }) w)
  unfolding set_controller
  entity-Keeps c x w = record {
    known_same = λ s. refl;
    listed_same = λ d. ground arith;
    active_listed = λ d s h. inl (ground arith);
  }

  set_entity-Keeps :
      (c : ℕ) (attr : Node) (v : Value) (p : World × Option Node)
      → Keeps p.0 (set_entity c attr v p).0
  set_entity-Keeps c attr v (w, none) = Keeps-refl w
  set_entity-Keeps c attr v (w, some target) =
      Keeps-trans (entity-Keeps c (some target) w)
        (Keeps-trans (update-Keeps (attribute_value v) attr _) (save_controller-Keeps c _))

  found-Keeps : (o : Option Node) (w : World) → Keeps w (fault_if_missing o w).0
  found-Keeps none w = Keeps-same refl refl
  found-Keeps (some n) w = Keeps-refl w

  pub look_up-Keeps : (ref : String) (w : World) → Keeps w (look_up_target_object ref w).0
  unfolding look_up_target_object
  look_up-Keeps String.[] w = Keeps-refl w
  look_up-Keeps (String.◌∷◌ c ref) w =
      found-Keeps (node_by_reference (target_reference (String.◌∷◌ c ref))) w

  pub ctl_ent_write-Keeps :
      (c : ℕ) (attr : Node) (v : Value) (w : World)
      → Keeps w (ctl_ent_write_access_handler c attr v w).0
  unfolding ctl_ent_write_access_handler
  ctl_ent_write-Keeps c attr v w =
      Keeps-trans (look_up-Keeps (to_string (some v)) w)
        (set_entity-Keeps c attr v (look_up_target_object (to_string (some v)) w))

  control_access-Keeps :
      (s : ℕ) (enable : Bool) (w : World) → Keeps w (enable_schedule_control s enable w)
  unfolding enable_schedule_control
  control_access-Keeps s enable w = set_schedule-Keeps s _ w refl

  parameter-Keeps :
      (p : ScheduleParameter) (enable : Bool) (w : World) (s : ℕ)
      → Keeps w (enable_parameter p enable w s)
  unfolding enable_write_access_to_schd_prio enable_write_access_to_str_tm
      enable_write_access_to_schd_reuse
  parameter-Keeps ScheduleParameter.schd_prio enable w s = set_schedule-Keeps s _ w refl
  parameter-Keeps ScheduleParameter.str_tm enable w s = set_schedule-Keeps s _ w refl
  parameter-Keeps ScheduleParameter.schd_reuse enable w s = set_schedule-Keeps s _ w refl
  parameter-Keeps ScheduleParameter.other_parameter enable w s = Keeps-refl w

  with_schedule-Keeps :
      {A : Type 0} (world : A → World) (o : Option ℕ) (missing : A) (found : ℕ → A) (w : World)
      → Keeps w (world missing)
      → ((s : ℕ) → Keeps w (world (found s)))
      → Keeps w (world (with_schedule o missing found))
  with_schedule-Keeps world none missing found w h k = h
  with_schedule-Keeps world (some s) missing found w h k = k s

  pub user_control-Keeps :
      (ref : String) (enable : Bool) (w : World)
      → Keeps w (scheduler_enable_schedule_control ref enable w)
  unfolding scheduler_enable_schedule_control
  user_control-Keeps ref enable w =
      with_schedule-Keeps (λ (u : World). u) (get_schedule_by_obj_ref w ref) w
        (λ s. enable_schedule_control s enable w) w (Keeps-refl w)
        (λ s. control_access-Keeps s enable w)

  pub user_enable-Keeps :
      (now : ℕ) (ref : String) (enable : Bool) (w : World)
      → Keeps w (scheduler_enable_schedule now ref enable w).0
  unfolding scheduler_enable_schedule
  user_enable-Keeps now ref enable w =
      with_schedule-Keeps (λ (p : World × Bool). p.0) (get_schedule_by_obj_ref w ref) (w, false)
        (λ s. enable_schedule now s enable w) w (Keeps-refl w)
        (λ s. enable_schedule-Keeps now s enable w)

  pub user_parameter-Keeps :
      (ref : String) (p : ScheduleParameter) (enable : Bool) (w : World)
      → Keeps w (scheduler_enable_write_access_to_parameter ref p enable w)
  unfolding scheduler_enable_write_access_to_parameter
  user_parameter-Keeps ref p enable w =
      with_schedule-Keeps (λ (u : World). u) (get_schedule_by_obj_ref w ref) w
        (enable_parameter p enable w) w (Keeps-refl w) (parameter-Keeps p enable w)
