-- ===== src/System/Reachable.antt =====
-- The steps of the program, and what holds in every state that they reach.
use der_scheduling.Prelude.{ℕ, Bool, Option, none, some, String, inl, inr, Bool-cases}
use der_scheduling.Platform.{Platform, attribute_value}
use der_scheduling.World.{World, update}
use der_scheduling.Scheduler.{
  ScheduleParameter, get_schedule_by_obj_ref, scheduler_enable_schedule_control,
  scheduler_enable_schedule, scheduler_enable_write_access_to_parameter,
}
use der_scheduling.Storage.SaveController.{save_controller_if_stored}
use der_scheduling.Controller.References.{
  contains, old_schedule, connect_new, ctl_ent_write_access_handler,
  schd_set_src_ref_write_access_handler,
}
use der_scheduling.Schedule.Access.Outcome.{Setting, handle_write}
use der_scheduling.Schedule.Control.{perform_check_handler, control_handler}
use der_scheduling.Schedule.Thread.{thread_start, thread_round}
use der_scheduling.System.Keeps.{listed, Keeps, Keeps-trans}
use der_scheduling.System.Status.{update-Keeps, save_controller-Keeps}
use der_scheduling.System.Enabling.{perform_check_handler-Keeps, control_handler-Keeps}
use der_scheduling.System.Rounds.{thread_start-Keeps, thread_round-Keeps}
use der_scheduling.System.Access.{
  handle_write-Keeps, ctl_ent_write-Keeps, user_control-Keeps, user_enable-Keeps,
  user_parameter-Keeps,
}
use der_scheduling.Scheduler.Database.{initialize_storage, set_target_value_handler}
use der_scheduling.System.Database.{initialize_storage-Keeps, handler-Keeps}
use der_scheduling.System.WellFormed.{IsWellFormed, Keeps-IsWellFormed, connect-IsWellFormed}

module _ ⦃lib : Platform⦄ where
  open lib use {Node, Value, mms_value, to_string}

  -- What can happen: a thread's start or round, a client's write or control, a call of the user.
  pub data Step : World → World → Type 0 where
    starts : (now s : ℕ) (w : World) → Step w (thread_start now s w)
    turns : (now s : ℕ) (w : World) → Step w (thread_round now s w)
    writes :
        (k : Setting) (now s : ℕ) (attr : Node) (v : Value) (w : World)
        → Step w (handle_write k now s attr v w).0
    checks :
        (now s : ℕ) (obj : Node) (val : Option Value) (test : Bool) (w : World)
        → Step w (perform_check_handler now s obj val test w).0
    controls :
        (now s : ℕ) (obj : Node) (val : Option Value) (test : Bool) (w : World)
        → Step w (control_handler now s obj val test w).0
    writes_entity :
        (c : ℕ) (attr : Node) (v : Value) (w : World)
        → Step w (ctl_ent_write_access_handler c attr v w).0
    writes_reference :
        (c : ℕ) (attr : Node) (v : Value) (w : World)
        → Step w (schd_set_src_ref_write_access_handler c attr v w).0
    user_enables :
        (now : ℕ) (ref : String) (enable : Bool) (w : World)
        → Step w (scheduler_enable_schedule now ref enable w).0
    user_allows_control :
        (ref : String) (enable : Bool) (w : World)
        → Step w (scheduler_enable_schedule_control ref enable w)
    user_allows_writes :
        (ref : String) (p : ScheduleParameter) (enable : Bool) (w : World)
        → Step w (scheduler_enable_write_access_to_parameter ref p enable w)
    user_sets_handler : (handler : Bool) (w : World) → Step w (set_target_value_handler handler w)
    user_sets_storage : (now : ℕ) (uri : String) (w : World) → Step w (initialize_storage now uri w)

  pub data Steps : World → World → Type 0 where
    done : {w : World} → Steps w w
    after : {u v w : World} → Step u v → Steps v w → Steps u w

  pub stored_reference-Keeps :
      (c : ℕ) (attr : Node) (v : Value) (w : World)
      → Keeps w (save_controller_if_stored c (update (attribute_value v) attr w))
  stored_reference-Keeps c attr v w =
      Keeps-trans (update-Keeps (attribute_value v) attr w) (save_controller-Keeps c _)

  connect_new-IsWellFormed :
      (c : ℕ) (attr : Node) (v : Value) (o : Option ℕ) (w : World)
      → IsWellFormed w
      → IsWellFormed (connect_new c attr v o w).0
  connect_new-IsWellFormed c attr v none w h = h
  connect_new-IsWellFormed c attr v (some s) w h = elim (Bool-cases (contains s (listed w c))) [
    | inl e ↦ rw e h
    | inr e ↦ rw e (
        Keeps-IsWellFormed (stored_reference-Keeps c attr v _)
          (connect-IsWellFormed c (old_schedule w (mms_value w.model attr)) s w h e))
  ]

  -- A client's write of a reference keeps the lists of the controllers without repetition, and each
  -- schedule that is listed or active known to its controller.
  pub reference_write-IsWellFormed :
      (c : ℕ) (attr : Node) (v : Value) (w : World)
      → IsWellFormed w
      → IsWellFormed (schd_set_src_ref_write_access_handler c attr v w).0
  unfolding schd_set_src_ref_write_access_handler
  reference_write-IsWellFormed c attr v w h =
      connect_new-IsWellFormed c attr v (get_schedule_by_obj_ref w (to_string (some v))) w h

  -- A step keeps the lists, or is the write of a reference.
  pub data Change : World → World → Type 0 where
    keeps : {u w : World} → Keeps u w → Change u w
    connects :
        (c : ℕ) (attr : Node) (v : Value) (w : World)
        → Change w (schd_set_src_ref_write_access_handler c attr v w).0

  pub Step-Change : {u w : World} → Step u w → Change u w
  Step-Change (starts now s w) = keeps (thread_start-Keeps now s w)
  Step-Change (turns now s w) = keeps (thread_round-Keeps now s w)
  Step-Change (writes k now s attr v w) = keeps (handle_write-Keeps k now s attr v w)
  Step-Change (checks now s obj val test w) =
      keeps (perform_check_handler-Keeps now s obj val test w)
  Step-Change (controls now s obj val test w) = keeps (control_handler-Keeps now s obj val test w)
  Step-Change (writes_entity c attr v w) = keeps (ctl_ent_write-Keeps c attr v w)
  Step-Change (writes_reference c attr v w) = connects c attr v w
  Step-Change (user_sets_handler handler w) = keeps (handler-Keeps handler w)
  Step-Change (user_sets_storage now uri w) = keeps (initialize_storage-Keeps now uri w)
  Step-Change (user_enables now ref enable w) = keeps (user_enable-Keeps now ref enable w)
  Step-Change (user_allows_control ref enable w) = keeps (user_control-Keeps ref enable w)
  Step-Change (user_allows_writes ref p enable w) = keeps (user_parameter-Keeps ref p enable w)

  Change-IsWellFormed : {u w : World} → Change u w → IsWellFormed u → IsWellFormed w
  Change-IsWellFormed (keeps k) h = Keeps-IsWellFormed k h
  Change-IsWellFormed (connects c attr v w) h = reference_write-IsWellFormed c attr v w h

  -- Whatever sequence of thread rounds, client writes and controls and calls of the user happens, no
  -- controller lists a schedule twice, and every schedule knows the controllers that list it or have
  -- it as their active schedule, if this holds at first.
  pub Steps-IsWellFormed : {u w : World} → Steps u w → IsWellFormed u → IsWellFormed w
  Steps-IsWellFormed done h = h
  Steps-IsWellFormed (after step steps) h =
      Steps-IsWellFormed steps (Change-IsWellFormed (Step-Change step) h)
