-- ===== src/System/Program.antt =====
-- The whole life of the program: it is created, and then takes any steps.
use der_scheduling.Prelude.{ℕ, Option, none, some, inl, inr, Bool-cases}
use der_scheduling.Platform.{Platform}
use der_scheduling.World.{World}
use der_scheduling.Scheduler.{get_schedule_by_obj_ref}
use der_scheduling.Scheduler.Create.{scheduler_create}
use der_scheduling.Controller.References.{
  contains, old_schedule, connect_new, schd_set_src_ref_write_access_handler,
}
use der_scheduling.System.Keeps.{listed}
use der_scheduling.System.Initial.{Linked, Keeps-Linked, connect-Linked}
use der_scheduling.System.Created.{Unlinked, scheduler_create-Linked}
use der_scheduling.System.Reachable.{
  Steps, done, after, Change, keeps, connects, Step-Change, stored_reference-Keeps,
}

module _ ⦃lib : Platform⦄ where
  open lib use {Node, Value, mms_value, to_string}

  connect_new-Linked :
      (c : ℕ) (attr : Node) (v : Value) (o : Option ℕ) (w : World)
      → Linked w
      → Linked (connect_new c attr v o w).0
  connect_new-Linked c attr v none w h = h
  connect_new-Linked c attr v (some s) w h = elim (Bool-cases (contains s (listed w c))) [
    | inl e ↦ rw e h
    | inr e ↦ rw e (
        Keeps-Linked (stored_reference-Keeps c attr v _)
          (connect-Linked c (old_schedule w (mms_value w.model attr)) s w h))
  ]

  Change-Linked : {u w : World} → Change u w → Linked u → Linked w
  unfolding schd_set_src_ref_write_access_handler
  Change-Linked (keeps k) h = Keeps-Linked k h
  Change-Linked (connects c attr v w) h =
      connect_new-Linked c attr v (get_schedule_by_obj_ref w (to_string (some v))) w h

  Steps-Linked : {u w : World} → Steps u w → Linked u → Linked w
  Steps-Linked done h = h
  Steps-Linked (after step steps) h = Steps-Linked steps (Change-Linked (Step-Change step) h)

  -- In every state that the program reaches after the scheduler has been created, by thread rounds,
  -- client writes and controls and calls of the user, every schedule knows each controller that lists
  -- it or has it as its active schedule. No struct must have an entry in a list or an active schedule
  -- before the creation.
  pub scheduler_create-Steps-Linked :
      (fuel now : ℕ) (w : World) {w' : World}
      → Unlinked w
      → Steps (scheduler_create fuel now w) w'
      → Linked w'
  scheduler_create-Steps-Linked fuel now w h steps =
      Steps-Linked steps (scheduler_create-Linked fuel now w h)
