-- ===== src/Examples/Initial.antt =====
-- The initialization of a controller whose data model refers to the second schedule.
use der_scheduling.Prelude.{◌≡◌, refl, none, some, [], ◌∷◌, ◌==◌, if◌then◌else◌}
use der_scheduling.World.{World, set_controller, set_schedule, install}
use der_scheduling.Names.{check_if_multi_obj_inst, memcmp_eq, digits_from, is_digit}
use der_scheduling.Scheduler.{get_schedule_by_obj_ref, find_schedule}
use der_scheduling.Controller.References.{contains, connect, set_listening_controller}
use der_scheduling.Controller.Initialize.{initialize_object, initialize_objects}
use der_scheduling.System.Keeps.{listed}
use der_scheduling.System.Initial.{Linked}
use der_scheduling.System.Created.{Unlinked}
use der_scheduling.System.Program.{scheduler_create-Steps-Linked}
use der_scheduling.System.Reachable.{after, turns, done}
use der_scheduling.Schedule.Thread.{thread_round}
use der_scheduling.Example.{setup}
use der_scheduling.Example.Setup.{setup_then}
use der_scheduling.Scheduler.Create.{scheduler_create}
use der_scheduling.Examples.Toy.{toy, chars}
use der_scheduling.Examples.Plant.{plant}

abbrev pub fresh : World
fresh = record (plant 1 1 0) {
  model = λ n. if n == 920 then some (chars "LD/FSCH2") else (plant 1 1 0).model n;
  controller = λ c. record ((plant 1 1 0).controller c) {
    schedules = [];
    active_schedule = none;
    control_entity = none;
  };
}

-- The controller lists the schedule that its reference names.
listed_after : listed (initialize_objects 0 (921 ∷ []) fresh) 0 ≡ 1 ∷ []
unfolding initialize_objects initialize_object check_if_multi_obj_inst memcmp_eq digits_from
    is_digit get_schedule_by_obj_ref find_schedule connect set_listening_controller set_controller
    set_schedule contains install
listed_after = refl

nothing_linked : Unlinked fresh
nothing_linked = record { none_listed = λ c. refl; none_active = λ c. refl }

-- The set-up of the example program, and then a round of the first schedule's thread.
scheduler_create-Steps-Linked_example :
    Linked (thread_round 7100 0 (setup 7000 (scheduler_create 5 6900 fresh)))
scheduler_create-Steps-Linked_example =
    scheduler_create-Steps-Linked 5 6900 fresh nothing_linked
      (setup_then 7000 (scheduler_create 5 6900 fresh) (after (turns 7100 0 _) done))
