-- ===== src/Examples/Created.antt =====
-- The creation of the plant's schedules.
use der_scheduling.Prelude.{
  ℕ, ◌≡◌, ◌≢◌, ap, ◌∙◌, some-injective, refl, true, some, [], ◌∷◌, map, String, arith,
}
use der_scheduling.World.{ScheduleState}
use der_scheduling.Names.{numbered_name, format_int, decimal_loop, memcmp_eq}
use der_scheduling.Schedule.Getters.{get_state}
use der_scheduling.Schedule.Values.{get_schedule_value_attribute}
use der_scheduling.Schedule.Create.{is_schedule, schedule_create, install_values}
use der_scheduling.Schedule.Create.Created.{OnlyCreated}
use der_scheduling.Schedule.Create.Opened.{IsNew, schedule_create-IsNew}
use der_scheduling.Schedule.Create.Callbacks.{EntriesAre, value_handler, install_values-handlers}
use der_scheduling.Schedule.Create.NotReady.{schedule_create-get_state}
use der_scheduling.Scheduler.Create.{strstr, is_named, parse_devices, empty_scheduler}
use der_scheduling.Scheduler.Create.Search.{
  schedule_nodes, is_found, found_in_devices, parse_devices-schedule_nodes,
}
use der_scheduling.Examples.Toy.{toy, child}
use der_scheduling.Examples.Plant.{plant}
use der_scheduling.Examples.Initial.{fresh}

is_plant_schedule : is_schedule 0 ≡ true
unfolding is_schedule
is_plant_schedule = refl

schedule_create-IsNew_example :
    let u = (schedule_create 5 7000 7 0 fresh).0 in
    IsNew 0 (u.schedule 7) × OnlyCreated 7 (u.schedule 7) fresh u
schedule_create-IsNew_example = schedule_create-IsNew 5 7000 7 0 fresh is_plant_schedule

next_child : (k : ℕ) (name : String) → child (some 17) name ≡ some k → k ≢ 2
next_child k name e h = ground arith

schedule_create-get_state_example :
    get_state (schedule_create 5 7000 7 0 fresh).0 7 ≡ ScheduleState.not_ready
schedule_create-get_state_example =
    schedule_create-get_state 5 7000 7 0 1 2 fresh is_plant_schedule refl refl tt
      (λ next k name e f.
        next_child k name (ap (λ n. child (some n) name) (some-injective _ _ e) ∙ f))

two_entries : EntriesAre (plant 1 1 0) 0 1 (10 ∷ 12 ∷ [])
unfolding get_schedule_value_attribute numbered_name format_int decimal_loop
two_entries = (refl, (refl, refl))

install_values-handlers_example :
    (install_values 5 0 1 (plant 1 1 0)).handlers ≡ map (value_handler 0) (10 ∷ 12 ∷ [])
install_values-handlers_example =
    install_values-handlers 5 0 1 (10 ∷ 12 ∷ []) (plant 1 1 0) two_entries (omega arith)

-- The two schedules are found, and the controller is none.
both_found : found_in_devices (1000 ∷ []) ≡ 0 ∷ 100 ∷ []
unfolding found_in_devices is_found is_named is_schedule strstr memcmp_eq
both_found = refl

parse_devices-schedule_nodes_example :
    schedule_nodes (parse_devices 5 7000 (1000 ∷ []) (empty_scheduler fresh))
    ≡ found_in_devices (1000 ∷ [])
parse_devices-schedule_nodes_example = parse_devices-schedule_nodes 5 7000 (1000 ∷ []) fresh
