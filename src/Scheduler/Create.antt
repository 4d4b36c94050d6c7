-- ===== src/Scheduler/Create.antt =====
-- Scheduler_create of der_scheduler.c: the search of the data model for schedules and controllers.
-- A pointer that an allocation gives is the number of structs before it. Memory suffices.
pub mod Search
use der_scheduling.Prelude.{
  ℕ, Bool, true, false, ◌&&◌, ◌||◌, Option, none, some, List, [], ◌∷◌, if◌then◌else◌, length,
}
use der_scheduling.Platform.{Platform}
use der_scheduling.Names.{codes, memcmp_eq}
use der_scheduling.World.{World, Controller, set_controller}
use der_scheduling.Controller.References.{add_last}
use der_scheduling.Controller.Initialize.{initialize_controllers}
use der_scheduling.Schedule.Create.{is_there, schedule_create}

-- `strstr(text, part) != NULL`
unfoldable pub strstr : List ℕ → List ℕ → Bool
unfolding memcmp_eq
strstr [] part = memcmp_eq [] part
strstr (c ∷ cs) part = memcmp_eq (c ∷ cs) part || strstr cs part

module _ ⦃lib : Platform⦄ where
  open lib use {Node, get_child, node_name, logical_devices, logical_nodes}

  unfoldable pub is_named : Node → List ℕ → Bool
  unfolding strstr
  is_named ln part = strstr (codes (node_name ln)) part

  abbrev is_controller : Node → Bool
  is_controller ln =
      is_there (get_child (some ln) "ActSchdRef") && is_there (get_child (some ln) "CtlEnt")

  -- `ScheduleController_create`
  abbrev new_controller : Node → Controller
  new_controller ln = record {
    active_schedule = none;
    schedules = [];
    storage = none;
    controller_ln = ln;
    control_entity = none;
  }

  unfoldable pub add_controller : Node → World → World
  add_controller ln w =
      let c = length w.schedule_controllers in
      record (set_controller c (new_controller ln) w) {
        schedule_controllers = add_last c w.schedule_controllers;
      }

  unfoldable pub parse_controller : Node → World → World
  unfolding add_controller
  parse_controller ln w =
      if is_named ln (codes "FSCC")
      then (if is_controller ln then add_controller ln w else w)
      else w

  abbrev pub add_schedule : ℕ → World × Bool → World
  add_schedule s (w, true) = record w { schedules = add_last s w.schedules }
  add_schedule s (w, false) = w

  unfoldable pub parse_schedule : (fuel now : ℕ) → Node → World → World
  parse_schedule fuel now ln w =
      let s = length w.schedules in
      if is_named ln (codes "FSCH") then add_schedule s (schedule_create fuel now s ln w) else w

  -- The loops over the logical nodes of a device, and over the devices.
  unfoldable pub parse_nodes : (fuel now : ℕ) → List Node → World → World
  unfolding parse_controller parse_schedule
  parse_nodes fuel now [] w = w
  parse_nodes fuel now (ln ∷ lns) w =
      parse_nodes fuel now lns (parse_schedule fuel now ln (parse_controller ln w))

  unfoldable pub parse_devices : (fuel now : ℕ) → List Node → World → World
  unfolding parse_nodes
  parse_devices fuel now [] w = w
  parse_devices fuel now (ld ∷ lds) w =
      parse_devices fuel now lds (parse_nodes fuel now (logical_nodes ld) w)

  -- `scheduler_parseModel`
  unfoldable pub parse_model : (fuel now : ℕ) → World → World
  unfolding parse_devices
  parse_model fuel now w =
      let w' = parse_devices fuel now logical_devices w in
      initialize_controllers now w'.schedule_controllers w'

  -- The zeroed struct, with two empty lists and no storage.
  unfoldable pub empty_scheduler : World → World
  empty_scheduler w = record w {
    schedules = [];
    schedule_controllers = [];
    storage = none;
    target_value_handler = false;
  }

  -- `Scheduler_create`
  unfoldable pub scheduler_create : (fuel now : ℕ) → World → World
  unfolding parse_model empty_scheduler
  scheduler_create fuel now w = parse_model fuel now (empty_scheduler w)
