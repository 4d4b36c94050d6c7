-- ===== src/Example.antt =====
-- examples/scheduler_example1.c: a program that uses the scheduler. Its handler of target values fills
-- a queue, from which a worker thread runs a command for each, and its main function sets the
-- fallback schedules up.
pub mod Output
pub mod Setup
use Prim.Native.String.{◌++◌ as concat, slice}
use der_scheduling.Prelude.{ℕ, true, false, Option, none, some, List, [], ◌∷◌, ◌++◌, String}
use der_scheduling.Platform.{Platform}
use der_scheduling.World.{World, TargetValue}
use der_scheduling.Scheduler.{
  ScheduleParameter, scheduler_enable_schedule_control, scheduler_enable_schedule,
  scheduler_enable_write_access_to_parameter,
}
use der_scheduling.Scheduler.Create.{scheduler_create}
use der_scheduling.Scheduler.Database.{initialize_storage, set_target_value_handler}

pub record OutputData : Type 0 where
  pub target_obj_ref : String
  pub target_value : String

-- The queue, and the commands that `system` was called with, oldest first.
pub record Outputs : Type 0 where
  pub queue : List OutputData
  pub commands : List String

abbrev pub no_outputs : Outputs
no_outputs = record { queue = []; commands = [] }

-- The text that `snprintf` leaves in a buffer of 499 bytes.
unfoldable pub command : OutputData → String
command d =
    slice (concat "./set_output.sh " (concat d.target_obj_ref (concat " " d.target_value))) 0 498

-- One round of the loop of `outputWorkerThread`: the first element leaves the queue.
abbrev pub work_on : List OutputData → Outputs → Outputs
work_on [] o = o
work_on (d ∷ ds) o = record { queue = ds; commands = o.commands ++ (command d ∷ []) }

unfoldable pub output_worker_round : Outputs → Outputs
output_worker_round o = work_on o.queue o

module _ ⦃lib : Platform⦄ where
  open lib use {Value, print_to_buffer}

  abbrev pub output_data : String → Value → OutputData
  output_data ref v = record { target_obj_ref = ref; target_value = print_to_buffer v 200 }

  abbrev pub enqueue : String → Option Value → Outputs → Outputs
  enqueue ref none o = o
  enqueue ref (some v) o = record o { queue = o.queue ++ (output_data ref v ∷ []) }

  -- `scheduler_TargetValueChanged`: a call with no value is left out.
  unfoldable pub example_target_value_changed : TargetValue → Outputs → Outputs
  example_target_value_changed t o = enqueue t.object_ref t.value o

  -- The fallback schedules of `main`.
  abbrev pub actpow_ref : String
  actpow_ref = "@Control/ActPow_Res_FSCH01"

  abbrev pub maxpow_ref : String
  maxpow_ref = "@Control/MaxPow_Res_FSCH01"

  abbrev pub onoff_ref : String
  onoff_ref = "@Control/OnOff_Res_FSCH01"

  abbrev pub close_control : String → World → World
  close_control ref w = scheduler_enable_schedule_control ref false w

  abbrev pub close_parameters : String → World → World
  close_parameters ref w =
      scheduler_enable_write_access_to_parameter ref ScheduleParameter.schd_prio false
        (scheduler_enable_write_access_to_parameter ref ScheduleParameter.str_tm false w)

  abbrev pub enable_fallback : ℕ → String → World → World
  enable_fallback now ref w = (scheduler_enable_schedule now ref true w).0

  -- The calls of `main` between the creation of the scheduler and the start of the server.
  unfoldable pub setup : ℕ → World → World
  setup now w =
      let w1 = set_target_value_handler true w in
      let w2 = close_control onoff_ref (close_control maxpow_ref (close_control actpow_ref w1)) in
      let w3 =
        close_parameters onoff_ref (close_parameters maxpow_ref (close_parameters actpow_ref w2)) in
      let w4 =
        enable_fallback now onoff_ref
          (enable_fallback now maxpow_ref (enable_fallback now actpow_ref w3)) in
      initialize_storage now "scheduler-db.json" w4

  unfoldable pub example_main : (fuel now : ℕ) → World → World
  unfolding setup
  example_main fuel now w = setup now (scheduler_create fuel now w)
