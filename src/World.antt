-- ===== src/World.antt =====
-- The structs of src/scheduler/der_scheduler_internal.h and the state that the program works on.
-- A struct is reached by its pointer, a number; the stores `schedule` and `controller` hold them.
use der_scheduling.Prelude.{ℕ, Bool, Option, List, [], ◌∷◌, ◌++◌, String, ◌==◌, if◌then◌else◌}
use der_scheduling.Prelude.Int.{ℤ, pos}
use der_scheduling.Platform.{Platform, Quality, Write}

pub data ScheduleState : Type 0 where
  invalid not_ready start_time_required ready running : ScheduleState

abbrev pub state_value : ScheduleState → ℤ
state_value ScheduleState.invalid = pos 0
state_value ScheduleState.not_ready = pos 1
state_value ScheduleState.start_time_required = pos 2
state_value ScheduleState.ready = pos 3
state_value ScheduleState.running = pos 4

pub data ScheduleEnablingError : Type 0 where
  none missing_valid_numentr missing_valid_schdintv missing_valid_schedule_values :
      ScheduleEnablingError
  unconsistent_values_cdc missing_valid_strtm other : ScheduleEnablingError

abbrev pub error_value : ScheduleEnablingError → ℤ
error_value ScheduleEnablingError.none = pos 1
error_value ScheduleEnablingError.missing_valid_numentr = pos 2
error_value ScheduleEnablingError.missing_valid_schdintv = pos 3
error_value ScheduleEnablingError.missing_valid_schedule_values = pos 4
error_value ScheduleEnablingError.unconsistent_values_cdc = pos 5
error_value ScheduleEnablingError.missing_valid_strtm = pos 6
error_value ScheduleEnablingError.other = pos 99

pub data TargetType : Type 0 where
  unknown ins sps ens mv : TargetType

-- The results of the write handlers, `MmsDataAccessError`.
pub data DataAccessError : Type 0 where
  success_no_update object_access_denied object_value_invalid : DataAccessError

-- The callbacks that the program installs in the server.
pub data Handler : Type 0 where
  handle_schd_prio handle_schd_reuse handle_schd_intv handle_num_entr : Handler
  handle_str_tm handle_str_tm_set_cal handle_schd_value : Handler
  handle_check handle_control handle_schd_src_ref handle_ctl_ent : Handler

module _ ⦃lib : Platform⦄ where
  open lib use {Node, Value, Model, Text}

  -- An installed callback: the attribute or object, which may be NULL, and the struct's pointer.
  pub record Installed : Type 0 where
    pub node : Option Node
    pub handler : Handler
    pub owner : ℕ

  -- `struct sSchedule`, less the fields that hold the server, the model and the thread itself.
  pub record Schedule : Type 0 where
    pub schedule_ln : Node
    pub target_type : TargetType
    pub storage : Option String
    pub ena_req : Option Node
    pub dsa_req : Option Node
    pub schd_st : Option Node
    pub val : Option Node
    pub ev_trg : Option Node
    pub next_start_time : ℕ
    pub reuse : Bool
    pub start_time : ℕ
    pub entry_duration_in_ms : ℤ
    pub number_of_schedule_entries : ℤ
    pub current_entry_idx : ℤ
    pub alive : Bool
    pub allow_remote_control : Bool
    pub allow_write_to_schd_prio : Bool
    pub allow_write_to_str_tm : Bool
    pub allow_write_to_schd_reuse : Bool
    pub allow_write_to_schd_intv : Bool
    pub is_time_triggered : Bool
    pub is_periodic : Bool
    pub known_schedule_controllers : List ℕ

  -- `struct sScheduleController`
  pub record Controller : Type 0 where
    pub active_schedule : Option ℕ
    pub schedules : List ℕ
    pub storage : Option String
    pub controller_ln : Node
    pub control_entity : Option Node

  -- A call of the handler that the user of the scheduler has set for target values.
  pub record TargetValue : Type 0 where
    pub object_ref : String
    pub value : Option Value
    pub quality : Quality
    pub timestamp : ℕ

  -- `struct sScheduler`, the two stores, the data model, the files, the callbacks in the server and
  -- the calls of the handler, each oldest first. `faulted` is set when the code follows a NULL pointer or divides by zero: the
  -- process is then gone, and what the model computes further means nothing.
  pub record World : Type 0 where
    pub model : Model
    pub schedule : ℕ → Schedule
    pub controller : ℕ → Controller
    pub schedules : List ℕ
    pub schedule_controllers : List ℕ
    pub storage : Option String
    pub target_value_handler : Bool
    pub target_values : List TargetValue
    pub files : String → Option Text
    pub handlers : List Installed
    pub faulted : Bool

  -- A field of the struct at `s` is assigned.
  unfoldable pub set_schedule : ℕ → Schedule → World → World
  set_schedule s x w = record w { schedule = λ k. if s == k then x else w.schedule k }

  unfoldable pub set_controller : ℕ → Controller → World → World
  set_controller c x w = record w { controller = λ k. if c == k then x else w.controller k }

  -- `IedServer_update...` at a node, and at a node that may be missing.
  unfoldable pub update : Write Value → Node → World → World
  update u n w = record w { model = lib.write u n w.model }

  unfoldable pub update_at : Write Value → Option Node → World → World
  unfolding update
  update_at u Option.none w = w
  update_at u (Option.some n) w = update u n w

  -- `IedServer_handleWriteAccess` and the like.
  unfoldable pub install : Handler → ℕ → Option Node → World → World
  install h owner n w = record w {
    handlers = w.handlers ++ (record { node = n; handler = h; owner = owner } ∷ []);
  }
