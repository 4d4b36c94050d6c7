-- ===== src/Examples/Plant.antt =====
-- Two schedules of measured values, two entries of a second each, and a controller that follows them.
use der_scheduling.Prelude.{ℕ, ◌%◌, true, false, Option, none, some, [], ◌∷◌, ◌==◌, if◌then◌else◌}
use der_scheduling.Prelude.Int.{ℤ, pos, negsuc}
use der_scheduling.World.{World, Schedule, TargetType}
use der_scheduling.Examples.Toy.{ToyValue, integer, number, time, toy}

-- The state, the priority and the start time of the schedule at a base node.
abbrev settings : (state prio start n : ℕ) → Option ToyValue
settings state prio start n =
    if n == 2
    then some (integer (pos state))
    else if n == 4
    then some (integer (pos prio))
    else if n == 5
    then some (integer (pos 2))
    else if n == 6
    then some (integer (pos 1))
    else if n == 8
    then some (time start)
    else if n == 10
    then some (number 11)
    else if n == 12
    then some (number 22)
    else if n == 14
    then some (number 0)
    else none

abbrev pub plant_schedule : (ln start : ℕ) (current : ℤ) → Schedule
plant_schedule ln start current = record {
  schedule_ln = ln;
  target_type = TargetType.mv;
  storage = none;
  ena_req = some 30;
  dsa_req = some 31;
  schd_st = some (if ln == 0 then 1 else 101);
  val = none;
  ev_trg = none;
  next_start_time = 0;
  reuse = false;
  start_time = start;
  entry_duration_in_ms = pos 1000;
  number_of_schedule_entries = pos 2;
  current_entry_idx = current;
  alive = true;
  allow_remote_control = true;
  allow_write_to_schd_prio = true;
  allow_write_to_str_tm = true;
  allow_write_to_schd_reuse = false;
  allow_write_to_schd_intv = false;
  is_time_triggered = true;
  is_periodic = false;
  known_schedule_controllers = 0 ∷ [];
}

-- The first schedule is in state `st0`, the second in state `st1`; both started at 5000, and have
-- 9000 as their next start time in the data model.
abbrev pub plant : (st0 st1 next : ℕ) → World
plant st0 st1 next = record {
  model = λ n.
      if n == 116
      then none
      else if n == 102
      then some (integer (pos st1))
      else if n == 104
      then some (integer (pos 20))
      else settings st0 10 9000 (n % 100);
  schedule = λ s. record (plant_schedule (if s == 0 then 0 else 100) 5000 (negsuc 1)) {
    next_start_time = next;
  };
  controller = λ c. record {
    active_schedule = some 0;
    schedules = 0 ∷ 1 ∷ [];
    storage = none;
    controller_ln = 900;
    control_entity = some 14;
  };
  schedules = 0 ∷ 1 ∷ [];
  schedule_controllers = 0 ∷ [];
  storage = none;
  target_value_handler = true;
  target_values = [];
  files = λ name. none;
  handlers = [];
  faulted = false;
}
