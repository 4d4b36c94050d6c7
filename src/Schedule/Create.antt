-- ===== src/Schedule/Create.antt =====
-- Schedule_create of schedule.c: what a logical node must have, the struct, and the callbacks that
-- are installed in the server. Memory suffices, and the thread that is started takes its steps in
-- schedule_thread.
pub mod Callbacks
pub mod Frame
pub mod Created
pub mod Opened
pub mod NotReady
use der_scheduling.Prelude.{
  ℕ, zero, suc, ◌+◌, Bool, true, false, ◌&&◌, Option, none, some, List, [], ◌∷◌, String,
  if◌then◌else◌,
}
use der_scheduling.Prelude.Int.{pos}
use der_scheduling.Platform.{Platform}
use der_scheduling.World.{
  World, Schedule, ScheduleState, TargetType, set_schedule, install, handle_schd_prio,
  handle_schd_reuse, handle_schd_intv, handle_num_entr, handle_str_tm, handle_str_tm_set_cal,
  handle_schd_value, handle_check, handle_control, Handler,
}
use der_scheduling.Schedule.Getters.{ln_child}
use der_scheduling.Schedule.StartTimes.{check_if_str_tm, check_if_time_triggered_and_periodic}
use der_scheduling.Schedule.State.{set_state, update_nxt_str_tm}
use der_scheduling.Schedule.Values.{get_schedule_value_attribute}

module _ ⦃lib : Platform⦄ where
  open lib use {Node, get_child, get_children, node_name}

  abbrev pub is_there {ℓ} : {A : Type ℓ} → Option A → Bool
  is_there none = false
  is_there (some a) = true

  -- The test of DsaReq looks at EnaReq once more.
  unfoldable pub is_schedule : Node → Bool
  is_schedule ln =
      is_there (get_child (some ln) "SchdSt")
      && is_there (get_child (some ln) "NxtStrTm")
      && is_there (get_child (some ln) "SchdPrio.setVal")
      && is_there (get_child (some ln) "EnaReq")

  abbrev later_type : Node → String → TargetType → TargetType → TargetType
  later_type ln name found before = if is_there (get_child (some ln) name) then found else before

  -- The last of the four objects that is there decides.
  unfoldable pub target_type_of : Node → TargetType
  target_type_of ln = later_type ln "ValENS" TargetType.ens (
      later_type ln "ValSPS" TargetType.sps (
        later_type ln "ValINS" TargetType.ins
          (later_type ln "ValMV" TargetType.mv TargetType.unknown)))

  -- The struct, zeroed and filled, as it is while the callbacks are installed.
  unfoldable pub new_schedule : Node → Schedule
  unfolding target_type_of
  new_schedule ln =
      let kind = check_if_time_triggered_and_periodic (get_children ln) false in
      record {
        schedule_ln = ln;
        target_type = target_type_of ln;
        storage = none;
        ena_req = get_child (some ln) "EnaReq";
        dsa_req = get_child (some ln) "DsaReq";
        schd_st = get_child (some ln) "SchdSt";
        val = get_child (some ln) "ValENS";
        ev_trg = get_child (some ln) "EvTrg";
        next_start_time = 0;
        reuse = false;
        start_time = 0;
        entry_duration_in_ms = pos 0;
        number_of_schedule_entries = pos 0;
        current_entry_idx = pos 0;
        alive = false;
        allow_remote_control = false;
        allow_write_to_schd_prio = false;
        allow_write_to_str_tm = false;
        allow_write_to_schd_reuse = false;
        allow_write_to_schd_intv = false;
        is_time_triggered = kind.0;
        is_periodic = kind.1;
        known_schedule_controllers = [];
      }

  abbrev pub install_at : Handler → ℕ → Option Node → World → World
  install_at h s none w = w
  install_at h s (some n) w = install h s (some n) w

  abbrev pub install_start_time : ℕ → Node → World → World
  install_start_time s n w =
      if check_if_str_tm (node_name n)
      then install_at handle_str_tm_set_cal s (get_child (some n) "setCal")
          (install_at handle_str_tm s (get_child (some n) "setTm") w)
      else w

  -- `schedule_installWriteAccessHandlersForStrTm`
  unfoldable pub install_start_times : ℕ → List Node → World → World
  install_start_times s [] w = w
  install_start_times s (n ∷ ns) w = install_start_times s ns (install_start_time s n w)

  -- `schedule_installWriteAccessHandlersForValues`: from `idx` on, until an entry is missing.
  unfoldable pub install_values : (fuel s idx : ℕ) → World → World
  install_values zero s idx w = w
  install_values (suc fuel) s idx w = elim (get_schedule_value_attribute w s (pos idx)) [
    | none ↦ w
    | some da ↦ install_values fuel s (idx + 1) (install handle_schd_value s (some da) w)
  ]

  -- DsaReq and EnaReq are handed to the server as they are.
  abbrev pub install_settings : ℕ → World → World
  install_settings s w = install_at handle_num_entr s (ln_child w s "NumEntr.setVal") (
      install_at handle_schd_intv s (ln_child w s "SchdIntv.setVal") (
        install_at handle_schd_reuse s (ln_child w s "SchdReuse.setVal")
          (install handle_schd_prio s (ln_child w s "SchdPrio.setVal") w)))

  abbrev pub install_controls : ℕ → World → World
  install_controls s w =
      let x = w.schedule s in
      install handle_control s x.ena_req (
        install handle_control s x.dsa_req
          (install handle_check s x.ena_req (install handle_check s x.dsa_req w)))

  unfoldable pub install_handlers : (fuel s : ℕ) → World → World
  unfolding install_start_times install_values
  install_handlers fuel s w =
      let w1 =
        install_start_times s (get_children (w.schedule s).schedule_ln) (install_settings s w) in
      install_controls s (install_values fuel s 1 w1)

  -- The thread is created, and the schedule is open to clients.
  unfoldable pub opened : Schedule → Schedule
  opened x = record x {
    alive = true;
    allow_remote_control = true;
    allow_write_to_schd_prio = true;
    allow_write_to_str_tm = true;
    allow_write_to_schd_reuse = true;
    allow_write_to_schd_intv = true;
  }

  unfoldable pub open_schedule : ℕ → World → World
  unfolding opened
  open_schedule s w = set_schedule s (opened (w.schedule s)) w

  -- `Schedule_create`, of a logical node and the pointer `s` that the allocation gives: whether there
  -- is a schedule.
  unfoldable pub schedule_create : (fuel now s : ℕ) → Node → World → World × Bool
  unfolding is_schedule new_schedule install_handlers open_schedule
  schedule_create fuel now s ln w =
      if is_schedule ln
      then (
        open_schedule s (
            update_nxt_str_tm now s 0 (
              set_state now s ScheduleState.not_ready
                (install_handlers fuel s (set_schedule s (new_schedule ln) w)))),
        true,
      )
      else (w, false)
