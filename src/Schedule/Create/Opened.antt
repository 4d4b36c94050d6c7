-- ===== src/Schedule/Create/Opened.antt =====
-- What a client and a schedule controller find in a schedule that Schedule_create of schedule.c has
-- made.
use der_scheduling.Prelude.{ℕ, ◌≡◌, refl, ◌∙◌, ap, true, none, [], some}
use der_scheduling.Platform.{Platform}
use der_scheduling.World.{World, Schedule}
use der_scheduling.Schedule.Create.{is_schedule, new_schedule, opened, schedule_create}
use der_scheduling.Schedule.Create.Frame.{set_schedule_self}
use der_scheduling.Schedule.Create.Created.{OnlyCreated, schedule_create-OnlyCreated}

module _ ⦃lib : Platform⦄ where
  open lib use {Node, get_child}

  -- The schedule of a logical node is new: open to clients in each setting, with its thread alive, known
  -- to no controller, with no storage, no start time known and none taken over, and with the objects
  -- of its logical node.
  pub record IsNew (ln : Node) (x : Schedule) : Type 0 where
    pub node : x.schedule_ln ≡ ln
    pub thread_alive : x.alive ≡ true
    pub remote_control : x.allow_remote_control ≡ true
    pub prio_open : x.allow_write_to_schd_prio ≡ true
    pub str_tm_open : x.allow_write_to_str_tm ≡ true
    pub reuse_open : x.allow_write_to_schd_reuse ≡ true
    pub intv_open : x.allow_write_to_schd_intv ≡ true
    pub no_controller : x.known_schedule_controllers ≡ []
    pub no_storage : x.storage ≡ none
    pub no_next : x.next_start_time ≡ 0
    pub no_start : x.start_time ≡ 0
    pub status : x.schd_st ≡ get_child (some ln) "SchdSt"
    pub enabling : x.ena_req ≡ get_child (some ln) "EnaReq"
    pub disabling : x.dsa_req ≡ get_child (some ln) "DsaReq"
    pub trigger : x.ev_trg ≡ get_child (some ln) "EvTrg"

  opened-IsNew : (ln : Node) → IsNew ln (opened (new_schedule ln))
  unfolding opened new_schedule
  opened-IsNew ln = record {
    node = refl;
    thread_alive = refl;
    remote_control = refl;
    prio_open = refl;
    str_tm_open = refl;
    reuse_open = refl;
    intv_open = refl;
    no_controller = refl;
    no_storage = refl;
    no_next = refl;
    no_start = refl;
    status = refl;
    enabling = refl;
    disabling = refl;
    trigger = refl;
  }

  -- Where a logical node has what a schedule must have, creation leaves a new schedule at the new
  -- pointer: open to clients, with the thread alive, no controller, no storage and no start time, and
  -- with the objects of the node. Beside it, creation changes the data model and the callbacks alone.
  pub schedule_create-IsNew :
      (fuel now s : ℕ) (ln : Node) (w : World)
      → is_schedule ln ≡ true
      → let u = (schedule_create fuel now s ln w).0 in
        IsNew ln (u.schedule s) × OnlyCreated s (u.schedule s) w u
  schedule_create-IsNew fuel now s ln w h =
      let only = schedule_create-OnlyCreated fuel now s ln w h in
      let e =
        ap (λ (f : ℕ → Schedule). f s) only.struct_set
        ∙ set_schedule_self s (opened (new_schedule ln)) w in
      (rw e (opened-IsNew ln), rw e only)
