-- ===== src/Schedule/Create/Created.antt =====
-- The schedule that Schedule_create of schedule.c leaves, and what it does not change.
use der_scheduling.Prelude.{ℕ, ◌≡◌, refl, ◌∙◌, ap, true, false, arith, ◌==◌}
use der_scheduling.Platform.{Platform}
use der_scheduling.World.{World, Schedule, ScheduleState, set_schedule}
use der_scheduling.Schedule.State.{write_state, set_state, update_nxt_str_tm}
use der_scheduling.Schedule.Create.{
  is_schedule, new_schedule, install_handlers, opened, open_schedule, schedule_create,
}
use der_scheduling.Schedule.Create.Frame.{
  SameRest, SameRest-trans, handlers-SameRest, write_state-SameRest, time-SameRest, schedule-same,
  set_schedule_self, set_state-alone,
}

module _ ⦃lib : Platform⦄ where
  open lib use {HoldsInteger, Apart, get_int32, Node, get_child, get_children, node_name}

  -- All but the data model, the callbacks and the struct at `s` is as it was.
  pub record OnlyCreated (s : ℕ) (x : Schedule) (w w' : World) : Type 0 where
    pub struct_set : w'.schedule ≡ (set_schedule s x w).schedule
    pub controller_same : w'.controller ≡ w.controller
    pub schedules_same : w'.schedules ≡ w.schedules
    pub controllers_same : w'.schedule_controllers ≡ w.schedule_controllers
    pub storage_same : w'.storage ≡ w.storage
    pub files_same : w'.files ≡ w.files
    pub values_same : w'.target_values ≡ w.target_values
    pub faulted_same : w'.faulted ≡ w.faulted

  -- The worlds in which the struct is filled, the callbacks are installed, and the status is written.
  abbrev pub filled : ℕ → Node → World → World
  filled s ln w = set_schedule s (new_schedule ln) w

  abbrev pub written : (fuel now s : ℕ) → Node → World → World
  written fuel now s ln w =
      update_nxt_str_tm now s 0
        (set_state now s ScheduleState.not_ready (install_handlers fuel s (filled s ln w)))

  module _ (fuel now s : ℕ) (ln : Node) (w : World) where
    pub installed_struct : (install_handlers fuel s (filled s ln w)).schedule s ≡ new_schedule ln
    installed_struct =
        ap (λ (f : ℕ → Schedule). f s)
          (schedule-same (filled s ln w) _ (handlers-SameRest fuel s (filled s ln w)))
        ∙ set_schedule_self s (new_schedule ln) w

    pub written-alone :
        set_state now s ScheduleState.not_ready (install_handlers fuel s (filled s ln w))
        ≡ write_state now s ScheduleState.not_ready (install_handlers fuel s (filled s ln w))
    unfolding new_schedule
    written-alone =
        set_state-alone now s ScheduleState.not_ready _
          (ap (λ (x : Schedule). x.known_schedule_controllers) installed_struct)
          (ap (λ (x : Schedule). x.storage) installed_struct)

    written-SameRest : SameRest (filled s ln w) (written fuel now s ln w)
    written-SameRest =
        let u = install_handlers fuel s (filled s ln w) in
        let v = set_state now s ScheduleState.not_ready u in
        SameRest-trans (filled s ln w) u _ (handlers-SameRest fuel s (filled s ln w)) (
          SameRest-trans u v _
            (rw written-alone (write_state-SameRest now s ScheduleState.not_ready u))
            (time-SameRest now s 0 "NxtStrTm" v))

  ==_refl : (n : ℕ) → (n == n) ≡ true
  ==_refl n = ground arith

  opened_at :
      (s k : ℕ) (x : Schedule) (w : World)
      → (open_schedule s (set_schedule s x w)).schedule k ≡ (set_schedule s (opened x) w).schedule k
  unfolding open_schedule set_schedule
  opened_at s k x w = rw (==_refl s) ground arith

  opened-OnlyCreated :
      (s : ℕ) (x : Schedule) (w v : World)
      → SameRest (set_schedule s x w) v
      → OnlyCreated s (opened x) w (open_schedule s v)
  unfolding SameRest open_schedule set_schedule
  opened-OnlyCreated s x w v p = record {
    struct_set = ap (λ (u : World). (open_schedule s u).schedule) p ∙ λ i k. opened_at s k x w i;
    controller_same = ap (λ (u : World). u.controller) p;
    schedules_same = ap (λ (u : World). u.schedules) p;
    controllers_same = ap (λ (u : World). u.schedule_controllers) p;
    storage_same = ap (λ (u : World). u.storage) p;
    files_same = ap (λ (u : World). u.files) p;
    values_same = ap (λ (u : World). u.target_values) p;
    faulted_same = ap (λ (u : World). u.faulted) p;
  }

  -- Where a logical node has what a schedule must have, creation fills the struct at the new pointer,
  -- open to clients, with the thread alive, no controller and no storage, and beside it changes the
  -- data model and the callbacks alone.
  pub schedule_create-OnlyCreated :
      (fuel now s : ℕ) (ln : Node) (w : World)
      → is_schedule ln ≡ true
      → OnlyCreated s (opened (new_schedule ln)) w (schedule_create fuel now s ln w).0
  unfolding schedule_create
  schedule_create-OnlyCreated fuel now s ln w h = rw h (
      opened-OnlyCreated s (new_schedule ln) w (written fuel now s ln w)
        (written-SameRest fuel now s ln w))

  pub schedule_create-none :
      (fuel now s : ℕ) (ln : Node) (w : World)
      → is_schedule ln ≡ false
      → schedule_create fuel now s ln w ≡ (w, false)
  unfolding schedule_create
  schedule_create-none fuel now s ln w e = rw e refl

  pub schedule_create-some :
      (fuel now s : ℕ) (ln : Node) (w : World)
      → is_schedule ln ≡ true
      → schedule_create fuel now s ln w ≡ ((schedule_create fuel now s ln w).0, true)
  unfolding schedule_create
  schedule_create-some fuel now s ln w e = rw e refl
