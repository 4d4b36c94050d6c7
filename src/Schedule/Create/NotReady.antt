-- ===== src/Schedule/Create/NotReady.antt =====
-- The state in which Schedule_create of schedule.c leaves a schedule.
use der_scheduling.Prelude.{ℕ, ◌≡◌, refl, ◌∙◌, ap, sym, true, Option, none, some, String}
use der_scheduling.Platform.{Platform, quality, timestamp}
use der_scheduling.World.{
  World, Schedule, ScheduleState, set_schedule, update, update_at, state_value,
}
use der_scheduling.Schedule.Getters.{get_state, state_of_value, ln_child}
use der_scheduling.Schedule.State.{
  write_state, write_time, update_time_at, time_quality, set_state, update_time_status,
}
use der_scheduling.Schedule.State.Frame.{set_state-schedule}
use der_scheduling.Schedule.Create.{
  is_schedule, new_schedule, install_handlers, opened, open_schedule, schedule_create,
}
use der_scheduling.Schedule.Create.Frame.{set_schedule_self}
use der_scheduling.Schedule.Create.Created.{
  written, written-alone, installed_struct, filled, schedule_create-OnlyCreated,
}

module _ ⦃lib : Platform⦄ where
  open lib use {
    HoldsInteger, Apart, get_int32, Model, Node, get_int32-write_apart, get_int32-write_self,
    get_child, get_children, node_name,
  }

  write_time-get :
      (now start : ℕ) (a b c : Option Node) (w : World) (n : Node)
      → ((k : Node) → a ≡ some k → Apart k n)
      → ((k : Node) → b ≡ some k → Apart k n)
      → ((k : Node) → c ≡ some k → Apart k n)
      → get_int32 (write_time now start a b c w).model n ≡ get_int32 w.model n
  unfolding update
  write_time-get now start (some a) (some b) (some c) w n ha hb hc =
      get_int32-write_apart _ (timestamp 0 now) c n (hc c refl)
      ∙ get_int32-write_apart _ (quality (time_quality start)) b n (hb b refl)
      ∙ get_int32-write_apart w.model (timestamp 0 start) a n (ha a refl)
  write_time-get now start _ _ _ w n ha hb hc = refl

  time_at-get :
      (now start : ℕ) (o : Option Node) (w : World) (n : Node)
      → ((next k : Node) (name : String)
          → o ≡ some next
          → get_child (some next) name ≡ some k
          → Apart k n)
      → get_int32 (update_time_at now start o w).model n ≡ get_int32 w.model n
  time_at-get now start none w n h = refl
  time_at-get now start (some obj) w n h =
      write_time-get now start (get_child (some obj) "stVal") (get_child (some obj) "q")
        (get_child (some obj) "t") w n (λ k e. h obj k "stVal" refl e) (λ k e. h obj k "q" refl e)
        (λ k e. h obj k "t" refl e)

  state-get :
      (now s : ℕ) (state : ScheduleState) (w : World) (obj n : Node)
      → (w.schedule s).schd_st ≡ some obj
      → get_child (some obj) "stVal" ≡ some n
      → HoldsInteger n
      → get_int32 (write_state now s state w).model n ≡ state_value state
  unfolding write_state update_at update
  state-get now s state w obj n e f h = rw (e, f) (get_int32-write_self _ n (state_value state) h)

  get_state-stored :
      (s : ℕ) (obj n : Node) (w : World)
      → (w.schedule s).schd_st ≡ some obj
      → get_child (some obj) "stVal" ≡ some n
      → get_state w s ≡ state_of_value (get_int32 w.model n)
  unfolding get_state
  get_state-stored s obj n w e f = rw (e, f) refl

  created_status :
      (fuel now s : ℕ) (ln : Node) (w : World)
      → is_schedule ln ≡ true
      → ((schedule_create fuel now s ln w).0.schedule s).schd_st ≡ get_child (some ln) "SchdSt"
  unfolding opened new_schedule
  created_status fuel now s ln w h =
      ap (λ (f : ℕ → Schedule). (f s).schd_st)
        (schedule_create-OnlyCreated fuel now s ln w h).struct_set
      ∙ ap (λ (x : Schedule). x.schd_st) (set_schedule_self s (opened (new_schedule ln)) w)

  created_model :
      (fuel now s : ℕ) (ln : Node) (w : World)
      → is_schedule ln ≡ true
      → (schedule_create fuel now s ln w).0.model ≡ (written fuel now s ln w).model
  unfolding schedule_create open_schedule set_schedule
  created_model fuel now s ln w h = rw h refl

  -- A created schedule is NOT READY in the data model, where SchdSt holds an integer apart from the
  -- attributes of NxtStrTm.
  pub schedule_create-get_state :
      (fuel now s : ℕ) (ln obj n : Node) (w : World)
      → is_schedule ln ≡ true
      → get_child (some ln) "SchdSt" ≡ some obj
      → get_child (some obj) "stVal" ≡ some n
      → HoldsInteger n
      → ((next k : Node) (name : String)
          → get_child (some ln) "NxtStrTm" ≡ some next
          → get_child (some next) name ≡ some k
          → Apart k n)
      → get_state (schedule_create fuel now s ln w).0 s ≡ ScheduleState.not_ready
  unfolding new_schedule update_time_status
  schedule_create-get_state fuel now s ln obj n w h st val int apart =
      let u = install_handlers fuel s (filled s ln w) in
      let v = set_state now s ScheduleState.not_ready u in
      let at_u = installed_struct fuel now s ln w in
      let at_v =
        ap (λ (f : ℕ → Schedule). f s) (set_state-schedule now s ScheduleState.not_ready u)
        ∙ at_u in
      get_state-stored s obj n _ (created_status fuel now s ln w h ∙ st) val
      ∙ ap state_of_value (
          ap (λ (m : Model). get_int32 m n) (created_model fuel now s ln w h)
          ∙ time_at-get now 0 (ln_child v s "NxtStrTm") v n (λ next k name e f.
            apart next k name
              (sym (ap (λ (x : Schedule). get_child (some x.schedule_ln) "NxtStrTm") at_v) ∙ e) f)
          ∙ ap (λ (x : World). get_int32 x.model n) (written-alone fuel now s ln w)
          ∙ state-get now s ScheduleState.not_ready u obj n
              (ap (λ (x : Schedule). x.schd_st) at_u ∙ st) val int)
