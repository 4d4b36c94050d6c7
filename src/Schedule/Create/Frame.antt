-- ===== src/Schedule/Create/Frame.antt =====
-- What the steps of Schedule_create of schedule.c leave as it was.
use der_scheduling.Prelude.{
  ℕ, zero, suc, ◌+◌, ◌≡◌, refl, ◌∙◌, ap, Option, none, some, List, [], ◌∷◌, String, arith,
}
use der_scheduling.Prelude.Int.{pos}
use der_scheduling.Platform.{Platform}
use der_scheduling.World.{
  World, Schedule, ScheduleState, Handler, handle_schd_value, handle_str_tm, handle_str_tm_set_cal,
  install, set_schedule, update_at,
}
use der_scheduling.Storage.Save.{save_if_stored}
use der_scheduling.Schedule.Values.{get_schedule_value_attribute}
use der_scheduling.Schedule.State.{write_state, notify_state, set_state, update_time_status}
use der_scheduling.Schedule.State.Frame.{write_state-schedule}
use der_scheduling.Schedule.Create.{
  install_at, install_start_time, install_start_times, install_values, install_settings,
  install_controls, install_handlers,
}

module _ ⦃lib : Platform⦄ where
  open lib use {Node, get_child, get_children, node_name}

  -- The data model and the callbacks alone differ.
  unfoldable pub SameRest : World → World → Type 0
  SameRest w w' = w' ≡ record w { model = w'.model; handlers = w'.handlers }

  pub SameRest-trans : (u v w : World) → SameRest u v → SameRest v w → SameRest u w
  unfolding SameRest
  SameRest-trans u v w p q =
      q ∙ ap (λ (x : World). record x { model = w.model; handlers = w.handlers }) p

  same_refl : (w : World) → SameRest w w
  unfolding SameRest
  same_refl w = refl

  install-SameRest :
      (h : Handler) (owner : ℕ) (n : Option Node) (w : World) → SameRest w (install h owner n w)
  unfolding SameRest install
  install-SameRest h owner n w = refl

  install_at-SameRest :
      (h : Handler) (s : ℕ) (n : Option Node) (w : World) → SameRest w (install_at h s n w)
  unfolding SameRest
  install_at-SameRest h s none w = refl
  install_at-SameRest h s (some n) w = install-SameRest h s (some n) w

  settings-SameRest : (s : ℕ) (w : World) → SameRest w (install_settings s w)
  unfolding SameRest install
  settings-SameRest s w = ground arith

  start_time-SameRest : (s : ℕ) (n : Node) (w : World) → SameRest w (install_start_time s n w)
  start_time-SameRest s n w = ground (
    arith,
    same_refl w,
    SameRest-trans w (install_at handle_str_tm s (get_child (some n) "setTm") w) _
        (install_at-SameRest handle_str_tm s (get_child (some n) "setTm") w)
        (install_at-SameRest handle_str_tm_set_cal s (get_child (some n) "setCal") _),
  )

  start_times-SameRest :
      (s : ℕ) (ns : List Node) (w : World) → SameRest w (install_start_times s ns w)
  unfolding install_start_times
  start_times-SameRest s [] w = same_refl w
  start_times-SameRest s (n ∷ ns) w =
      SameRest-trans w (install_start_time s n w) _ (start_time-SameRest s n w)
        (start_times-SameRest s ns (install_start_time s n w))

  next-SameRest :
      (w : World) (f : Node → World) (o : Option Node)
      → ((da : Node) → SameRest w (f da))
      → SameRest w (elim o [ none ↦ w | some da ↦ f da ])
  next-SameRest w f none h = same_refl w
  next-SameRest w f (some da) h = h da

  values-SameRest : (fuel s idx : ℕ) (w : World) → SameRest w (install_values fuel s idx w)
  unfolding install_values
  values-SameRest zero s idx w = same_refl w
  values-SameRest (suc fuel) s idx w =
      next-SameRest w
        (λ da. install_values fuel s (idx + 1) (install handle_schd_value s (some da) w))
        (get_schedule_value_attribute w s (pos idx))
        (λ da.
          SameRest-trans w (install handle_schd_value s (some da) w) _
            (install-SameRest handle_schd_value s (some da) w) (values-SameRest fuel s (idx + 1) _))

  controls-SameRest : (s : ℕ) (w : World) → SameRest w (install_controls s w)
  unfolding SameRest install
  controls-SameRest s w = ground arith

  pub handlers-SameRest : (fuel s : ℕ) (w : World) → SameRest w (install_handlers fuel s w)
  unfolding install_handlers
  handlers-SameRest fuel s w =
      let w1 = install_settings s w in
      let w2 = install_start_times s (get_children (w.schedule s).schedule_ln) w1 in
      let w3 = install_values fuel s 1 w2 in
      SameRest-trans w w1 _ (settings-SameRest s w) (
        SameRest-trans w1 w2 _ (start_times-SameRest s (get_children (w.schedule s).schedule_ln) w1)
          (SameRest-trans w2 w3 _ (values-SameRest fuel s 1 w2) (controls-SameRest s w3)))

  pub write_state-SameRest :
      (now s : ℕ) (state : ScheduleState) (w : World) → SameRest w (write_state now s state w)
  unfolding SameRest write_state update_at
  write_state-SameRest now s state w = ground arith

  save_alone : (s : ℕ) (w : World) → (w.schedule s).storage ≡ none → save_if_stored s w ≡ w
  unfolding save_if_stored
  save_alone s w e = rw e refl

  notify_alone :
      (now s : ℕ) (w : World)
      → (w.schedule s).known_schedule_controllers ≡ []
      → notify_state now (w.schedule s).known_schedule_controllers w ≡ w
  unfolding notify_state
  notify_alone now s w e = rw e refl

  -- A schedule with no controller and no storage only writes its state.
  pub set_state-alone :
      (now s : ℕ) (state : ScheduleState) (w : World)
      → (w.schedule s).known_schedule_controllers ≡ []
      → (w.schedule s).storage ≡ none
      → set_state now s state w ≡ write_state now s state w
  unfolding set_state
  set_state-alone now s state w k e =
      let u = write_state now s state w in
      let same = write_state-schedule now s state w in
      let saved = save_alone s u (ap (λ (f : ℕ → Schedule). (f s).storage) same ∙ e) in
      ap (λ (v : World). notify_state now (v.schedule s).known_schedule_controllers v) saved
      ∙ notify_alone now s u (ap (λ (f : ℕ → Schedule). (f s).known_schedule_controllers) same ∙ k)

  pub time-SameRest :
      (now s start : ℕ) (name : String) (w : World)
      → SameRest w (update_time_status now s start name w)
  unfolding SameRest update_time_status update_at
  time-SameRest now s start name w = ground arith

  pub schedule-same : (w w' : World) → SameRest w w' → w'.schedule ≡ w.schedule
  unfolding SameRest
  schedule-same w w' p = ap (λ (u : World). u.schedule) p

  pub set_schedule_self : (s : ℕ) (x : Schedule) (w : World) → (set_schedule s x w).schedule s ≡ x
  unfolding set_schedule
  set_schedule_self s x w = ground arith
