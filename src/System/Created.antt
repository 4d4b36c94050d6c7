-- ===== src/System/Created.antt =====
-- How schedules and controllers know each other when Scheduler_create has returned.
use der_scheduling.Prelude.{
  ℕ, ◌≡◌, refl, ap, ◌∙◌, inl, inr, Bool, true, false, Option, none, some, List, [], ◌∷◌, arith,
  Bool-cases, length,
}
use der_scheduling.Platform.{Platform}
use der_scheduling.World.{World, Controller, set_controller}
use der_scheduling.Controller.Notify.Active.{active}
use der_scheduling.Controller.References.{contains}
use der_scheduling.Schedule.Create.{is_schedule, schedule_create}
use der_scheduling.Schedule.Create.Created.{schedule_create-OnlyCreated, schedule_create-none}
use der_scheduling.Scheduler.Create.{
  add_controller, parse_controller, add_schedule, parse_schedule, parse_nodes, parse_devices,
  parse_model, empty_scheduler, scheduler_create,
}
use der_scheduling.System.Keeps.{listed}
use der_scheduling.System.WellFormed.{IsWellFormed, NoDup}
use der_scheduling.System.Initial.{Linked, Linked-IsWellFormed, initialize_controllers-Linked}

module _ ⦃lib : Platform⦄ where
  open lib use {Node, logical_devices, logical_nodes}

  -- No controller lists a schedule or has an active one.
  pub record Unlinked (w : World) : Type 0 where
    pub none_listed : (c : ℕ) → listed w c ≡ []
    pub none_active : (c : ℕ) → active w c ≡ none

  no_member : (s : ℕ) {xs : List ℕ} → xs ≡ [] → contains s xs ≡ true → ⊥
  unfolding contains
  no_member s e h = absurd (ground (arith, e, h))

  no_active : {o : Option ℕ} {s : ℕ} → o ≡ none → o ≡ some s → ⊥
  no_active e a = absurd cc

  Unlinked-Linked : {w : World} → Unlinked w → Linked w
  Unlinked-Linked h = record {
    listed_known = λ c s l. absurd (no_member s (h.none_listed c) l);
    active_known = λ c s a. absurd (no_active (h.none_active c) a);
  }

  same_controllers-Unlinked :
      (w w' : World) → w'.controller ≡ w.controller → Unlinked w → Unlinked w'
  same_controllers-Unlinked w w' e h = record {
    none_listed = λ c. ap (λ (f : ℕ → Controller). (f c).schedules) e ∙ h.none_listed c;
    none_active = λ c. ap (λ (f : ℕ → Controller). (f c).active_schedule) e ∙ h.none_active c;
  }

  add_controller-Unlinked : (ln : Node) (w : World) → Unlinked w → Unlinked (add_controller ln w)
  unfolding add_controller set_controller
  add_controller-Unlinked ln w h = record {
    none_listed = λ c. ground (arith, h.none_listed c);
    none_active = λ c. ground (arith, h.none_active c);
  }

  controller-Unlinked : (ln : Node) (w : World) → Unlinked w → Unlinked (parse_controller ln w)
  unfolding parse_controller
  controller-Unlinked ln w h = ground (arith, h, add_controller-Unlinked ln w h)

  create-controller :
      (fuel now s : ℕ) (ln : Node) (w : World)
      → (schedule_create fuel now s ln w).0.controller ≡ w.controller
  create-controller fuel now s ln w = elim (Bool-cases (is_schedule ln)) [
    | inl e ↦ (schedule_create-OnlyCreated fuel now s ln w e).controller_same
    | inr e ↦ ap (λ (p : World × Bool). p.0.controller) (schedule_create-none fuel now s ln w e)
  ]

  added-controller : (s : ℕ) (p : World × Bool) → (add_schedule s p).controller ≡ p.0.controller
  added-controller s (w, true) = refl
  added-controller s (w, false) = refl

  schedule-Unlinked :
      (fuel now : ℕ) (ln : Node) (w : World) → Unlinked w → Unlinked (parse_schedule fuel now ln w)
  unfolding parse_schedule
  schedule-Unlinked fuel now ln w h =
      let s = length w.schedules in
      ground (
        arith,
        h,
        same_controllers-Unlinked w (add_schedule s (schedule_create fuel now s ln w))
            (added-controller s (schedule_create fuel now s ln w)
              ∙ create-controller fuel now s ln w)
            h,
      )

  nodes-Unlinked :
      (fuel now : ℕ) (lns : List Node) (w : World)
      → Unlinked w
      → Unlinked (parse_nodes fuel now lns w)
  unfolding parse_nodes
  nodes-Unlinked fuel now [] w h = h
  nodes-Unlinked fuel now (ln ∷ lns) w h =
      nodes-Unlinked fuel now lns _
        (schedule-Unlinked fuel now ln (parse_controller ln w) (controller-Unlinked ln w h))

  devices-Unlinked :
      (fuel now : ℕ) (lds : List Node) (w : World)
      → Unlinked w
      → Unlinked (parse_devices fuel now lds w)
  unfolding parse_devices
  devices-Unlinked fuel now [] w h = h
  devices-Unlinked fuel now (ld ∷ lds) w h =
      devices-Unlinked fuel now lds _ (nodes-Unlinked fuel now (logical_nodes ld) w h)

  -- When the scheduler has been created, every schedule knows each controller that lists it or has it
  -- as its active schedule, if no struct had an entry in a list or an active schedule before.
  pub scheduler_create-Linked :
      (fuel now : ℕ) (w : World) → Unlinked w → Linked (scheduler_create fuel now w)
  unfolding scheduler_create parse_model empty_scheduler
  scheduler_create-Linked fuel now w h =
      let w' = parse_devices fuel now logical_devices (empty_scheduler w) in
      initialize_controllers-Linked now w'.schedule_controllers w' (
        Unlinked-Linked (
          devices-Unlinked fuel now logical_devices (empty_scheduler w)
            (same_controllers-Unlinked w (empty_scheduler w) refl h)))

  -- The lists are then well-formed, if no controller's data model refers to a schedule twice.
  scheduler_create-IsWellFormed :
      (fuel now : ℕ) (w : World)
      → Unlinked w
      → ((c : ℕ) → NoDup (listed (scheduler_create fuel now w) c))
      → IsWellFormed (scheduler_create fuel now w)
  scheduler_create-IsWellFormed fuel now w h distinct =
      Linked-IsWellFormed (scheduler_create-Linked fuel now w h) distinct
