-- ===== src/Scheduler/Create/Search.antt =====
-- Which schedules scheduler_parseModel of der_scheduler.c finds in the data model.
use der_scheduling.Prelude.{
  ℕ, ◌<◌, ◌≡◌, refl, sym, ap, ◌∙◌, inl, inr, Bool, true, false, ◌&&◌, List, [], ◌∷◌, ◌++◌, map,
  length, All, All-append, append_assoc, append_nil, map-agree, All-map, length-append, arith,
  Bool-cases, if◌then◌else◌,
}
use der_scheduling.Platform.{Platform}
use der_scheduling.Names.{codes}
use der_scheduling.World.{World, Schedule, set_schedule, set_controller}
use der_scheduling.Controller.References.{add_last}
use der_scheduling.Schedule.Create.{is_schedule, new_schedule, opened, schedule_create}
use der_scheduling.Schedule.Create.Created.{
  OnlyCreated, schedule_create-OnlyCreated, schedule_create-none, schedule_create-some,
}
use der_scheduling.Scheduler.Create.{
  is_named, add_controller, parse_controller, add_schedule, parse_schedule, parse_nodes,
  parse_devices, empty_scheduler,
}

map-add_last :
    {A : Type 0} (f : ℕ → A) (a : ℕ) (xs : List ℕ) → map f (add_last a xs) ≡ map f xs ++ (f a ∷ [])
map-add_last f a [] = refl
map-add_last f a (x ∷ xs) = ap (λ ys. f x ∷ ys) (map-add_last f a xs)

-- Every pointer in a list is below the next one.
Below : List ℕ → Type 0
Below ss = All (λ s. s < length ss) ss

Below-add_last : (ss : List ℕ) → Below ss → Below (add_last (length ss) ss)
unfolding Below
Below-add_last ss h =
    All-append (λ s. s < length (add_last (length ss) ss)) ss (length ss ∷ [])
      (All-map (λ s. s < length ss) (λ s. s < length (add_last (length ss) ss)) ss
        (λ s k. omega (arith, k, length-append ss (length ss ∷ []))) h)
      (omega (arith, length-append ss (length ss ∷ [])), tt)

module _ ⦃lib : Platform⦄ where
  open lib use {Node, logical_nodes}

  -- The logical nodes that are schedules: by their name, and by what they have.
  unfoldable pub is_found : Node → Bool
  is_found ln = is_named ln (codes "FSCH") && is_schedule ln

  unfoldable pub found_among : List Node → List Node
  unfolding is_found
  found_among [] = []
  found_among (ln ∷ lns) = let rest = found_among lns in if is_found ln then ln ∷ rest else rest

  unfoldable pub found_in_devices : List Node → List Node
  unfolding found_among
  found_in_devices [] = []
  found_in_devices (ld ∷ lds) = found_among (logical_nodes ld) ++ found_in_devices lds

  -- The logical nodes of the schedules that a scheduler has, in its order.
  abbrev pub schedule_nodes : World → List Node
  schedule_nodes w = map (λ s. (w.schedule s).schedule_ln) w.schedules

  controller-nodes :
      (ln : Node) (w : World) → schedule_nodes (parse_controller ln w) ≡ schedule_nodes w
  unfolding parse_controller add_controller set_controller
  controller-nodes ln w = ground arith

  controller-schedules : (ln : Node) (w : World) → (parse_controller ln w).schedules ≡ w.schedules
  unfolding parse_controller add_controller set_controller
  controller-schedules ln w = ground arith

  other_struct :
      (s : ℕ) (x : Schedule) (w : World) (k : ℕ)
      → k < s
      → ((set_schedule s x w).schedule k).schedule_ln ≡ (w.schedule k).schedule_ln
  unfolding set_schedule
  other_struct s x w k h = ground arith

  own_struct : (s : ℕ) (x : Schedule) (w : World) → (set_schedule s x w).schedule s ≡ x
  unfolding set_schedule
  own_struct s x w = ground arith

  -- A struct at a new pointer.
  created-nodes :
      (x : Schedule) (w u : World)
      → Below w.schedules
      → OnlyCreated (length w.schedules) x w u
      → schedule_nodes (add_schedule (length w.schedules) (u, true))
        ≡ schedule_nodes w ++ (x.schedule_ln ∷ [])
  unfolding Below
  created-nodes x w u below only =
      let s = length w.schedules in
      let node : ℕ → Node = λ k. ((set_schedule s x w).schedule k).schedule_ln in
      ap (λ (f : ℕ → Schedule). map (λ k. (f k).schedule_ln) (add_last s u.schedules))
        only.struct_set
      ∙ ap (λ ss. map node (add_last s ss)) only.schedules_same
      ∙ map-add_last node s w.schedules
      ∙ ap (λ ns. ns ++ (node s ∷ []))
          (map-agree node (λ k. (w.schedule k).schedule_ln) w.schedules
            (All-map (λ k. k < s) (λ k. node k ≡ (w.schedule k).schedule_ln) w.schedules
              (λ k h. other_struct s x w k h) below))
      ∙ ap (λ (y : Schedule). schedule_nodes w ++ (y.schedule_ln ∷ [])) (own_struct s x w)

  created-Below :
      (x : Schedule) (w u : World)
      → Below w.schedules
      → OnlyCreated (length w.schedules) x w u
      → Below (add_schedule (length w.schedules) (u, true)).schedules
  created-Below x w u below only = rw only.schedules_same (Below-add_last w.schedules below)

  -- One logical node.
  abbrev one_found : Node → List Node
  one_found ln = if is_found ln then ln ∷ [] else []

  IsAdded : Node → World → World → Type 0
  IsAdded ln w w' = (schedule_nodes w' ≡ schedule_nodes w ++ one_found ln) × Below w'.schedules

  none-IsAdded :
      (fuel now : ℕ) (ln : Node) (w : World)
      → Below w.schedules
      → is_found ln ≡ false
      → IsAdded ln w w
  unfolding IsAdded
  none-IsAdded fuel now ln w below e = (sym (rw e (append_nil (schedule_nodes w))), below)

  some-IsAdded :
      (fuel now : ℕ) (ln : Node) (w : World)
      → Below w.schedules
      → is_found ln ≡ true
      → is_schedule ln ≡ true
      → IsAdded ln w
          (add_schedule (length w.schedules) (schedule_create fuel now (length w.schedules) ln w))
  unfolding IsAdded opened new_schedule
  some-IsAdded fuel now ln w below e f =
      let s = length w.schedules in
      let u = (schedule_create fuel now s ln w).0 in
      let only = schedule_create-OnlyCreated fuel now s ln w f in
      rw (schedule_create-some fuel now s ln w f, e)
        (
          created-nodes (opened (new_schedule ln)) w u below only,
          created-Below (opened (new_schedule ln)) w u below only,
        )

  schedule-IsAdded :
      (fuel now : ℕ) (ln : Node) (w : World)
      → Below w.schedules
      → IsAdded ln w (parse_schedule fuel now ln w)
  unfolding parse_schedule is_found
  schedule-IsAdded fuel now ln w below = elim (Bool-cases (is_named ln (codes "FSCH"))) [
    | inr e ↦ rw e (none-IsAdded fuel now ln w below (rw e refl))
    | inl e ↦ rw e (elim (Bool-cases (is_schedule ln)) [
      | inr f ↦
          rw (schedule_create-none fuel now (length w.schedules) ln w f)
            (none-IsAdded fuel now ln w below (rw (e, f) refl))
      | inl f ↦ some-IsAdded fuel now ln w below (rw (e, f) refl) f
    ])
  ]

  found_cons :
      (ln : Node) (lns : List Node) → one_found ln ++ found_among lns ≡ found_among (ln ∷ lns)
  unfolding found_among
  found_cons ln lns = ground arith

  nodes-found :
      (fuel now : ℕ) (lns : List Node) (w : World)
      → Below w.schedules
      → (schedule_nodes (parse_nodes fuel now lns w) ≡ schedule_nodes w ++ found_among lns)
        × Below (parse_nodes fuel now lns w).schedules
  unfolding parse_nodes found_among IsAdded
  nodes-found fuel now [] w below = (sym (append_nil (schedule_nodes w)), below)
  nodes-found fuel now (ln ∷ lns) w below =
      let u = parse_controller ln w in
      let (added, below') = schedule-IsAdded fuel now ln u (rw (controller-schedules ln w) below) in
      let (found, kept) = nodes-found fuel now lns (parse_schedule fuel now ln u) below' in
      (
        found
            ∙ ap (λ ns. ns ++ found_among lns) added
            ∙ append_assoc (schedule_nodes u) (one_found ln) (found_among lns)
            ∙ ap (λ ns. schedule_nodes u ++ ns) (found_cons ln lns)
            ∙ ap (λ ns. ns ++ found_among (ln ∷ lns)) (controller-nodes ln w),
        kept,
      )

  devices-found :
      (fuel now : ℕ) (lds : List Node) (w : World)
      → Below w.schedules
      → schedule_nodes (parse_devices fuel now lds w) ≡ schedule_nodes w ++ found_in_devices lds
  unfolding parse_devices found_in_devices
  devices-found fuel now [] w below = sym (append_nil (schedule_nodes w))
  devices-found fuel now (ld ∷ lds) w below =
      let (found, kept) = nodes-found fuel now (logical_nodes ld) w below in
      devices-found fuel now lds (parse_nodes fuel now (logical_nodes ld) w) kept
      ∙ ap (λ ns. ns ++ found_in_devices lds) found
      ∙ append_assoc (schedule_nodes w) (found_among (logical_nodes ld)) (found_in_devices lds)

  -- The search of the data model makes a schedule of each logical node with FSCH in its name that has
  -- SchdSt, NxtStrTm, SchdPrio.setVal and EnaReq, in the order of the devices and of their nodes, and
  -- of no other node.
  pub parse_devices-schedule_nodes :
      (fuel now : ℕ) (lds : List Node) (w : World)
      → schedule_nodes (parse_devices fuel now lds (empty_scheduler w)) ≡ found_in_devices lds
  unfolding empty_scheduler Below
  parse_devices-schedule_nodes fuel now lds w = devices-found fuel now lds (empty_scheduler w) tt
