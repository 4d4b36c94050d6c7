-- ===== src/Controller/Select/Arbitration.antt =====
-- The active schedule of a controller is the running schedule that the requirements E01 and S17
-- ask for: scheduleController_getActiveSchedule against an order on schedules.
use mathlib.Core.List.{append_assoc, append-nil}
use der_scheduling.Prelude.{
  ℕ, ◌≤◌, ◌<◌, ◌≡◌, refl, ◌⊎◌, inl, inr, true, false, Option, none, some, List, [], ◌∷◌, ◌++◌,
  if◌then◌else◌, arith, All, All-append, All-map, Bool-cases, ltb,
}
use der_scheduling.Prelude.Int.{ℤ, ◌<ℤ◌, ◌≤ℤ◌, ltb_ℤ, eqb_ℤ}
use der_scheduling.Platform.{Platform}
use der_scheduling.World.{World}
use der_scheduling.Schedule.Getters.{get_prio, is_running}
use der_scheduling.Controller.Select.{replaces, challenge, select_active, get_active_schedule}

-- Rank by priority, then by start time.
abbrev pub Below : ℤ → ℕ → ℤ → ℕ → Type 0
Below p t q u = (p <ℤ q) ⊎ ((p ≤ℤ q) × (t < u))

abbrev pub AtMost : ℤ → ℕ → ℤ → ℕ → Type 0
AtMost p t q u = (p <ℤ q) ⊎ ((p ≤ℤ q) × (t ≤ u))

rank-Below :
    (p q : ℤ) (t u : ℕ)
    → (if ltb_ℤ q p then true else if eqb_ℤ p q then ltb u t else false) ≡ true
    → Below q u p t
rank-Below p q t u h = ground arith

rank-AtMost :
    (p q : ℤ) (t u : ℕ)
    → (if ltb_ℤ q p then true else if eqb_ℤ p q then ltb u t else false) ≡ false
    → AtMost p t q u
rank-AtMost p q t u h = ground arith

module _ ⦃lib : Platform⦄ (w : World) where
  abbrev start : ℕ → ℕ
  start s = (w.schedule s).start_time

  -- `s` is not running, or ranks below `a`; or ranks no higher than `a`.
  abbrev pub RanksBelow : ℕ → ℕ → Type 0
  RanksBelow a s =
      (is_running w s ≡ false) ⊎ Below (get_prio w s) (start s) (get_prio w a) (start a)

  abbrev pub RanksAtMost : ℕ → ℕ → Type 0
  RanksAtMost a s =
      (is_running w s ≡ false) ⊎ AtMost (get_prio w s) (start s) (get_prio w a) (start a)

  -- The first of the running schedules of highest rank, or none where none is running.
  abbrev pub IsFirstBest : List ℕ → Option ℕ → Type 0
  IsFirstBest ss none = All (λ s. is_running w s ≡ false) ss
  IsFirstBest ss (some a) =
      (before : List ℕ) × (after : List ℕ) × (ss ≡ before ++ (a ∷ after))
      × (is_running w a ≡ true)
      × All (RanksBelow a) before
      × All (RanksAtMost a) after

  replaces-Below :
      (s a : ℕ) → replaces w s a ≡ true → Below (get_prio w a) (start a) (get_prio w s) (start s)
  unfolding replaces
  replaces-Below s a h = rank-Below (get_prio w s) (get_prio w a) (start s) (start a) h

  replaces-AtMost :
      (s a : ℕ) → replaces w s a ≡ false → AtMost (get_prio w s) (start s) (get_prio w a) (start a)
  unfolding replaces
  replaces-AtMost s a h = rank-AtMost (get_prio w s) (get_prio w a) (start s) (start a) h

  idle-step :
      (ss : List ℕ) (s : ℕ) (act : Option ℕ)
      → is_running w s ≡ false
      → IsFirstBest ss act
      → IsFirstBest (ss ++ (s ∷ [])) act
  idle-step ss s none idle best =
      All-append (λ x. is_running w x ≡ false) ss (s ∷ []) best (idle, tt)
  idle-step ss s (some a) idle (before, after, e, run, low, most) = (
    before,
    after ++ (s ∷ []),
    rw e (append_assoc before (a ∷ after) (s ∷ [])),
    run,
    low,
    All-append (RanksAtMost a) after (s ∷ []) most (inl idle, tt),
  )

  kept :
      (ss : List ℕ) (s a : ℕ)
      → replaces w s a ≡ false
      → IsFirstBest ss (some a)
      → IsFirstBest (ss ++ (s ∷ [])) (some a)
  kept ss s a h (before, after, e, run, low, most) = (
    before,
    after ++ (s ∷ []),
    rw e (append_assoc before (a ∷ after) (s ∷ [])),
    run,
    low,
    All-append (RanksAtMost a) after (s ∷ []) most (inr (replaces-AtMost s a h), tt),
  )

  Below-trans :
      (x s a : ℕ)
      → Below (get_prio w a) (start a) (get_prio w s) (start s)
      → RanksBelow a x
      → RanksBelow s x
  Below-trans x s a h (inl idle) = inl idle
  Below-trans x s a h (inr below) = inr (omega arith)

  Below-AtMost :
      (x s a : ℕ)
      → Below (get_prio w a) (start a) (get_prio w s) (start s)
      → RanksAtMost a x
      → RanksBelow s x
  Below-AtMost x s a h (inl idle) = inl idle
  Below-AtMost x s a h (inr most) = inr (omega arith)

  replaced :
      (ss : List ℕ) (s a : ℕ)
      → is_running w s ≡ true
      → replaces w s a ≡ true
      → IsFirstBest ss (some a)
      → IsFirstBest (ss ++ (s ∷ [])) (some s)
  replaced ss s a r h (before, after, e, run, low, most) = (
    ss,
    [],
    refl,
    r,
    rw e (
        All-append (RanksBelow s) before (a ∷ after)
          (All-map (RanksBelow a) (RanksBelow s) before
            (λ x. Below-trans x s a (replaces-Below s a h)) low)
          (
            inr (replaces-Below s a h),
            All-map (RanksAtMost a) (RanksBelow s) after
                (λ x. Below-AtMost x s a (replaces-Below s a h)) most,
          )),
    tt,
  )

  challenge-step :
      (ss : List ℕ) (s : ℕ) (act : Option ℕ)
      → is_running w s ≡ true
      → IsFirstBest ss act
      → IsFirstBest (ss ++ (s ∷ [])) (challenge w s act)
  challenge-step ss s none r best = (
    ss,
    [],
    refl,
    r,
    All-map (λ x. is_running w x ≡ false) (RanksBelow s) ss (λ x idle. inl idle) best,
    tt,
  )
  challenge-step ss s (some a) r best = elim (Bool-cases (replaces w s a)) [
    | inl h ↦ rw h (replaced ss s a r h best)
    | inr h ↦ rw h (kept ss s a h best)
  ]

  select_active-IsFirstBest :
      (done ss : List ℕ) (act : Option ℕ)
      → IsFirstBest done act
      → IsFirstBest (done ++ ss) (select_active w ss act)
  unfolding select_active
  select_active-IsFirstBest done [] act best = rw append-nil best
  select_active-IsFirstBest done (s ∷ ss) act best =
      rw (← append_assoc done (s ∷ []) ss) (elim (Bool-cases (is_running w s)) [
        | inl r ↦ rw r (
            select_active-IsFirstBest (done ++ (s ∷ [])) ss (challenge w s act)
              (challenge-step done s act r best))
        | inr idle ↦
            rw idle
              (select_active-IsFirstBest (done ++ (s ∷ [])) ss act (idle-step done s act idle best))
      ])

  -- The active schedule of a controller is the first, in the order of its list, of the running
  -- schedules with the highest priority and, among those, the latest start time; there is none
  -- exactly when no schedule of the list is running.
  pub get_active_schedule-IsFirstBest :
      (c : ℕ) → IsFirstBest (w.controller c).schedules (get_active_schedule w c)
  unfolding get_active_schedule
  get_active_schedule-IsFirstBest c =
      select_active-IsFirstBest [] (w.controller c).schedules none tt
