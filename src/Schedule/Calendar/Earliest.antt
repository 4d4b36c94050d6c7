-- ===== src/Schedule/Calendar/Earliest.antt =====
-- The next start time of a schedule that is not periodic: schedule_getNextStartTime against the list
-- of its start times.
use mathlib.Core.List.{append_assoc, append-nil}
use der_scheduling.Prelude.{
  ℕ, ◌≤◌, ◌<◌, ◌≡◌, refl, ◌⊎◌, inl, inr, false, List, [], ◌∷◌, ◌++◌, arith, All, All-append,
  All-map, Bool-cases, if◌then◌else◌, ltb, leb, ◌==◌,
}
use der_scheduling.Platform.{Platform}
use der_scheduling.World.{World}
use der_scheduling.Schedule.StartTimes.{
  check_if_str_tm, get_start_time, earlier_future, update_next_start_time,
}
use der_scheduling.Schedule.Calendar.{next_of_objects, get_next_start_time}

-- `r` is the earliest of the times `ts` after `now`, or 0 where there is none.
abbrev pub IsEarliest : ℕ → List ℕ → ℕ → Type 0
IsEarliest now ts r =
    ((r ≡ 0) × All (λ t. t ≤ now) ts)
    ⊎ ((now < r)
        × ((before : List ℕ) × (after : List ℕ) × (ts ≡ before ++ (r ∷ after)))
        × All (λ t. (t ≤ now) ⊎ (r ≤ t)) ts)

keep-step :
    (now t next : ℕ) (done : List ℕ)
    → (t ≤ now) ⊎ ((now < next) × (next ≤ t))
    → IsEarliest now done next
    → IsEarliest now (done ++ (t ∷ [])) next
keep-step now t next done (inl h) (inl (z, past)) =
    inl (z, All-append (λ x. x ≤ now) done (t ∷ []) past (h, tt))
keep-step now t next done (inr h) (inl (z, past)) = absurd (omega arith)
keep-step now t next done h (inr (lt, (before, after, e), least)) = inr (
  lt,
  (before, after ++ (t ∷ []), rw e (append_assoc before (next ∷ after) (t ∷ []))),
  All-append (λ x. (x ≤ now) ⊎ (next ≤ x)) done (t ∷ []) least (omega arith, tt),
)

take-step :
    (now t next : ℕ) (done : List ℕ)
    → now < t
    → (next ≡ 0) ⊎ (t ≤ next)
    → IsEarliest now done next
    → IsEarliest now (done ++ (t ∷ [])) t
take-step now t next done lt h (inl (z, past)) = inr (
  lt,
  (done, [], refl),
  All-append (λ x. (x ≤ now) ⊎ (t ≤ x)) done (t ∷ [])
      (All-map (λ x. x ≤ now) (λ x. (x ≤ now) ⊎ (t ≤ x)) done (λ x p. inl p) past)
      (omega arith, tt),
)
take-step now t next done lt h (inr (lt', e, least)) = inr (
  lt,
  (done, [], refl),
  All-append (λ x. (x ≤ now) ⊎ (t ≤ x)) done (t ∷ [])
      (All-map (λ x. (x ≤ now) ⊎ (next ≤ x)) (λ x. (x ≤ now) ⊎ (t ≤ x)) done (λ x p. omega arith)
        least)
      (omega arith, tt),
)

later :
    (now t next : ℕ) (done : List ℕ)
    → IsEarliest now done next
    → 0 < next
    → next ≤ t
    → (now < next) × (next ≤ t)
later now t next done (inl (z, past)) p q = absurd (omega arith)
later now t next done (inr (lt, e, least)) p q = (lt, q)

earlier_future-IsEarliest :
    (now t next : ℕ) (done : List ℕ)
    → IsEarliest now done next
    → IsEarliest now (done ++ (t ∷ [])) (earlier_future t next now)
earlier_future-IsEarliest now t next done h = elim (Bool-cases (ltb now t)) [
  | inr past ↦ rw past (keep-step now t next done (inl (ground arith)) h)
  | inl lt ↦ rw lt (elim (Bool-cases (next == 0)) [
    | inl empty ↦ rw empty (take-step now t next done (ground arith) (inl (ground arith)) h)
    | inr known ↦ rw known (elim (Bool-cases (leb t next)) [
      | inl le ↦ rw le (take-step now t next done (ground arith) (inr (ground arith)) h)
      | inr gt ↦ rw gt (
          keep-step now t next done (inr (later now t next done h (ground arith) (ground arith))) h)
    ])
  ])
]

module _ ⦃lib : Platform⦄ (w : World) where
  open lib use {Node, get_children, node_name}

  -- The times of the objects StrTm, StrTm1, ...; 0 for an object with no time.
  unfoldable pub start_times : List Node → List ℕ
  start_times [] = []
  start_times (n ∷ ns) =
      let rest = start_times ns in
      if check_if_str_tm (node_name n) then get_start_time w n ∷ rest else rest

  update_next_start_time-eq :
      (n : Node) (next now : ℕ)
      → update_next_start_time w n next now ≡ earlier_future (get_start_time w n) next now
  unfolding update_next_start_time get_start_time
  update_next_start_time-eq n next now = ground arith

  next_of_objects-IsEarliest :
      (s now next : ℕ) (ns : List Node) (done : List ℕ)
      → IsEarliest now done next
      → IsEarliest now (done ++ start_times ns) (next_of_objects false w s now ns next)
  unfolding next_of_objects start_times
  next_of_objects-IsEarliest s now next [] done h = rw append-nil h
  next_of_objects-IsEarliest s now next (n ∷ ns) done h =
      elim (Bool-cases (check_if_str_tm (node_name n))) [
        | inl e ↦ rw e (
            rw
              (
                ← append_assoc done (get_start_time w n ∷ []) (start_times ns),
                update_next_start_time-eq n next now,
              )
              (next_of_objects-IsEarliest s now (earlier_future (get_start_time w n) next now) ns
                (done ++ (get_start_time w n ∷ []))
                (earlier_future-IsEarliest now (get_start_time w n) next done h)))
        | inr e ↦ rw e (next_of_objects-IsEarliest s now next ns done h)
      ]

  -- For a schedule that is not periodic, the next start time is the earliest of its start times that
  -- is after the current time, and 0 exactly when none is.
  pub get_next_start_time-IsEarliest :
      (s now : ℕ)
      → (w.schedule s).is_periodic ≡ false
      → IsEarliest now
          (start_times (get_children (w.schedule s).schedule_ln))
          (get_next_start_time now w s)
  unfolding get_next_start_time
  get_next_start_time-IsEarliest s now e = rw e (
      next_of_objects-IsEarliest s now 0 (get_children (w.schedule s).schedule_ln) []
        (inl (refl, tt)))
