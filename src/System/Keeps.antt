-- ===== src/System/Keeps.antt =====
-- What no operation but the write of a reference changes: which schedules a controller lists, and
-- which controllers a schedule knows.
use der_scheduling.Prelude.{
  ℕ, ◌≡◌, refl, sym, ap, ◌∙◌, ◌⊎◌, inl, inr, true, Option, none, some, List, [], ◌∷◌, arith,
  Bool-cases,
}
use der_scheduling.Platform.{Platform}
use der_scheduling.World.{World, Schedule, Controller, set_schedule}
use der_scheduling.Schedule.Getters.{is_running}
use der_scheduling.Controller.Select.{challenge, select_active, get_active_schedule}
use der_scheduling.Controller.References.{contains}

module _ ⦃lib : Platform⦄ where
  abbrev pub listed : World → ℕ → List ℕ
  listed w c = (w.controller c).schedules

  abbrev pub known : World → ℕ → List ℕ
  known w s = (w.schedule s).known_schedule_controllers

  -- The lists are the same, and an active schedule that is new is in its controller's list.
  pub record Keeps (w w' : World) : Type 0 where
    pub known_same : (s : ℕ) → known w' s ≡ known w s
    pub listed_same : (c : ℕ) → listed w' c ≡ listed w c
    pub active_listed :
        (c s : ℕ)
        → (w'.controller c).active_schedule ≡ some s
        → ((w.controller c).active_schedule ≡ some s) ⊎ (contains s (listed w c) ≡ true)

  pub Keeps-refl : (w : World) → Keeps w w
  Keeps-refl w = record {
    known_same = λ s. refl;
    listed_same = λ c. refl;
    active_listed = λ c s h. inl h;
  }

  pub Keeps-trans : {u v w : World} → Keeps u v → Keeps v w → Keeps u w
  Keeps-trans p q = record {
    known_same = λ s. q.known_same s ∙ p.known_same s;
    listed_same = λ c. q.listed_same c ∙ p.listed_same c;
    active_listed = λ c s h. elim (q.active_listed c s h) [
      | inl a ↦ p.active_listed c s a
      | inr l ↦ inr (ap (contains s) (sym (p.listed_same c)) ∙ l)
    ];
  }

  -- An operation that changes no struct.
  pub Keeps-same : {u w : World} → w.schedule ≡ u.schedule → w.controller ≡ u.controller → Keeps u w
  Keeps-same e f = record {
    known_same = λ s. ap (λ (g : ℕ → Schedule). (g s).known_schedule_controllers) e;
    listed_same = λ c. ap (λ (g : ℕ → Controller). (g c).schedules) f;
    active_listed = λ c s h. inl (sym (ap (λ (g : ℕ → Controller). (g c).active_schedule) f) ∙ h);
  }

  -- The struct of one schedule changes, but not the controllers that it knows.
  pub set_schedule-Keeps :
      (s : ℕ) (x : Schedule) (w : World)
      → x.known_schedule_controllers ≡ known w s
      → Keeps w (set_schedule s x w)
  unfolding set_schedule
  set_schedule-Keeps s x w e = record {
    known_same = λ t. ground arith;
    listed_same = λ c. refl;
    active_listed = λ c t h. inl h;
  }

  challenge-contains :
      (w : World) (s a : ℕ) (act : Option ℕ) (ss : List ℕ)
      → challenge w s act ≡ some a
      → (a ≡ s) ⊎ (act ≡ some a)
  challenge-contains w s a none ss h = ground arith
  challenge-contains w s a (some b) ss h = ground arith

  select_active-contains :
      (w : World) (a : ℕ) (ss : List ℕ) (act : Option ℕ)
      → select_active w ss act ≡ some a
      → (act ≡ some a) ⊎ (contains a ss ≡ true)
  unfolding select_active contains
  select_active-contains w a [] act h = inl h
  select_active-contains w a (s ∷ ss) act h = elim (Bool-cases (is_running w s)) [
    | inr idle ↦ elim (select_active-contains w a ss act (ground arith)) [
      | inl e ↦ inl e
      | inr e ↦ inr (ground arith)
    ]
    | inl r ↦ elim (select_active-contains w a ss (challenge w s act) (ground arith)) [
      | inr e ↦ inr (ground arith)
      | inl e ↦ elim (challenge-contains w s a act ss e) [
        | inl same ↦ inr (ground arith)
        | inr old ↦ inl old
      ]
    ]
  ]

  pub get_active_schedule-contains :
      (w : World) (c a : ℕ) → get_active_schedule w c ≡ some a → contains a (listed w c) ≡ true
  unfolding get_active_schedule
  get_active_schedule-contains w c a h = elim (select_active-contains w a (listed w c) none h) [
    | inl e ↦ absurd cc
    | inr e ↦ e
  ]
