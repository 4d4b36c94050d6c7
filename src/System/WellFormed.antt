-- ===== src/System/WellFormed.antt =====
-- Schedules and controllers know each other: a well-formedness of their lists, and the write of a
-- reference.
use der_scheduling.Prelude.{
  ℕ, ◌≡◌, refl, sym, ap, ◌∙◌, inl, inr, true, false, Option, none, some, List, [], ◌∷◌, ◌==◌,
  ==_iff, arith, if◌then◌else◌, Bool-cases, ◌||◌,
}
use der_scheduling.Platform.{Platform}
use der_scheduling.World.{World, Controller, set_schedule, set_controller}
use der_scheduling.Controller.References.{
  contains, add_last, remove_first, set_listening_controller, without, connect,
}
use der_scheduling.System.Keeps.{listed, known, Keeps}

-- No entry occurs twice.
abbrev pub NoDup : List ℕ → Type 0
NoDup [] = Unit
NoDup (x ∷ xs) = (contains x xs ≡ false) × NoDup xs

pub contains-add_last :
    (a b : ℕ) (xs : List ℕ) → contains a (add_last b xs) ≡ (contains a xs || (b == a))
unfolding contains
contains-add_last a b [] = ground arith
contains-add_last a b (x ∷ xs) = ground (arith, contains-add_last a b xs)

pub contains-remove_first :
    (a b : ℕ) (xs : List ℕ) → contains a (remove_first b xs) ≡ true → contains a xs ≡ true
unfolding contains remove_first
contains-remove_first a b [] h = h
contains-remove_first a b (x ∷ xs) h = ground (arith, contains-remove_first a b xs)

NoDup-remove_first : (b : ℕ) (xs : List ℕ) → NoDup xs → NoDup (remove_first b xs)
unfolding contains remove_first
NoDup-remove_first b [] h = tt
NoDup-remove_first b (x ∷ xs) h = elim (Bool-cases (x == b)) [
  | inl e ↦ rw e h.1
  | inr e ↦ rw e (elim (Bool-cases (contains x (remove_first b xs))) [
    | inl f ↦ absurd (ground (arith, h.0, contains-remove_first x b xs f))
    | inr f ↦ (f, NoDup-remove_first b xs h.1)
  ])
]

NoDup-add_last : (b : ℕ) (xs : List ℕ) → contains b xs ≡ false → NoDup xs → NoDup (add_last b xs)
unfolding contains
NoDup-add_last b [] f h = (refl, tt)
NoDup-add_last b (x ∷ xs) f h =
    (ground (arith, contains-add_last x b xs, h.0), NoDup-add_last b xs (ground arith) h.1)

contains-without :
    (a : ℕ) (old : Option ℕ) (xs : List ℕ)
    → contains a (without old xs) ≡ true
    → contains a xs ≡ true
contains-without a none xs h = h
contains-without a (some b) xs h = contains-remove_first a b xs h

NoDup-without : (old : Option ℕ) (xs : List ℕ) → NoDup xs → NoDup (without old xs)
NoDup-without none xs h = h
NoDup-without (some b) xs h = NoDup-remove_first b xs h

module _ ⦃lib : Platform⦄ where
  open lib use {Node, Value, mms_value, to_string}

  abbrev pub active : World → ℕ → Option ℕ
  active w c = (w.controller c).active_schedule

  -- Each schedule knows the controllers that list it.
  abbrev pub AllKnown : World → Type 0
  AllKnown w = (c s : ℕ) → contains s (listed w c) ≡ true → contains c (known w s) ≡ true

  pub Keeps-AllKnown : {u w : World} → Keeps u w → AllKnown u → AllKnown w
  Keeps-AllKnown k h c s l =
      rw (k.known_same s) (h c s (ap (contains s) (sym (k.listed_same c)) ∙ l))

  -- No controller lists a schedule twice, and a schedule knows each controller that lists it or has
  -- it as its active schedule.
  pub record IsWellFormed (w : World) : Type 0 where
    pub distinct : (c : ℕ) → NoDup (listed w c)
    pub listed_known : AllKnown w
    pub active_known : (c s : ℕ) → active w c ≡ some s → contains c (known w s) ≡ true

  pub Keeps-IsWellFormed : {u w : World} → Keeps u w → IsWellFormed u → IsWellFormed w
  Keeps-IsWellFormed k h = record {
    distinct = λ c. rw (k.listed_same c) (h.distinct c);
    listed_known = Keeps-AllKnown k h.listed_known;
    active_known = λ c s a. rw (k.known_same s) (elim (k.active_listed c s a) [
      | inl old ↦ h.active_known c s old
      | inr l ↦ h.listed_known c s l
    ]);
  }

  -- The world in which the controller's list has its new end.
  abbrev relisted : ℕ → Option ℕ → ℕ → World → World
  relisted c old s w =
      set_controller c
        (record (w.controller c) {
          schedules = add_last s (without old (w.controller c).schedules);
        })
        w

  listening_known :
      (s c d t : ℕ) (w : World)
      → contains d (known w t) ≡ true
      → contains d (known (set_listening_controller s c w) t) ≡ true
  unfolding set_listening_controller set_schedule
  listening_known s c d t w h = ground (arith, contains-add_last d c (known w s))

  listening_self :
      (s c : ℕ) (w : World) → contains c (known (set_listening_controller s c w) s) ≡ true
  unfolding set_listening_controller set_schedule
  listening_self s c w = ground (arith, contains-add_last c c (known w s))

  listening_controller :
      (s c : ℕ) (w : World) → (set_listening_controller s c w).controller ≡ w.controller
  unfolding set_listening_controller set_schedule
  listening_controller s c w = ground arith

  pub connect-known :
      (c : ℕ) (old : Option ℕ) (s d t : ℕ) (w : World)
      → contains d (known w t) ≡ true
      → contains d (known (connect c old s w) t) ≡ true
  unfolding connect set_controller
  connect-known c old s d t w h = listening_known s c d t (relisted c old s w) h

  pub connect-known_self :
      (c : ℕ) (old : Option ℕ) (s : ℕ) (w : World) → contains c (known (connect c old s w) s) ≡ true
  unfolding connect
  connect-known_self c old s w = listening_self s c (relisted c old s w)

  pub connect-listed :
      (c : ℕ) (old : Option ℕ) (s d : ℕ) (w : World)
      → listed (connect c old s w) d
        ≡ (if c == d then add_last s (without old (listed w c)) else listed w d)
  unfolding connect set_controller
  connect-listed c old s d w =
      ap (λ (f : ℕ → Controller). (f d).schedules) (listening_controller s c (relisted c old s w))
      ∙ ground arith

  pub connect-active :
      (c : ℕ) (old : Option ℕ) (s d : ℕ) (w : World) → active (connect c old s w) d ≡ active w d
  unfolding connect set_controller
  connect-active c old s d w =
      ap (λ (f : ℕ → Controller). (f d).active_schedule)
        (listening_controller s c (relisted c old s w))
      ∙ ground arith

  module _ (c : ℕ) (old : Option ℕ) (s : ℕ) (w : World) where
    relisted-known :
        (t : ℕ)
        → AllKnown w
        → contains t (add_last s (without old (listed w c))) ≡ true
        → contains c (known (connect c old s w) t) ≡ true
    relisted-known t h l = elim (Bool-cases (s == t)) [
      | inl e ↦ rw (← (==_iff s t).0 e) (connect-known_self c old s w)
      | inr e ↦ connect-known c old s c t w (
          h c t (
            contains-without t old (listed w c)
              (ground (arith, contains-add_last t s (without old (listed w c))))))
    ]

    listed-here :
        (d : ℕ)
        → (c == d) ≡ true
        → listed (connect c old s w) d ≡ add_last s (without old (listed w c))
    listed-here d e = connect-listed c old s d w ∙ rw e refl

    listed-there : (d : ℕ) → (c == d) ≡ false → listed (connect c old s w) d ≡ listed w d
    listed-there d e = connect-listed c old s d w ∙ rw e refl

    pub connect-AllKnown : AllKnown w → AllKnown (connect c old s w)
    connect-AllKnown h d t l = elim (Bool-cases (c == d)) [
      | inl e ↦
          rw (← (==_iff c d).0 e) (relisted-known t h (ap (contains t) (sym (listed-here d e)) ∙ l))
      | inr e ↦ connect-known c old s d t w (h d t (ap (contains t) (sym (listed-there d e)) ∙ l))
    ]

    distinct-relisted :
        IsWellFormed w
        → contains s (listed w c) ≡ false
        → NoDup (add_last s (without old (listed w c)))
    distinct-relisted h new =
        NoDup-add_last s (without old (listed w c))
          (elim (Bool-cases (contains s (without old (listed w c)))) [
            | inl e ↦ absurd (ground (arith, contains-without s old (listed w c) e))
            | inr e ↦ e
          ])
          (NoDup-without old (listed w c) (h.distinct c))

    -- A new connection keeps the lists well-formed.
    pub connect-IsWellFormed :
        IsWellFormed w → contains s (listed w c) ≡ false → IsWellFormed (connect c old s w)
    connect-IsWellFormed h new = record {
      distinct = λ d. rw (connect-listed c old s d w) (elim (Bool-cases (c == d)) [
        | inl e ↦ rw e (distinct-relisted h new)
        | inr e ↦ rw e (h.distinct d)
      ]);
      listed_known = connect-AllKnown h.listed_known;
      active_known = λ d t a.
          connect-known c old s d t w (h.active_known d t (sym (connect-active c old s d w) ∙ a));
    }
