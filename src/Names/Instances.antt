-- ===== src/Names/Instances.antt =====
-- Which names scheduler_checkIfMultiObjInst accepts.
use der_scheduling.Prelude.{
  ℕ, ◌≡◌, refl, sym, ◌∙◌, ◌↔◌, inl, inr, true, List, [], ◌∷◌, ◌++◌, arith, length, length-append,
  All, Bool-cases,
}
use der_scheduling.Names.{is_digit, memcmp_eq, digits_from, check_if_multi_obj_inst}

abbrev pub IsDigits : List ℕ → Type 0
IsDigits = All (λ c. is_digit c ≡ true)

digits_from-split : (ms ds : List ℕ) → digits_from (length ms) (ms ++ ds) ≡ digits_from 0 ds
unfolding digits_from
digits_from-split [] ds = refl
digits_from-split (m ∷ ms) ds = digits_from-split ms ds

digits_from-IsDigits : (ds : List ℕ) → digits_from 0 ds ≡ true → IsDigits ds
unfolding digits_from
digits_from-IsDigits [] h = tt
digits_from-IsDigits (d ∷ ds) h = ground (arith, digits_from-IsDigits ds)

IsDigits-digits_from : (ds : List ℕ) → IsDigits ds → digits_from 0 ds ≡ true
unfolding digits_from
IsDigits-digits_from [] h = refl
IsDigits-digits_from (d ∷ ds) h = ground (arith, IsDigits-digits_from ds)

memcmp_eq-split : (cs ms : List ℕ) → memcmp_eq cs ms ≡ true → (ds : List ℕ) × (cs ≡ ms ++ ds)
unfolding memcmp_eq
memcmp_eq-split cs [] h = (cs, refl)
memcmp_eq-split [] (m ∷ ms) h = cc
memcmp_eq-split (c ∷ cs) (m ∷ ms) h =
    let (ds, e) = memcmp_eq-split cs ms (ground arith) in (ds, ground arith)

memcmp_eq-append : (ms ds : List ℕ) → memcmp_eq (ms ++ ds) ms ≡ true
unfolding memcmp_eq
memcmp_eq-append [] ds = refl
memcmp_eq-append (m ∷ ms) ds = ground (arith, memcmp_eq-append ms ds)

accepted :
    (name multi_name : List ℕ)
    → check_if_multi_obj_inst name multi_name ≡ true
    → (memcmp_eq name multi_name ≡ true) × (digits_from (length multi_name) name ≡ true)
unfolding check_if_multi_obj_inst
accepted name multi_name h = elim (Bool-cases (memcmp_eq name multi_name)) [
  | inl e ↦ (e, ground arith)
  | inr e ↦ absurd (ground arith)
]

check_if_multi_obj_inst-append :
    (multi_name ds : List ℕ)
    → IsDigits ds
    → check_if_multi_obj_inst (multi_name ++ ds) multi_name ≡ true
unfolding check_if_multi_obj_inst
check_if_multi_obj_inst-append ms ds h = ground (
  arith,
  length-append ms ds,
  memcmp_eq-append ms ds,
  digits_from-split ms ds,
  IsDigits-digits_from ds,
)

-- A name is an instance of `multi_name` exactly when it is `multi_name` followed by decimal digits
-- alone, of which there may be none.
pub check_if_multi_obj_inst_iff :
    (name multi_name : List ℕ)
    → (check_if_multi_obj_inst name multi_name ≡ true)
      ↔ ((ds : List ℕ) × (name ≡ multi_name ++ ds) × IsDigits ds)
check_if_multi_obj_inst_iff name ms = (
  λ h.
      let (same, digits) = accepted name ms h in
      let (ds, e) = memcmp_eq-split name ms same in
      (ds, e, digits_from-IsDigits ds (sym (digits_from-split ms ds) ∙ (rw e at digits))),
  λ h. rw h.1 (check_if_multi_obj_inst-append ms h.0 h.2),
)
