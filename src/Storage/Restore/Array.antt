-- ===== src/Storage/Restore/Array.antt =====
-- The elements of the array of values that createSchedule of storage_json.c makes.
use der_scheduling.Prelude.{
  ℕ, zero, suc, ◌+◌, ◌<◌, ◌≤◌, ◌≡◌, refl, sym, ap, ◌∙◌, inl, inr, Option, none, some, arith,
  Bool-cases, ◌==◌, ==_iff,
}
use der_scheduling.Prelude.Int.{pos}
use der_scheduling.Platform.{Platform}
use der_scheduling.World.{World}
use der_scheduling.Schedule.Values.{get_number_of_schedule_entries, get_value_with_idx}
use der_scheduling.Storage.Save.{add_values, add_some, json_of_value}
use der_scheduling.Storage.Restore.Items.{saved_values}

module _ ⦃lib : Platform⦄ where
  open lib use {
    Json, array_size, array_item, create_array, add_item_to_array, array_size-create_array,
    array_size-add_item_to_array, array_item-add_item_to_array,
  }

  -- The value of the entry that is added at `idx`.
  abbrev entry_json : World → (s idx : ℕ) → Option Json
  entry_json w s idx = json_of_value (get_value_with_idx w s (pos idx))

  size-add_some :
      (o : Option Json) (array : Json) → array_size array ≤ array_size (add_some o array)
  size-add_some none array = omega arith
  size-add_some (some j) array = omega (arith, array_size-add_item_to_array array j)

  item-add_some :
      (o : Option Json) (array : Json) (i : ℕ)
      → i < array_size array
      → array_item (add_some o array) i ≡ array_item array i
  item-add_some none array i h = refl
  item-add_some (some j) array i h = array_item-add_item_to_array array j i ∙ ground (arith, h)

  own-add_some :
      (o : Option Json) (array : Json) (j : Json)
      → o ≡ some j
      → (array_item (add_some o array) (array_size array) ≡ o)
        × (array_size (add_some o array) ≡ array_size array + 1)
  own-add_some none array j e = absurd cc
  own-add_some (some k) array j e = (
    array_item-add_item_to_array array k (array_size array) ∙ ground arith,
    array_size-add_item_to_array array k,
  )

  add_values-below :
      (w : World) (s count idx : ℕ) (array : Json) (i : ℕ)
      → i < array_size array
      → array_item (add_values w s count idx array) i ≡ array_item array i
  unfolding add_values
  add_values-below w s zero idx array i h = refl
  add_values-below w s (suc count) idx array i h =
      add_values-below w s count (idx + 1) (add_some (entry_json w s idx) array) i
        (omega (arith, h, size-add_some (entry_json w s idx) array))
      ∙ item-add_some (entry_json w s idx) array i h

  -- Every entry from `lo` on and below `hi` has a value in the file.
  abbrev pub Kept : World → (s lo hi : ℕ) → Type 0
  Kept w s lo hi = (k : ℕ) → lo ≤ k → k < hi → (j : Json) × (entry_json w s k ≡ some j)

  item-add_values :
      (w : World) (s count idx : ℕ) (array : Json) (k : ℕ)
      → array_size array ≡ idx
      → Kept w s idx (idx + count)
      → idx ≤ k
      → k < idx + count
      → array_item (add_values w s count idx array) k ≡ entry_json w s k
  unfolding add_values
  item-add_values w s zero idx array k size kept lo hi = absurd (omega (arith, lo, hi))
  item-add_values w s (suc count) idx array k size kept lo hi =
      let (j, e) = kept idx (omega arith) (omega arith) in
      let (own, size') = own-add_some (entry_json w s idx) array j e in
      elim (Bool-cases (idx == k)) [
        | inl here ↦ rw (← (==_iff idx k).0 here) (
            add_values-below w s count (idx + 1) (add_some (entry_json w s idx) array) idx
              (omega (arith, size, size'))
            ∙ ap (array_item (add_some (entry_json w s idx) array)) (sym size)
            ∙ own)
        | inr there ↦
            item-add_values w s count (idx + 1) (add_some (entry_json w s idx) array) k
              (size' ∙ ap (λ n. n + 1) size) (λ i l h. kept i (omega (arith, l)) (omega (arith, h)))
              (ground (arith, there, lo)) (omega (arith, hi))
      ]

  size-add_values :
      (w : World) (s count idx : ℕ) (array : Json)
      → array_size array ≡ idx
      → Kept w s idx (idx + count)
      → array_size (add_values w s count idx array) ≡ idx + count
  unfolding add_values
  size-add_values w s zero idx array size kept = omega (arith, size)
  size-add_values w s (suc count) idx array size kept =
      let (j, e) = kept idx (omega arith) (omega arith) in
      let (own, size') = own-add_some (entry_json w s idx) array j e in
      size-add_values w s count (idx + 1) (add_some (entry_json w s idx) array)
        (size' ∙ ap (λ n. n + 1) size) (λ i l h. kept i (omega (arith, l)) (omega (arith, h)))
      ∙ omega arith

  -- If every entry has a value in the file, the array has one element for each, at its index.
  pub saved_values-items :
      (w : World) (s : ℕ)
      → Kept w s 0 (get_number_of_schedule_entries w s)
      → (array_size (saved_values w s) ≡ get_number_of_schedule_entries w s)
        × ((k : ℕ)
            → k < get_number_of_schedule_entries w s
            → array_item (saved_values w s) k ≡ entry_json w s k)
  saved_values-items w s kept =
      let count = get_number_of_schedule_entries w s in
      let all : Kept w s 0 (0 + count) = λ k l h. kept k l (omega (arith, h)) in
      (
        size-add_values w s count 0 create_array array_size-create_array all ∙ omega arith,
        λ k h.
            item-add_values w s count 0 create_array k array_size-create_array all (omega arith)
              (omega (arith, h)),
      )
