-- ===== src/Storage/Restore/Values.antt =====
-- All entries of a schedule, saved and restored (storage_json.c).
use der_scheduling.Prelude.{
  ℕ, zero, suc, ◌+◌, ◌<◌, ◌≤◌, ◌≡◌, ◌≢◌, refl, sym, ap, ◌∙◌, inl, inr, some, arith, Bool-cases,
  ◌==◌, ==_iff,
}
use der_scheduling.Prelude.Int.{pos, ◌+ℤ◌}
use der_scheduling.Platform.{Platform}
use der_scheduling.World.{World}
use der_scheduling.Schedule.Values.{
  get_number_of_schedule_entries, get_schedule_value_attribute, get_value_with_idx,
}
use der_scheduling.Storage.Save.{json_of_value}
use der_scheduling.Storage.Entries.{restore_entries, restore_values}
use der_scheduling.Storage.Restore.Items.{saved_values}
use der_scheduling.Storage.Restore.Array.{Kept, saved_values-items}
use der_scheduling.Storage.Restore.Entry.{SameKind, booleans, floats, integers, IsSetTo, entry-set}

next_index : (k : ℕ) → pos k +ℤ pos 1 ≡ pos (k + 1)
unfolding ◌+ℤ◌
next_index k = ground arith

module _ ⦃lib : Platform⦄ where
  open lib use {
    Node, Value, Model, Json, Apart, mms_value, array_item, array_size, create_bool, create_number,
    double_of_int, get_boolean, to_float, to_int32,
  }

  -- The entries from `lo` on and below `hi` are ready to be set to the values of `b`: each has an
  -- attribute, apart from the others, whose value is of the same kind.
  pub record AreReady (w : World) (s lo hi : ℕ) (node : ℕ → Node) (b : ℕ → Value) : Type 0 where
    pub attribute :
        (k : ℕ) → lo ≤ k → k < hi → get_schedule_value_attribute w s (pos (k + 1)) ≡ some (node k)
    pub current :
        (k : ℕ)
        → lo ≤ k
        → k < hi
        → (a : Value) × (mms_value w.model (node k) ≡ some a) × SameKind a (b k)
    pub apart : (j k : ℕ) → j ≢ k → lo ≤ j → j < hi → lo ≤ k → k < hi → Apart (node j) (node k)

  -- The data model after the entries in the range were set.
  abbrev AreSet : World → (lo hi : ℕ) → (ℕ → Node) → (ℕ → Value) → Model → Type 0
  AreSet w lo hi node b m =
      ((k : ℕ)
        → lo ≤ k
        → k < hi
        → (u : Value) × (mms_value m (node k) ≡ some u)
          × (json_of_value (some u) ≡ json_of_value (some (b k))))
      × ((n : Node)
          → ((k : ℕ) → lo ≤ k → k < hi → Apart (node k) n)
          → mms_value m n ≡ mms_value w.model n)

  next-AreReady :
      (w : World) (s lo hi : ℕ) (node : ℕ → Node) (b : ℕ → Value) (m : Model)
      → AreReady w s lo hi node b
      → lo < hi
      → IsSetTo (node lo) (b lo) w.model m
      → AreReady (record w { model = m }) s (lo + 1) hi node b
  unfolding get_schedule_value_attribute
  next-AreReady w s lo hi node b m h lt set = record {
    attribute = λ k l r. h.attribute k (omega (arith, l)) r;
    current = λ k l r.
        let (a, held, kind) = h.current k (omega (arith, l)) r in
        (
          a,
          set.apart_same (node k) (
                h.apart lo k (λ e. absurd (omega (arith, e, l))) (omega arith) lt (omega (arith, l))
                  r)
              ∙ held,
          kind,
        );
    apart = λ j k ne l r l' r'. h.apart j k ne (omega (arith, l)) r (omega (arith, l')) r';
  }

  stored_first :
      (k : Node) (b : Value) (m m1 m2 : Model)
      → IsSetTo k b m m1
      → mms_value m2 k ≡ mms_value m1 k
      → (u : Value) × (mms_value m2 k ≡ some u) × (json_of_value (some u) ≡ json_of_value (some b))
  stored_first k b m m1 m2 set same = (set.stored, same ∙ set.stored_value, set.stored_json)

  restore_entries-AreSet :
      (w : World) (s : ℕ) (values : Json) (count lo hi : ℕ) (node : ℕ → Node) (b : ℕ → Value)
      → lo + count ≡ hi
      → AreReady w s lo hi node b
      → ((k : ℕ) → lo ≤ k → k < hi → array_item values k ≡ json_of_value (some (b k)))
      → (m : Model) × (restore_entries s values count lo w ≡ record w { model = m })
        × AreSet w lo hi node b m
  unfolding restore_entries
  restore_entries-AreSet w s values zero lo hi node b e h items =
      (w.model, refl, (λ k l r. absurd (omega (arith, e, l, r)), λ n far. refl))
  restore_entries-AreSet w s values (suc count) lo hi node b e h items =
      let lt : lo < hi = omega (arith, e) in
      let (a, held, kind) = h.current lo (omega arith) lt in
      let (m1, first, set) =
        entry-set s lo values w (node lo) a (b lo) (h.attribute lo (omega arith) lt) held
          (items lo (omega arith) lt) kind in
      let (m2, rest, (sets, frame)) =
        restore_entries-AreSet (record w { model = m1 }) s values count (lo + 1) hi node b
          (omega (arith, e)) (next-AreReady w s lo hi node b m1 h lt set)
          (λ k l r. items k (omega (arith, l)) r) in
      let kept = frame (node lo) (λ k l r.
        h.apart k lo (λ d. absurd (omega (arith, d, l))) (omega (arith, l)) r (omega arith) lt) in
      (
        m2,
        ap (restore_entries s values count (lo + 1)) first ∙ rest,
        (
          λ k l r. elim (Bool-cases (lo == k)) [
            | inl here ↦
                rw (← (==_iff lo k).0 here) (stored_first (node lo) (b lo) w.model m1 m2 set kept)
            | inr there ↦ sets k (ground (arith, there, l)) r
          ],
          λ n far.
              frame n (λ k l r. far k (omega (arith, l)) r)
              ∙ set.apart_same n (far lo (omega arith) lt),
        ),
      )

  kind_json : (a b : Value) → SameKind a b → (j : Json) × (json_of_value (some b) ≡ some j)
  unfolding json_of_value
  kind_json a b (booleans ta tb) = (create_bool (get_boolean (some b)), rw tb refl)
  kind_json a b (floats ta tb) = (create_number (to_float (some b)), rw tb refl)
  kind_json a b (integers ta tb range) =
      (create_number (double_of_int (to_int32 (some b))), rw tb refl)

  value_read :
      (w : World) (s k : ℕ) (n : Node) (u : Value)
      → get_schedule_value_attribute w s (pos (k + 1)) ≡ some n
      → mms_value w.model n ≡ some u
      → get_value_with_idx w s (pos k) ≡ some u
  unfolding get_value_with_idx
  value_read w s k n u attr held = rw (next_index k, attr) held

  attribute-model :
      (w : World) (m : Model) (s k : ℕ)
      → get_schedule_value_attribute (record w { model = m }) s (pos k)
        ≡ get_schedule_value_attribute w s (pos k)
  unfolding get_schedule_value_attribute
  attribute-model w m s k = refl

  -- The entries that a schedule had when it was saved are those that it has when they are restored
  -- from its file, as the file shows them: Booleans, integers and floats. Each entry must be in the
  -- data model of both runs, with a value of one of these types and the same in both, and apart from
  -- the other entries.
  pub restore_values-saved_values :
      (s t : ℕ) (v w : World) (node : ℕ → Node) (b : ℕ → Value)
      → AreReady w s 0 (get_number_of_schedule_entries v t) node b
      → ((k : ℕ)
          → k < get_number_of_schedule_entries v t
          → get_value_with_idx v t (pos k) ≡ some (b k))
      → (k : ℕ) → k < get_number_of_schedule_entries v t
      → json_of_value (get_value_with_idx (restore_values s (saved_values v t) w) s (pos k))
        ≡ json_of_value (get_value_with_idx v t (pos k))
  unfolding restore_values
  restore_values-saved_values s t v w node b h entries k r =
      let count = get_number_of_schedule_entries v t in
      let kept : Kept v t 0 count = λ i l q.
        let (a, held, kind) = h.current i l q in
        let (j, e) = kind_json a (b i) kind in (j, ap json_of_value (entries i q) ∙ e) in
      let (size, items) = saved_values-items v t kept in
      let (m, done, (sets, frame)) =
        restore_entries-AreSet w s (saved_values v t) count 0 count node b (omega arith) h
          (λ i l q. items i q ∙ ap json_of_value (entries i q)) in
      let (u, stored, same) = sets k (omega arith) r in
      ap
        (λ n.
          json_of_value (get_value_with_idx (restore_entries s (saved_values v t) n 0 w) s (pos k)))
        size
      ∙ ap (λ (x : World). json_of_value (get_value_with_idx x s (pos k))) done
      ∙ ap json_of_value (
          value_read (record w { model = m }) s k (node k) u
            (attribute-model w m s (k + 1) ∙ h.attribute k (omega arith) r) stored)
      ∙ same
      ∙ sym (ap json_of_value (entries k r))
