-- ===== src/Examples/Entries.antt =====
-- The entries of the plant's first schedule are saved and restored in a run that has others.
use der_scheduling.Prelude.{
  ℕ, zero, suc, ◌+◌, ◌<◌, ◌≡◌, ◌≢◌, refl, some, ◌==◌, if◌then◌else◌, arith,
}
use der_scheduling.Prelude.Int.{pos, ◌+ℤ◌}
use der_scheduling.World.{World}
use der_scheduling.Names.{
  numbered_name, format_int, decimal_loop, check_if_multi_obj_inst, memcmp_eq, digits_from,
  is_digit,
}
use der_scheduling.Schedule.Values.{
  count_instances, get_number_of_schedule_entries, get_schedule_value_attribute, get_value_with_idx,
}
use der_scheduling.Storage.Save.{json_of_value}
use der_scheduling.Storage.Entries.{restore_values}
use der_scheduling.Storage.Restore.Items.{saved_values}
use der_scheduling.Storage.Restore.Entry.{SameKind, floats}
use der_scheduling.Storage.Restore.Values.{AreReady, restore_values-saved_values}
use der_scheduling.Examples.Toy.{toy, ToyValue, number}
use der_scheduling.Examples.Plant.{plant}

abbrev node_of : ℕ → ℕ
node_of zero = 10
node_of (suc k) = 12

abbrev value_of : ℕ → ToyValue
value_of zero = number 11
value_of (suc k) = number 22

-- Another run, in which the entries are 1 and 2.
abbrev other : World
other = record (plant 1 1 0) {
  model = λ n.
      if n == 10
      then some (number 1)
      else if n == 12
      then some (number 2)
      else (plant 1 1 0).model n;
}

attribute_of :
    (k : ℕ) → k < 2 → get_schedule_value_attribute other 0 (pos (k + 1)) ≡ some (node_of k)
unfolding get_schedule_value_attribute numbered_name format_int decimal_loop
attribute_of zero h = refl
attribute_of (suc zero) h = refl
attribute_of (suc (suc k)) h = absurd (omega (arith, h))

current_of :
    (k : ℕ) → k < 2 → (a : ToyValue) × (other.model (node_of k) ≡ some a) × SameKind a (value_of k)
current_of zero h = (number 1, refl, floats refl refl)
current_of (suc k) h = (number 2, refl, floats refl refl)

apart_of : (j k : ℕ) → j ≢ k → j < 2 → k < 2 → node_of j ≢ node_of k
apart_of zero zero ne h h' e = ne refl
apart_of zero (suc k) ne h h' e = omega (arith, e)
apart_of (suc j) zero ne h h' e = omega (arith, e)
apart_of (suc j) (suc k) ne h h' e = ne (omega (arith, h, h'))

two_ready : AreReady other 0 0 2 node_of value_of
two_ready = record {
  attribute = λ k l r. attribute_of k r;
  current = λ k l r. current_of k r;
  apart = λ j k ne l r l' r'. apart_of j k ne r r';
}

saved_entry : (k : ℕ) → k < 2 → get_value_with_idx (plant 3 1 0) 0 (pos k) ≡ some (value_of k)
unfolding get_value_with_idx get_schedule_value_attribute numbered_name format_int decimal_loop ◌+ℤ◌
saved_entry zero h = refl
saved_entry (suc zero) h = refl
saved_entry (suc (suc k)) h = absurd (omega (arith, h))

restore_values-saved_values_example :
    json_of_value
      (get_value_with_idx (restore_values 0 (saved_values (plant 3 1 0) 0) other) 0 (pos 1))
    ≡ json_of_value (get_value_with_idx (plant 3 1 0) 0 (pos 1))
unfolding get_number_of_schedule_entries count_instances check_if_multi_obj_inst memcmp_eq
    digits_from is_digit
restore_values-saved_values_example =
    restore_values-saved_values 0 0 (plant 3 1 0) other node_of value_of two_ready saved_entry 1
      (omega arith)
