-- ===== src/Names/Decimal.antt =====
-- The fuel of the loop over decimal digits is enough.
use Prim.Native.String.{◌++◌ as concat}
use der_scheduling.Prelude.{
  ℕ, zero, suc, ◌/◌, ◌%◌, ◌<◌, ◌≡◌, refl, ap, false, String, ltb, arith, inl, inr, Bool-cases,
}
use der_scheduling.Names.{digit_text, decimal_loop}

tenth : (n f : ℕ) → ltb n 10 ≡ false → n < suc f → n / 10 < f
tenth n f e h = ground arith

-- With more fuel than the number `n` says, the text of `n` does not depend on the fuel.
decimal_loop-fuel : (f g n : ℕ) → n < f → n < g → decimal_loop f n ≡ decimal_loop g n
unfolding decimal_loop
decimal_loop-fuel zero g n h k = absurd (omega arith)
decimal_loop-fuel (suc f) zero n h k = absurd (omega arith)
decimal_loop-fuel (suc f) (suc g) n h k = elim (Bool-cases (ltb n 10)) [
  | inl small ↦ rw small refl
  | inr large ↦ rw large (
      ap (λ (s : String). concat s (digit_text (n % 10)))
        (decimal_loop-fuel f g (n / 10) (tenth n f large h) (tenth n g large k)))
]
