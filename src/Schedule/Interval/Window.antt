-- ===== src/Schedule/Interval/Window.antt =====
-- When schedule_getCurrentIdx gives which index.
use der_scheduling.Prelude.{
  ℕ, ◌+◌, ◌-◌, ◌*◌, ◌/◌, ◌%◌, ◌^◌, ◌≤◌, ◌<◌, ◌≡◌, refl, ◌⊎◌, inl, inr, Option, some, arith, leb,
  leb→le, if◌then◌else◌, Bool-cases,
}
use der_scheduling.Prelude.Int.{ℤ, pos, negsuc, uint64_of_int, int_of_uint64}
use der_scheduling.Platform.{Platform}
use der_scheduling.World.{Schedule}
use der_scheduling.Schedule.Interval.{get_current_idx}

pub div_window : (t d : ℕ) → 0 < d → (t / d * d ≤ t) × (t < t / d * d + d)
div_window t d h = grind arith

pub mul_mono : (n q d : ℕ) → n ≤ q → n * d ≤ q * d
mul_mono n q d h = grind arith

-- The index by its meaning: past the end, or the entry whose window holds the time.
abbrev pub IsIndexAt : ℕ → ℕ → ℕ → ℕ → Option ℤ → Type 0
IsIndexAt start d n now r =
    ((r ≡ some (negsuc 0)) × (start + n * d ≤ now))
    ⊎ ((k : ℕ) × (r ≡ some (pos k)) × (k < n) × (start + k * d ≤ now) × (now < start + k * d + d))

elapsed :
    (now start : ℕ) → start ≤ now → now < 2 ^ 64 → (now + 2 ^ 64 - start) % 2 ^ 64 ≡ now - start
elapsed now start h k = omega arith

small : (q : ℕ) → q < 2 ^ 31 → int_of_uint64 q ≡ pos q
unfolding int_of_uint64
small q h = ground arith

large : (q : ℕ) → 2 ^ 31 ≤ q → q < 2 ^ 32 → int_of_uint64 q ≡ negsuc (2 ^ 32 - 1 - q)
unfolding int_of_uint64
large q h k = ground arith

uint64_small : (d : ℕ) → d < 2 ^ 31 → d % 2 ^ 64 ≡ d
uint64_small d h = omega arith

index_window :
    (start d n now : ℕ)
    → 0 < d
    → start ≤ now
    → IsIndexAt start d n now
        (some (if leb n ((now - start) / d) then negsuc 0 else pos ((now - start) / d)))
index_window start d n now d0 h = elim (Bool-cases (leb n ((now - start) / d))) [
  | inl e ↦ rw e (
      inl (
        refl,
        omega (
          arith,
          mul_mono n ((now - start) / d) d (leb→le _ _ e),
          (div_window (now - start) d d0).0,
        ),
      ))
  | inr e ↦ rw e (
      inr (
        (now - start) / d,
        refl,
        ground arith,
        omega (arith, (div_window (now - start) d d0).0),
        omega (arith, (div_window (now - start) d d0).1),
      ))
]

module _ ⦃lib : Platform⦄ where
  get_current_idx-quotient :
      (x : Schedule) (now d n : ℕ)
      → x.entry_duration_in_ms ≡ pos d
      → x.number_of_schedule_entries ≡ pos n
      → 0 < d
      → d < 2 ^ 31
      → x.start_time ≤ now
      → now < 2 ^ 64
      → (now - x.start_time) / d < 2 ^ 31
      → get_current_idx x now
        ≡ some
            (if leb n ((now - x.start_time) / d) then negsuc 0 else pos ((now - x.start_time) / d))
  unfolding get_current_idx uint64_of_int
  get_current_idx-quotient x now d n ed en d0 d1 h0 h1 q =
      rw
        (
          ed,
          en,
          elapsed now x.start_time h0 h1,
          uint64_small d d1,
          small ((now - x.start_time) / d) q,
        )
        (ground arith)

  -- For an interval above 0 and a start that has come, and while the elapsed time is below 2 ^ 31
  -- intervals, the index is that of the entry whose interval holds the current time, and -1 from
  -- the end of the last entry on.
  pub get_current_idx-IsIndexAt :
      (x : Schedule) (now d n : ℕ)
      → x.entry_duration_in_ms ≡ pos d
      → x.number_of_schedule_entries ≡ pos n
      → 0 < d
      → d < 2 ^ 31
      → x.start_time ≤ now
      → now < 2 ^ 64
      → (now - x.start_time) / d < 2 ^ 31
      → IsIndexAt x.start_time d n now (get_current_idx x now)
  get_current_idx-IsIndexAt x now d n ed en d0 d1 h0 h1 q =
      rw (get_current_idx-quotient x now d n ed en d0 d1 h0 h1 q)
        (index_window x.start_time d n now d0 h0)

  -- For an interval above 0, from 2 ^ 31 elapsed intervals on and below 2 ^ 32, the index is the
  -- negative number that the quotient wraps to, whatever the number of entries is.
  pub get_current_idx-overflow :
      (x : Schedule) (now d n : ℕ)
      → x.entry_duration_in_ms ≡ pos d
      → x.number_of_schedule_entries ≡ pos n
      → 0 < d
      → d < 2 ^ 31
      → x.start_time ≤ now
      → now < 2 ^ 64
      → 2 ^ 31 ≤ (now - x.start_time) / d
      → (now - x.start_time) / d < 2 ^ 32
      → get_current_idx x now ≡ some (negsuc (2 ^ 32 - 1 - (now - x.start_time) / d))
  unfolding get_current_idx uint64_of_int
  get_current_idx-overflow x now d n ed en d0 d1 h0 h1 q q' =
      rw
        (
          ed,
          en,
          elapsed now x.start_time h0 h1,
          uint64_small d d1,
          large ((now - x.start_time) / d) q q',
        )
        (ground arith)
