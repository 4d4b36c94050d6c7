-- ===== src/Schedule/Setters/Readback.antt =====
-- What the setters set is what the getters read.
use der_scheduling.Prelude.{ℕ, ◌≡◌, Bool, some, arith}
use der_scheduling.Prelude.Int.{ℤ, IsInt32}
use der_scheduling.Platform.{Platform, mms_integer, mms_boolean}
use der_scheduling.World.{World}
use der_scheduling.Schedule.Getters.{
  ln_child, int_setting, get_prio, get_num_entr, get_num_entr_value, get_schd_reuse,
}
use der_scheduling.Schedule.Setters.{set_prio, set_num_entr, set_schd_reuse}

module _ ⦃lib : Platform⦄ (s : ℕ) (n : lib.Node) (v : lib.Value) (w : World) where
  open lib use {mms_value, get_type, set_int32-holds, set_boolean-holds}

  -- A priority that is set is read again, where the setting is in the data model with an integer
  -- value.
  get_prio-set_prio :
      (i : ℤ)
      → IsInt32 i
      → ln_child w s "SchdPrio.setVal" ≡ some n
      → mms_value w.model n ≡ some v
      → get_type (some v) ≡ mms_integer
      → get_prio (set_prio s i w) s ≡ i
  unfolding get_prio set_prio int_setting
  get_prio-set_prio i r c e t =
      let (u, held, typed, value) = set_int32-holds w.model n v i e t r in
      ground (arith, held, typed, value)

  -- A number of entries that is set is read again, by both functions that read it, where the setting
  -- is in the data model with an integer value.
  get_num_entr-set_num_entr :
      (i : ℤ)
      → IsInt32 i
      → ln_child w s "NumEntr.setVal" ≡ some n
      → mms_value w.model n ≡ some v
      → get_type (some v) ≡ mms_integer
      → (get_num_entr (set_num_entr s i w) s ≡ i) × (get_num_entr_value (set_num_entr s i w) s ≡ i)
  unfolding get_num_entr get_num_entr_value set_num_entr int_setting
  get_num_entr-set_num_entr i r c e t =
      let (u, held, typed, value) = set_int32-holds w.model n v i e t r in
      ground (arith, held, typed, value)

  -- A reuse that is set is read again, where the setting is in the data model with a Boolean value.
  get_schd_reuse-set_schd_reuse :
      (b : Bool)
      → ln_child w s "SchdReuse.setVal" ≡ some n
      → mms_value w.model n ≡ some v
      → get_type (some v) ≡ mms_boolean
      → get_schd_reuse (set_schd_reuse s b w) s ≡ b
  unfolding get_schd_reuse set_schd_reuse
  get_schd_reuse-set_schd_reuse b c e t =
      let (u, held, typed, value) = set_boolean-holds w.model n v b e t in
      ground (arith, held, typed, value)
