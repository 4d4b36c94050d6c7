-- ===== src/Names.antt =====
-- Names of data objects: scheduler_checkIfMultiObjInst of src/scheduler/der_scheduler.c, and the
-- numbered names that schedule.c and schedule_controller.c print with sprintf.
pub mod Instances
pub mod Decimal
use Prim.Native.Char.{code}
use Prim.Native.String.{◌++◌ as concat, len}
use der_scheduling.Prelude.{
  ℕ, zero, suc, ◌+◌, ◌-◌, ◌/◌, ◌%◌, Bool, true, false, ◌&&◌, List, [], ◌∷◌, String, ltb, leb,
  if◌then◌else◌, length, ◌==◌,
}
use der_scheduling.Prelude.Int.{ℤ, pos, negsuc}

-- The bytes of a text; names of the data model are ASCII.
abbrev pub codes : String → List ℕ
codes String.[] = []
codes (String.◌∷◌ c s) = code c ∷ codes s

unfoldable pub is_digit : ℕ → Bool
is_digit c = leb b'0' c && leb c b'9'

-- `memcmp(name, multiName, multiNameSize) == 0`, where `name` is at least as long.
unfoldable pub memcmp_eq : List ℕ → List ℕ → Bool
memcmp_eq name [] = true
memcmp_eq [] (m ∷ ms) = false
memcmp_eq (c ∷ cs) (m ∷ ms) = (c == m) && memcmp_eq cs ms

-- The loop over `name[i]` from `i = multiNameSize`.
unfoldable pub digits_from : ℕ → List ℕ → Bool
digits_from i [] = true
digits_from zero (c ∷ cs) = is_digit c && digits_from zero cs
digits_from (suc i) (c ∷ cs) = digits_from i cs

unfoldable pub check_if_multi_obj_inst : List ℕ → List ℕ → Bool
unfolding memcmp_eq digits_from is_digit
check_if_multi_obj_inst name multi_name =
    if leb (length multi_name) (length name)
    then (if memcmp_eq name multi_name then digits_from (length multi_name) name else false)
    else false

-- The comparison of keys in cJSON_GetObjectItem: tolower on both sides, for ASCII.
abbrev lower : ℕ → ℕ
lower c = if leb b'A' c && leb c b'Z' then c + 32 else c

abbrev same_lower : List ℕ → List ℕ → Bool
same_lower [] [] = true
same_lower [] (d ∷ ds) = false
same_lower (c ∷ cs) [] = false
same_lower (c ∷ cs) (d ∷ ds) = (lower c == lower d) && same_lower cs ds

abbrev pub same_key : String → String → Bool
same_key a b = same_lower (codes a) (codes b)

abbrev pub digit_text : ℕ → String
digit_text zero = "0"
digit_text (suc zero) = "1"
digit_text (suc (suc zero)) = "2"
digit_text (suc (suc (suc zero))) = "3"
digit_text (suc (suc (suc (suc zero)))) = "4"
digit_text (suc (suc (suc (suc (suc zero))))) = "5"
digit_text (suc (suc (suc (suc (suc (suc zero)))))) = "6"
digit_text (suc (suc (suc (suc (suc (suc (suc zero))))))) = "7"
digit_text (suc (suc (suc (suc (suc (suc (suc (suc zero)))))))) = "8"
digit_text _ = "9"

-- The decimal digits of `n`; the fuel `suc n` is more than they are.
unfoldable pub decimal_loop : ℕ → ℕ → String
decimal_loop zero n = ""
decimal_loop (suc fuel) n =
    let rest = decimal_loop fuel (n / 10) in
    if ltb n 10 then digit_text n else concat rest (digit_text (n % 10))

unfoldable pub zeros : ℕ → String
zeros zero = ""
zeros (suc n) = concat "0" (zeros n)

unfoldable pub pad : ℕ → String → String
pad width s = concat (zeros (width - len s)) s

-- `%0<width>i`; the width 0 is plain `%i`.
unfoldable pub format_int : ℕ → ℤ → String
unfolding decimal_loop zeros pad
format_int width (pos n) = pad width (decimal_loop (suc n) n)
format_int width (negsuc n) = concat "-" (pad (width - 1) (decimal_loop (suc (suc n)) (suc n)))

-- `sprintf(buffer, "%s%0<width>i", name, idx)`
unfoldable pub numbered_name : String → ℕ → ℤ → String
unfolding format_int
numbered_name name width idx = concat name (format_int width idx)
