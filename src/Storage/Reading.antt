-- ===== src/Storage/Reading.antt =====
-- How storage_json.c reads what is stored: the file, the checks of an item that must be there, and
-- the settings of a value in place. A `Restoring` function goes on to the end or ends early, and
-- what it has changed until then stays.
use der_scheduling.Prelude.{
  ◌≡◌, refl, Bool, true, false, Option, none, some, String, if◌then◌else◌, ◌==◌, not,
}
use der_scheduling.Prelude.Int.{ℤ, pos, negsuc}
use der_scheduling.Platform.{Platform, SetValue}
use der_scheduling.World.{World}
use der_scheduling.Schedule.Getters.{value_at}

module _ ⦃lib : Platform⦄ where
  open lib use {Node, Value, Double, Json, Text, get_item, value_string, set_value, can_read}

  abbrev pub Restoring : Type 0 → Type 0
  Restoring A = World → World × Option A

  abbrev pub go_on : {A B : Type 0} → (A → Restoring B) → World × Option A → World × Option B
  go_on f (w, none) = (w, none)
  go_on f (w, some a) = f a w

  infixl 5 ◌>>=◌ ◌>>◌
  abbrev pub ◌>>=◌ : {A B : Type 0} → Restoring A → (A → Restoring B) → Restoring B
  ◌>>=◌ m f w = go_on f (m w)

  abbrev pub ◌>>◌ : {A B : Type 0} → Restoring A → Restoring B → Restoring B
  m >> k = m >>= λ _. k

  -- A call that cannot fail.
  abbrev pub call : (World → World) → Restoring (Unit {0})
  call f w = (f w, some tt)

  -- Whether a `Restoring` function came to its end, which is what the C function returns.
  abbrev pub is_done : {A : Type 0} → World × Option A → World × Bool
  is_done (w, none) = (w, false)
  is_done (w, some a) = (w, true)

  -- The item is there and has the type that is asked for; or else the function ends.
  abbrev pub checked_item : (Json → Bool) → Option Json → Option Json
  checked_item test none = none
  checked_item test (some j) = if test j then some j else none

  pub checked_item-some :
      (test : Json → Bool) {o : Option Json} (j : Json)
      → o ≡ some j
      → test j ≡ true
      → checked_item test o ≡ some j
  checked_item-some test j e t = rw (e, t) refl

  unfoldable pub required : (Json → Bool) → Json → String → Restoring Json
  required test json key w = (w, checked_item test (get_item json key))

  abbrev pub followed : Option String → Restoring String
  followed none w = (record w { faulted = true }, none)
  followed (some text) w = (w, some text)

  -- The text of an item, which the code follows without a test.
  abbrev pub text_of : Json → Restoring String
  text_of j w = followed (value_string j) w

  -- A value that is set without a test that there is one.
  abbrev set_or_fault : SetValue Double → Node → Option Value → World → World
  set_or_fault u n none w = record w { faulted = true }
  set_or_fault u n (some v) w = record w { model = set_value u n w.model }

  unfoldable pub set_unchecked : SetValue Double → Node → World → World
  set_unchecked u n w = set_or_fault u n (value_at w (some n)) w

  -- `readFileToBuffer`: NULL where there is no file, or where it cannot be read.
  unfoldable pub read_file_to_buffer : String → World → Option Text
  read_file_to_buffer name w = if can_read name then w.files name else none

-- An `int` as a condition.
abbrev pub nonzero : ℤ → Bool
nonzero (pos n) = not (n == 0)
nonzero (negsuc n) = true
