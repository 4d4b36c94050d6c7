-- ===== src/Storage/Filenames/Safe.antt =====
-- The file names that references turn into lie in the working directory.
use text.Mathlib.TextLemmas.{nil-append, cons-append}
use Prim.Native.Char.{Char, code}
use Prim.Native.String.{◌++◌ as concat}
use der_scheduling.Prelude.{
  ℕ, ◌≡◌, refl, ◌∙◌, Bool, false, ◌||◌, String, arith, ◌==◌, inl, inr, Bool-cases,
}
use der_scheduling.Storage.Filenames.{filename_part, filename_loop, convert_obj_ref_to_filename}

-- The character with the code `k` occurs in the text.
abbrev pub has_code : ℕ → String → Bool
has_code k String.[] = false
has_code k (String.◌∷◌ c s) = (code c == k) || has_code k s

has_code-concat : (k : ℕ) (s t : String) → has_code k (concat s t) ≡ (has_code k s || has_code k t)
has_code-concat k String.[] t = rw (nil-append t) refl
has_code-concat k (String.◌∷◌ c s) t =
    rw (cons-append c s t) (ground (arith, has_code-concat k s t))

filename_part-has_code : (c : Char) → has_code b'/' (filename_part c) ≡ false
filename_part-has_code c = elim (Bool-cases (code c == b'.')) [
  | inl dot ↦ rw dot refl
  | inr plain ↦ rw plain (elim (Bool-cases (code c == b'/')) [
    | inl slash ↦ rw slash refl
    | inr other ↦ rw other (ground arith)
  ])
]

filename_loop-has_code : (s : String) → has_code b'/' (filename_loop s) ≡ false
unfolding filename_loop
filename_loop-has_code String.[] = refl
filename_loop-has_code (String.◌∷◌ c s) =
    has_code-concat b'/' (filename_part c) (filename_loop s)
    ∙ ground (arith, filename_part-has_code c, filename_loop-has_code s)

-- No slash is in the name of the file that a schedule or a controller is saved to, whatever its
-- reference is.
pub convert_obj_ref_to_filename-has_code :
    (obj_ref : String) → has_code b'/' (convert_obj_ref_to_filename obj_ref) ≡ false
unfolding convert_obj_ref_to_filename
convert_obj_ref_to_filename-has_code obj_ref = filename_loop-has_code obj_ref
