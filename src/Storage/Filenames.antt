-- ===== src/Storage/Filenames.antt =====
-- convertObjRefToFilename of storage_json.c.
pub mod Safe
use Prim.Native.Char.{Char, code}
use Prim.Native.String.{◌++◌ as concat}
use der_scheduling.Prelude.{String, if◌then◌else◌, ◌==◌}

abbrev filename_part : Char → String
filename_part c =
    if code c == b'.' then "_" else if code c == b'/' then "__" else String.◌∷◌ c String.[]

pub filename_loop : String → String
filename_loop String.[] = ".json"
filename_loop (String.◌∷◌ c s) = concat (filename_part c) (filename_loop s)

unfoldable pub convert_obj_ref_to_filename : String → String
unfolding filename_loop
convert_obj_ref_to_filename obj_ref = filename_loop obj_ref
