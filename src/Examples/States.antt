-- ===== src/Examples/States.antt =====
-- The theorems on the texts of the storage.
use der_scheduling.Prelude.{◌≡◌, false}
use der_scheduling.Storage.Filenames.{convert_obj_ref_to_filename}
use der_scheduling.Storage.Filenames.Safe.{has_code, convert_obj_ref_to_filename-has_code}

convert_obj_ref_to_filename-has_code_example :
    has_code b'/' (convert_obj_ref_to_filename "IED1/ActPow_FSCH01") ≡ false
convert_obj_ref_to_filename-has_code_example =
    convert_obj_ref_to_filename-has_code "IED1/ActPow_FSCH01"
