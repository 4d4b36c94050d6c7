-- ===== src/Examples/Names.antt =====
-- The theorems on names at examples.
use der_scheduling.Prelude.{◌≡◌, ◌↔◌, true, List, ℕ, ◌++◌}
use der_scheduling.Names.{codes, check_if_multi_obj_inst}
use der_scheduling.Names.Instances.{IsDigits, check_if_multi_obj_inst_iff}

check_if_multi_obj_inst_iff_example :
    (check_if_multi_obj_inst (codes "StrTm12") (codes "StrTm") ≡ true)
    ↔ ((ds : List ℕ) × (codes "StrTm12" ≡ codes "StrTm" ++ ds) × IsDigits ds)
check_if_multi_obj_inst_iff_example = check_if_multi_obj_inst_iff (codes "StrTm12") (codes "StrTm")
