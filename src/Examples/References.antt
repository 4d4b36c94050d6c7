-- ===== src/Examples/References.antt =====
-- The theorems on the references of a controller at a plant with one controller, which lists the
-- first schedule.
use der_scheduling.Prelude.{
  ◌≡◌, ◌≢◌, refl, Bool, true, false, none, some, [], ◌∷◌, ◌++◌, ◌==◌, arith, if◌then◌else◌,
}
use der_scheduling.World.{World, success_no_update}
use der_scheduling.Scheduler.{find_schedule, get_schedule_by_obj_ref}
use der_scheduling.Controller.References.{contains, schd_set_src_ref_write_access_handler}
use der_scheduling.Controller.Notify.{schedule_value_updated}
use der_scheduling.Controller.Update.Frame.{target_calls}
use der_scheduling.Schedule.Thread.{thread_round}
use der_scheduling.System.Keeps.{listed, known}
use der_scheduling.System.WellFormed.{IsWellFormed, NoDup, active}
use der_scheduling.System.Reachable.{done, after, turns, writes_reference, Steps-IsWellFormed}
use der_scheduling.System.Replaced.{
  reference_write_refused, reference_write-connects, replaced-still_active,
}
use der_scheduling.Examples.Toy.{toy, chars, number}
use der_scheduling.Examples.Plant.{plant}

-- The node 20 is the controller's reference to the first schedule.
abbrev single : World
single = record (plant 4 4 0) {
  model = λ n. if n == 20 then some (chars "LD/FSCH1") else (plant 4 4 0).model n;
  controller = λ c.
      if c == 0
      then record ((plant 4 4 0).controller 0) { schedules = 0 ∷ [] }
      else record ((plant 4 4 0).controller 0) { schedules = []; active_schedule = none };
}

distinct_if :
    (b : Bool)
    → NoDup
        (if b
          then record ((plant 4 4 0).controller 0) { schedules = 0 ∷ [] }
          else record ((plant 4 4 0).controller 0) {
            schedules = [];
            active_schedule = none;
          }).schedules
unfolding contains
distinct_if true = (refl, tt)
distinct_if false = tt

single-IsWellFormed : IsWellFormed single
unfolding contains
single-IsWellFormed = record {
  distinct = λ c. distinct_if (c == 0);
  listed_known = λ c s h. ground arith;
  active_known = λ c s h. ground arith;
}

found : get_schedule_by_obj_ref single "LD/FSCH2" ≡ some 1
unfolding get_schedule_by_obj_ref find_schedule
found = refl

found_first : get_schedule_by_obj_ref single "LD/FSCH1" ≡ some 0
unfolding get_schedule_by_obj_ref find_schedule
found_first = refl

-- A reference is written, and then the thread of the second schedule makes a round.
abbrev rewritten : World
rewritten = (schd_set_src_ref_write_access_handler 0 20 (chars "LD/FSCH2") single).0

Steps-IsWellFormed_example : IsWellFormed (thread_round 6500 1 rewritten)
Steps-IsWellFormed_example =
    Steps-IsWellFormed
      (after (writes_reference 0 20 (chars "LD/FSCH2") single)
        (after (turns 6500 1 rewritten) done))
      single-IsWellFormed

unknown :
    (schd_set_src_ref_write_access_handler 0 20 (chars "LD/none") single).1 ≢ success_no_update
unfolding schd_set_src_ref_write_access_handler get_schedule_by_obj_ref find_schedule
unknown h = cc h

reference_write_refused_example :
    (schd_set_src_ref_write_access_handler 0 20 (chars "LD/none") single).0 ≡ single
reference_write_refused_example = reference_write_refused 0 20 (chars "LD/none") single unknown

reference_write-connects_example :
    ((schd_set_src_ref_write_access_handler 0 20 (chars "LD/FSCH2") single).1 ≡ success_no_update)
    × (contains 1 (listed rewritten 0) ≡ true)
    × (contains 0 (known rewritten 1) ≡ true)
unfolding contains
reference_write-connects_example =
    reference_write-connects 0 1 20 (chars "LD/FSCH2") single found refl

replaced-still_active_example :
    (contains 0 (listed rewritten 0) ≡ false)
    × (active rewritten 0 ≡ some 0)
    × ((schedule_value_updated 0 0 (some (number 22)) 6500 rewritten).target_values
        ≡ rewritten.target_values
          ++ target_calls rewritten.target_value_handler
              (rewritten.controller 0).control_entity
              (rewritten.schedule 0).target_type
              (some (number 22))
              6500)
unfolding contains
replaced-still_active_example =
    replaced-still_active 0 1 20 (chars "LD/FSCH2") single 0 (some (number 22)) 6500
      single-IsWellFormed found refl found_first refl refl
