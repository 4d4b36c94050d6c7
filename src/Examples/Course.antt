-- ===== src/Examples/Course.antt =====
-- The theorems on the course of an execution at the plant: two entries of a second from 5000 on.
use der_scheduling.Prelude.{ℕ, ◌+◌, ◌*◌, ◌<◌, ◌≤◌, ◌≡◌, ◌↔◌, refl, [], ◌∷◌, arith}
use der_scheduling.Prelude.Int.{pos}
use der_scheduling.World.{ScheduleState}
use der_scheduling.Schedule.Thread.{running_round}
use der_scheduling.Schedule.Thread.Output.{PutsOut}
use der_scheduling.Schedule.Thread.Course.{
  IsExecution, running_rounds, running_rounds-entry, running_round_iff,
}
use der_scheduling.Examples.Toy.{toy}
use der_scheduling.Examples.Plant.{plant}

executing : IsExecution ((plant 4 3 9000).schedule 0) 5000 1000 2
executing = record {
  starts = refl;
  duration = refl;
  entries = refl;
  some_duration = omega arith;
  duration_fits = omega arith;
  entries_fit = omega arith;
}

running_rounds-entry_example :
    ((running_round 6900 0 (running_rounds (5100 ∷ 5200 ∷ []) 0 (plant 4 3 9000))).1
      ≡ ScheduleState.running)
    × ((k : ℕ) × (((running_round 6900 0
              (running_rounds (5100 ∷ 5200 ∷ []) 0 (plant 4 3 9000))).0.schedule
            0).current_entry_idx
          ≡ pos k)
        × (5000 + k * 1000 ≤ 6900)
        × (6900 < 5000 + k * 1000 + 1000)
        × PutsOut 6900 0 k
            (running_rounds (5100 ∷ 5200 ∷ []) 0 (plant 4 3 9000))
            (running_round 6900 0 (running_rounds (5100 ∷ 5200 ∷ []) 0 (plant 4 3 9000))).0)
running_rounds-entry_example =
    running_rounds-entry 5000 1000 2 0 (5100 ∷ 5200 ∷ []) 6900 (plant 4 3 9000) executing
      ((omega arith, omega arith, omega arith), ((omega arith, omega arith, omega arith), tt))
      (omega arith, omega arith, omega arith)

running_round_iff_example :
    ((running_round 7000 0 (plant 4 3 9000)).1 ≡ ScheduleState.running) ↔ (7000 < 5000 + 2 * 1000)
running_round_iff_example =
    running_round_iff 5000 1000 2 7000 0 (plant 4 3 9000) executing (omega arith) (omega arith)
      (omega arith)
