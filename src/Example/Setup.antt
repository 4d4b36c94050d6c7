-- ===== src/Example/Setup.antt =====
-- The calls by which examples/scheduler_example1.c sets the scheduler up are steps of the program.
use der_scheduling.Prelude.{ℕ, true, false}
use der_scheduling.Platform.{Platform}
use der_scheduling.World.{World}
use der_scheduling.Scheduler.{ScheduleParameter}
use der_scheduling.Scheduler.Create.{scheduler_create}
use der_scheduling.Example.{actpow_ref, maxpow_ref, onoff_ref, setup, example_main}
use der_scheduling.System.Reachable.{
  Steps, after, user_enables, user_allows_control, user_allows_writes, user_sets_handler,
  user_sets_storage,
}
use der_scheduling.System.Created.{Unlinked}
use der_scheduling.System.Initial.{Linked}
use der_scheduling.System.Program.{scheduler_create-Steps-Linked}

module _ ⦃lib : Platform⦄ where
  -- The set-up, and then other steps.
  pub setup_then : (now : ℕ) (w : World) {w' : World} → Steps (setup now w) w' → Steps w w'
  unfolding setup
  setup_then now w steps = after (user_sets_handler true _) (
      after (user_allows_control actpow_ref false _) (
        after (user_allows_control maxpow_ref false _) (
          after (user_allows_control onoff_ref false _) (
            after (user_allows_writes actpow_ref ScheduleParameter.str_tm false _) (
              after (user_allows_writes actpow_ref ScheduleParameter.schd_prio false _) (
                after (user_allows_writes maxpow_ref ScheduleParameter.str_tm false _) (
                  after (user_allows_writes maxpow_ref ScheduleParameter.schd_prio false _) (
                    after (user_allows_writes onoff_ref ScheduleParameter.str_tm false _) (
                      after (user_allows_writes onoff_ref ScheduleParameter.schd_prio false _) (
                        after (user_enables now actpow_ref true _) (
                          after (user_enables now maxpow_ref true _) (
                            after (user_enables now onoff_ref true _) (
                              after (user_sets_storage now "scheduler-db.json" _) steps)))))))))))))

  -- In every state that the set-up program reaches, every schedule knows each controller that lists it
  -- or has it as its active schedule, if the structs were empty before.
  example_main-Linked :
      (fuel now : ℕ) (w : World) {w' : World}
      → Unlinked w
      → Steps (example_main fuel now w) w'
      → Linked w'
  unfolding example_main
  example_main-Linked fuel now w h steps =
      scheduler_create-Steps-Linked fuel now w h
        (setup_then now (scheduler_create fuel now w) steps)
