-- ===== src/Examples/Output.antt =====
-- Two target values and one round of the worker thread.
use der_scheduling.Prelude.{◌≡◌, refl, some, List, [], ◌∷◌, ◌++◌, map, String}
use der_scheduling.Platform.{good}
use der_scheduling.World.{TargetValue}
use der_scheduling.Example.{no_outputs, command, example_target_value_changed, output_worker_round}
use der_scheduling.Example.Output.{Action, receives, works, run, commands_of, run-commands_of}
use der_scheduling.Examples.Toy.{toy, chars}

abbrev a_call : String → TargetValue
a_call text = record {
  object_ref = "DER_MV1";
  value = some (chars text);
  quality = good;
  timestamp = 7000;
}

abbrev two_calls : List Action
two_calls = receives (a_call "1.5") ∷ receives (a_call "2.5") ∷ works ∷ []

first_command : (run two_calls no_outputs).commands ≡ "./set_output.sh DER_MV1 1.5" ∷ []
unfolding run example_target_value_changed output_worker_round command
first_command = refl

run-commands_of_example :
    (run two_calls no_outputs).commands ++ map command (run two_calls no_outputs).queue
    ≡ commands_of two_calls
run-commands_of_example = run-commands_of two_calls
