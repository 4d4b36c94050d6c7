-- ===== src/Example/Output.antt =====
-- What the queue of examples/scheduler_example1.c puts out.
use der_scheduling.Prelude.{
  ◌≡◌, refl, sym, ap, ◌∙◌, Option, none, some, List, [], ◌∷◌, ◌++◌, map, String, append_assoc,
  append_nil,
}
use der_scheduling.Platform.{Platform}
use der_scheduling.World.{TargetValue}
use der_scheduling.Example.{
  OutputData, Outputs, no_outputs, command, work_on, output_worker_round, output_data, enqueue,
  example_target_value_changed,
}

map-append : {A B : Type 0} (f : A → B) (xs ys : List A) → map f (xs ++ ys) ≡ map f xs ++ map f ys
map-append f [] ys = refl
map-append f (x ∷ xs) ys = ap (λ zs. f x ∷ zs) (map-append f xs ys)

-- What has been put out, with what waits in the queue.
abbrev all_commands : Outputs → List String
all_commands o = o.commands ++ map command o.queue

work-all_commands :
    (q : List OutputData) (o : Outputs) → q ≡ o.queue → all_commands (work_on q o) ≡ all_commands o
work-all_commands [] o e = refl
work-all_commands (d ∷ ds) o e =
    append_assoc o.commands (command d ∷ []) (map command ds)
    ∙ ap (λ ds. o.commands ++ map command ds) e

round-all_commands : (o : Outputs) → all_commands (output_worker_round o) ≡ all_commands o
unfolding output_worker_round
round-all_commands o = work-all_commands o.queue o refl

module _ ⦃lib : Platform⦄ where
  open lib use {Value}

  -- A call of the handler, or a round of the worker thread.
  pub data Action : Type 0 where
    receives : TargetValue → Action
    works : Action

  abbrev act : Action → Outputs → Outputs
  act (receives t) o = example_target_value_changed t o
  act works o = output_worker_round o

  unfoldable pub run : List Action → Outputs → Outputs
  run [] o = o
  run (a ∷ steps) o = run steps (act a o)

  abbrev command_of : String → Option Value → List String
  command_of ref none = []
  command_of ref (some v) = command (output_data ref v) ∷ []

  -- The commands of the calls that have a value, in order.
  unfoldable pub commands_of : List Action → List String
  commands_of [] = []
  commands_of (works ∷ steps) = commands_of steps
  commands_of (receives t ∷ steps) = command_of t.object_ref t.value ++ commands_of steps

  enqueue-all_commands :
      (ref : String) (v : Option Value) (o : Outputs)
      → all_commands (enqueue ref v o) ≡ all_commands o ++ command_of ref v
  enqueue-all_commands ref none o = sym (append_nil (all_commands o))
  enqueue-all_commands ref (some v) o =
      ap (λ ds. o.commands ++ ds) (map-append command o.queue (output_data ref v ∷ []))
      ∙ sym (append_assoc o.commands (map command o.queue) (command (output_data ref v) ∷ []))

  run-all_commands :
      (steps : List Action) (o : Outputs)
      → all_commands (run steps o) ≡ all_commands o ++ commands_of steps
  unfolding run commands_of example_target_value_changed
  run-all_commands [] o = sym (append_nil (all_commands o))
  run-all_commands (works ∷ steps) o =
      run-all_commands steps (output_worker_round o)
      ∙ ap (λ cs. cs ++ commands_of steps) (round-all_commands o)
  run-all_commands (receives t ∷ steps) o =
      run-all_commands steps (enqueue t.object_ref t.value o)
      ∙ ap (λ cs. cs ++ commands_of steps) (enqueue-all_commands t.object_ref t.value o)
      ∙ append_assoc (all_commands o) (command_of t.object_ref t.value) (commands_of steps)

  -- Whatever the order of calls of the handler and rounds of the worker thread, the commands that have
  -- been run and those of the waiting elements are together the commands of the calls that came with a
  -- value, each once and in the order of the calls.
  pub run-commands_of :
      (steps : List Action)
      → (run steps no_outputs).commands ++ map command (run steps no_outputs).queue
        ≡ commands_of steps
  run-commands_of steps = run-all_commands steps no_outputs
