-- ===== src/Workflows/Examples.antt =====
-- Runs of workflows/runner.py: a workflow whose events run out, and the compensations of two steps.
use asoe.Prelude.{◌≡◌, refl, false, none, some, [], ◌∷◌}
use asoe.Prelude.Int.{pos}
use asoe.Value.{str, num}
use asoe.Pipeline.{duplicate_po}
use asoe.Pipeline.Graph.{Environment}
use asoe.Pipeline.Fixtures.{services, event, world}
use asoe.Workflows.{
  WorkflowStep, WorkflowDefinition, compensate, no_compensation, compensate_all, carry, run,
}
use asoe.Workflows.Saga.{EndsAs, run-IsEnding}

abbrev live : Environment
live = record { kill_switch = false; explain_mode = false }

abbrev check_step : WorkflowStep
check_step = record {
  step_id = "s1";
  intent = duplicate_po;
  description = "Duplicate check";
  input_mapping = [];
  compensation_recipe = some "ReplyDraft";
}

abbrev release_step : WorkflowStep
release_step = record check_step { step_id = "s2"; input_mapping = ("price", "new_price") ∷ [] }

abbrev two_steps : WorkflowDefinition
two_steps = record { workflow_id = "WF-1"; name = "Two"; steps = check_step ∷ release_step ∷ [] }

run-IsEnding_example :
    EndsAs services live two_steps
      (event ∷ [])
      two_steps.steps
      (run services live two_steps (event ∷ []) world)
run-IsEnding_example = run-IsEnding services live two_steps (event ∷ []) world

compensations_two :
    compensate_all (("s1", some "ReplyDraft") ∷ ("s2", none) ∷ ("s3", some "") ∷ [])
    ≡ no_compensation "s3" ∷ no_compensation "s2" ∷ compensate "s1" "ReplyDraft" ∷ []
unfolding compensate_all
compensations_two = refl

carried_price :
    carry
      (("price", "new_price") ∷ ("hold", "missing") ∷ [])
      (("new_price", num (pos 5)) ∷ [])
      (("channel", str "edi") ∷ [])
    ≡ ("channel", str "edi") ∷ ("price", num (pos 5)) ∷ []
unfolding carry
carried_price = refl
