-- ===== src/Pipeline/Graph/Examples.antt =====
-- Runs of orchestration/graph.py on one event about a duplicate order, and its gates at concrete
-- answers.
use asoe.Prelude.{
  ◌+◌, ◌≤◌, ◌≡◌, ◌≢◌, ◌⊎◌, inl, refl, String, Bool, true, false, none, some, [], ◌∷◌, arith, eq_iff,
  length,
}
use mathlib.Core.List.Perm
use asoe.Gateway.{GatewayResponse, GatewayStatus, failed}
use asoe.Pipeline.Execution.{gate_submit}
use asoe.Pipeline.{
  Explanation, manual_order_intake, email_order_entry, complete, fail_to_human, green, GraphState,
  ShadowLlmVerdict, disagree_downgrade,
}
use asoe.Prelude.{Option}
use asoe.Pipeline.{credit_block, IntentDecision, LlmCallTrace}
use asoe.Pipeline.Services.{Services}
use asoe.Pipeline.Fixtures.{state, services, world}
use asoe.Pipeline.Registry.{GatewayDependency}
use asoe.Pipeline.Evidence.{gather}
use asoe.Pipeline.Audit.{combine_verdicts}
use asoe.Pipeline.Graph.{Environment, invoke, run_graph}
use asoe.Pipeline.Graph.Ends.{EndsWith}
use asoe.Pipeline.Graph.Frame.{IsIdle}
use asoe.Pipeline.Graph.Verdict.{HasEnded, IsGreen, IsIncomplete}
use asoe.Pipeline.Graph.Safety.{run_graph-gated, run_graph-explain}
use asoe.Pipeline.Graph.Ledger.{run_graph-accounted}
use asoe.Pipeline.Graph.Gates.{gather-Perm, severity, combine_verdicts-severity}
use asoe.Pipeline.Graph.Breach.{invoke-breach}
use asoe.Pipeline.Graph.Clean.{IsClean}
use asoe.Pipeline.Fallback.{cross_check, same_intent, classify_intent}
use asoe.Pipeline.Intake.{do_ingest}
use asoe.Pipeline.Graph.Disagreement.{invoke-disagreement}
use asoe.Pipeline.Graph.Completion.{invoke-complete}

abbrev live : Environment
live = record { kill_switch = false; explain_mode = false }

incomplete : state.final_status ≢ some complete
incomplete = λ c. ground (arith, c)

run_graph-gated_example :
    EndsWith
      (λ s w. HasEnded s × ((IsIdle state world s w × IsIncomplete s) ⊎ IsGreen s.shadow))
      (run_graph services live none state world)
run_graph-gated_example = run_graph-gated services live none state world incomplete

run_graph-explain_example :
    EndsWith
      (λ s w. HasEnded s × (IsIdle state world s w × IsIncomplete s))
      (run_graph services live (some true) state world)
run_graph-explain_example = run_graph-explain services live state world incomplete

invoke-complete_example :
    EndsWith
      (λ s w. (s.final_status ≢ some complete) ⊎ IsClean s)
      (invoke services false state world)
invoke-complete_example = invoke-complete services false state world incomplete

-- the alias of the intake recipe is not kept back
alias_completes :
    (e : Explanation)
    → gate_submit manual_order_intake (some email_order_entry) (complete, e) ≡ (complete, e)
unfolding gate_submit
alias_completes e = refl

run_graph-accounted_example :
    EndsWith
      (λ s w.
        length w.outbox + length state.effect_results
        ≡ length world.outbox + length s.effect_results)
      (run_graph services live none state world)
run_graph-accounted_example = run_graph-accounted services live none state world

abbrev busy : GraphState
busy = record state { update_count = 50 }

invoke-breach_example :
    EndsWith
      (λ s w.
        (s.final_status ≡ some fail_to_human)
        × (s.selected_recipe ≡ busy.selected_recipe)
        × IsIdle busy world s w)
      (invoke services false busy world)
invoke-breach_example =
    invoke-breach services false busy world (λ e. cc ((eq_iff "PO-1" "").1 e)) (inl (omega arith))

abbrev read_of : String → Bool → GatewayDependency
read_of key required = record {
  gateway_name = "oms";
  operation = key;
  params_from_state = [];
  result_key = key;
  required_for_audit = required;
}

abbrev answer : GatewayStatus → GatewayResponse
answer status = record {
  gateway_name = "oms";
  operation = "read";
  status = status;
  payload = [];
  error = none;
  duration_ms = none;
}

abbrev soft_failure : GatewayDependency × GatewayResponse
soft_failure = (read_of "a" false, answer failed)

abbrev hard_failure : GatewayDependency × GatewayResponse
hard_failure = (read_of "b" true, answer failed)

gather-Perm_example :
    (gather [] (soft_failure ∷ hard_failure ∷ []) state).final_status
    ≡ (gather [] (hard_failure ∷ soft_failure ∷ []) state).final_status
gather-Perm_example =
    gather-Perm (soft_failure ∷ hard_failure ∷ []) (hard_failure ∷ soft_failure ∷ []) state
      (Perm.swap hard_failure soft_failure [])

abbrev objection : ShadowLlmVerdict
objection = record {
  action = disagree_downgrade;
  reason = "amount";
  policy_concerns = [];
  model_id = "shadow-1";
}

combine_verdicts-severity_example :
    (severity green ≤ severity (combine_verdicts green (some objection) 9 (some 5)))
    × (severity (combine_verdicts green (some objection) 9 (some 5)) ≤ severity green + 1)
combine_verdicts-severity_example = combine_verdicts-severity green (some objection) 9 (some 5)

-- a language model that takes every event for a credit block
abbrev credit_model : GraphState → IntentDecision × Option LlmCallTrace
credit_model s = (record { intent = credit_block; confidence = 900000 }, none)

abbrev with_model : Services
with_model = record services { intent_backend = some credit_model }

invoke-disagreement_example :
    EndsWith
      (λ s w.
        HasEnded s
        × (s.selected_recipe ≡ state.selected_recipe)
        × (IsIdle state world s w × IsIncomplete s))
      (invoke with_model false state world)
unfolding cross_check same_intent classify_intent do_ingest
invoke-disagreement_example =
    invoke-disagreement with_model false credit_model state world refl incomplete refl
