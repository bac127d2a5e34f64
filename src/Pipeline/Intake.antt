-- ===== src/Pipeline/Intake.antt =====
-- orchestration/nodes.py, from the arrival of an event to the choice of a recipe: ingest,
-- classify, load_skill, validate_circuit_breaker and select_recipe.
use asoe.Prelude.{
  ◌+◌, ◌*◌, Bool, true, false, not, ◌||◌, Option, none, some, List, [], ◌∷◌, ◌++◌, str_eq,
  if◌then◌else◌,
}
use asoe.Prelude.Int.{◌-ℤ◌, abs_ℤ}
use asoe.Pipeline.{
  Intent, fail_to_human, manual_review_required, RecipeName, ingest, classify, load_skill,
  validate_circuit_breaker, select_recipe, IntentDecision, LlmCallTrace, errored, ok,
  cross_check_disagreement, breach, directed, no_recipe, input_validation_failed,
  classification_disagreement, breaker_reasons, no_deterministic_recipe, GraphState, World,
  record_node, leave, leave_plain, halt,
}
use asoe.Pipeline.Services.{Services, draw_id}
use asoe.Pipeline.Fallback.{
  classify_intent, propose_recipe, compute_discrepancy, circuit_breaker, cross_check,
}

-- `_drain_llm_trace`
unfoldable pub drain_llm_trace : Option LlmCallTrace → GraphState → GraphState
drain_llm_trace none s = s
drain_llm_trace (some t) s = record s { llm_call_traces = s.llm_call_traces ++ t ∷ [] }

-- the stamp of a request id, where there is none
unfoldable pub stamp_trace_id : Services → GraphState → World → GraphState × World
unfolding draw_id
stamp_trace_id v s w =
    let (id, w') = draw_id v w in
    if str_eq s.request_trace_id "" then (record s { request_trace_id = id }, w') else (s, w)

unfoldable pub do_ingest : Services → GraphState → World → GraphState × World
unfolding stamp_trace_id record_node leave_plain halt ◌-ℤ◌
do_ingest v s w =
    let failed = halt fail_to_human input_validation_failed s in
    let (s', w') = stamp_trace_id v s w in
    let e = s.event in
    if str_eq e.order_id ""
    then (
      record failed {
        execution_trace =
            failed.execution_trace
            ++ record {
              node = ingest;
              status = errored;
              exit_verdict = none;
              policy_hits = [];
              sub_spans = [];
            }
              ∷ [];
      },
      w,
    )
    else (
      leave_plain ingest (record s' {
        update_count = s'.update_count + 1;
        batch_total_variance = abs_ℤ (e.po_price -ℤ e.sap_base_price) * e.line_count;
      }),
      w',
    )

-- the cross-check's outcome, set on the last entry
abbrev stamp_last : Bool → (llm det : Intent) → List LlmCallTrace → List LlmCallTrace
stamp_last b llm det [] = []
stamp_last b llm det (t ∷ []) =
    record t {
      cross_check_disagreement = some b;
      cross_check_llm_intent = some llm;
      cross_check_deterministic_intent = some det;
    }
    ∷ []
stamp_last b llm det (t ∷ (u ∷ ts)) = t ∷ stamp_last b llm det (u ∷ ts)

abbrev accept : IntentDecision → GraphState → GraphState
accept d s = record s { intent = d.intent; confidence = d.confidence }

-- the end of the node, by whether the two classifications agree
unfoldable pub route_check :
    (agreed : Bool) (winning llm det : IntentDecision) → GraphState → GraphState
unfolding leave halt
route_check true winning llm det s = leave classify ok (accept llm s)
route_check false winning llm det s = leave classify cross_check_disagreement (
    halt manual_review_required (classification_disagreement llm.intent det.intent)
      (accept winning s))

abbrev pub stamp_check : Bool → (llm det : IntentDecision) → GraphState → GraphState
stamp_check b llm det s = record s {
  llm_call_traces = stamp_last b llm.intent det.intent s.llm_call_traces;
}

-- a language model's classification, beside the deterministic one
unfoldable pub classify_checked : IntentDecision × Option LlmCallTrace → GraphState → GraphState
unfolding drain_llm_trace cross_check classify_intent route_check
classify_checked (llm, trace) s =
    let det = classify_intent s in
    let check = cross_check llm det in
    route_check check.agreed check.winning_decision llm det
      (stamp_check (not check.agreed) llm det (drain_llm_trace trace s))

-- by the backend that is active
unfoldable pub classify_by :
    Option (GraphState → IntentDecision × Option LlmCallTrace) → GraphState → GraphState
unfolding classify_checked classify_intent leave
classify_by none s = leave classify ok (accept (classify_intent s) s)
classify_by (some backend) s = classify_checked (backend s) s

unfoldable pub do_classify : Services → GraphState → GraphState
unfolding classify_by compute_discrepancy
do_classify v s =
    classify_by v.intent_backend (record s {
      discrepancy = some (compute_discrepancy s.event.po_price s.event.sap_base_price);
    })

unfoldable pub do_load_skill : Services → GraphState → GraphState
unfolding leave_plain
do_load_skill v s =
    leave_plain load_skill
      (record s { skill = v.select_for_event s.event.event_type s.event.metadata })

unfoldable pub do_validate_circuit_breaker : GraphState → GraphState
unfolding circuit_breaker leave halt
do_validate_circuit_breaker s =
    let d = circuit_breaker s.update_count s.batch_total_variance in
    if d.too_many_updates || d.too_much_variance
    then leave validate_circuit_breaker breach
        (halt fail_to_human (breaker_reasons d.too_many_updates d.too_much_variance) s)
    else leave validate_circuit_breaker ok s

-- the proposal of the active backend
unfoldable pub propose_by :
    Option (GraphState → Option RecipeName × Option LlmCallTrace)
    → GraphState
    → Option RecipeName × Option LlmCallTrace
unfolding propose_recipe
propose_by none s = (propose_recipe s.intent, none)
propose_by (some backend) s = backend s

unfoldable pub select_proposed : Option RecipeName → GraphState → GraphState
unfolding leave
select_proposed none s =
    leave select_recipe no_recipe (record s { explanation = some no_deterministic_recipe })
select_proposed (some r) s = leave select_recipe ok (record s { selected_recipe = some r })

unfoldable pub select_by : Services → Option RecipeName → GraphState → GraphState
unfolding propose_by select_proposed drain_llm_trace leave
select_by v (some r) s = leave select_recipe directed (record s { selected_recipe = some r })
select_by v none s =
    let (proposal, trace) = propose_by v.recipe_backend s in
    select_proposed proposal (drain_llm_trace trace s)

unfoldable pub do_select_recipe : Services → GraphState → GraphState
unfolding select_by
do_select_recipe v s = select_by v s.directed_recipe s
