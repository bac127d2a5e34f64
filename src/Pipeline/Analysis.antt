-- ===== src/Pipeline/Analysis.antt =====
-- orchestration/nodes.py, explain_only and build_analysis: the dry run's summary, and the check of
-- the audit's evidence that ends every run.
use asoe.Prelude.{String, Bool, true, false, Option, none, some, List, [], ◌∷◌, ◌++◌, if◌then◌else◌}
use asoe.Prelude.Dict.{Dict}
use asoe.Value.{Value}
use asoe.Pipeline.{
  Intent, duplicate_po, TerminalStatus, fail_to_human, manual_review_required,
  audit_context_missing, RecipeName, detect_duplicate, explain_only, build_analysis, ExecutionLog,
  Explanation, explained, contract_violated, contract_violated_first, fields_missing,
  fields_missing_first, GraphState, leave_plain, halt,
}
use asoe.Pipeline.Services.{Services}
use asoe.Pipeline.Execution.{verdict_of}

unfoldable pub do_explain_only : GraphState → GraphState
unfolding leave_plain halt
do_explain_only s =
    leave_plain explain_only
      (halt manual_review_required (explained (verdict_of s.shadow) s.selected_recipe) s)

-- the statuses that the check of the evidence leaves alone
abbrev pub is_exempt : Option TerminalStatus → Bool
is_exempt (some audit_context_missing) = true
is_exempt (some fail_to_human) = true
is_exempt _ = false

abbrev is_duplicate : Intent → Bool
is_duplicate duplicate_po = true
is_duplicate _ = false

-- outputs that are there, of the recipe on duplicates
abbrev duplicate_outputs : Option RecipeName → Option ExecutionLog → Dict Value
duplicate_outputs (some detect_duplicate) (some log) = log.outputs
duplicate_outputs _ _ = []

abbrev output_checks : Services → Dict Value → List String
output_checks v [] = []
output_checks v (o ∷ os) = v.output_offenders (o ∷ os)

-- what breaks the metadata contract of duplicate orders
unfoldable pub contract_offenders : Services → GraphState → List String
contract_offenders v s =
    if is_duplicate s.intent
    then v.metadata_offenders s.event.metadata
      ++ output_checks v (duplicate_outputs s.selected_recipe s.execution_log)
    else []

abbrev after : (Explanation → Explanation) → Explanation → Option Explanation → Explanation
after joined alone none = alone
after joined alone (some e) = joined e

unfoldable pub check_coverage : Services → GraphState → GraphState
unfolding leave_plain halt
check_coverage v s =
    let composed = v.compose_from_state s in
    let fields = composed.missing_audit_fields in
    if composed.should_route_to_audit_context_missing
    then leave_plain build_analysis (
        halt audit_context_missing
          (after (λ e. fields_missing e fields) (fields_missing_first fields) s.explanation) s)
    else leave_plain build_analysis s

unfoldable pub check_contract : Services → List String → GraphState → GraphState
unfolding check_coverage leave_plain halt
check_contract v [] s = check_coverage v s
check_contract v (o ∷ os) s = leave_plain build_analysis (
    halt audit_context_missing
      (after (λ e. contract_violated e (o ∷ os)) (contract_violated_first (o ∷ os)) s.explanation)
      s)

unfoldable pub do_build_analysis : Services → GraphState → GraphState
unfolding check_contract contract_offenders leave_plain
do_build_analysis v s =
    if is_exempt s.final_status
    then leave_plain build_analysis s
    else check_contract v (contract_offenders v s) s
