-- ===== src/Pipeline/Execution.antt =====
-- recipes/executor.py (`RecipeExecutor.run`), contracts/autonomy.py and the execute_recipe node of
-- orchestration/nodes.py: the recipe is run, and its result becomes the terminal status.
use asoe.Prelude.{
  ℕ, String, Bool, true, false, ◌&&◌, Option, none, some, List, [], ◌∷◌, leb, str_eq, any_of,
  or_else, if◌then◌else◌,
}
use asoe.Prelude.Dict.{Dict, insert}
use asoe.Value.{Value, str, get_value, is_null, truthy}
use asoe.Pipeline.{
  Intent, manual_order_intake, ShadowStatus, TerminalStatus, complete, fail_to_human,
  manual_review_required, blocked, rejected, RecipeName, intake, execute_recipe, ComplianceDecision,
  RecipeInvocation, ExecutionLog, Explanation, no_invocation, recipe_errors, autonomy_needs_human,
  recipe_reason, executed, submit_gated, GraphState, World, leave_plain, halt,
}
use asoe.Pipeline.Registry.{get_recipe}
use asoe.Pipeline.Services.{Services, RecipeOutcome, returned, raised, draw_id}
use asoe.Pipeline.Fallback.{is_text}

-- `_RANKS` and `autonomy_rank`, `none` where it raises; a higher rank is more autonomous
unfoldable pub autonomy_rank : (level vocab_version : String) → Option ℕ
autonomy_rank level version =
    if str_eq version "v1"
    then (if str_eq level "L1"
        then some 0
        else if str_eq level "L2"
        then some 1
        else if str_eq level "L3"
        then some 2
        else if str_eq level "L4"
        then some 3
        else none)
    else if str_eq version "v2"
    then (if str_eq level "L1"
        then some 3
        else if str_eq level "L2"
        then some 2
        else if str_eq level "L3"
        then some 1
        else if str_eq level "L4"
        then some 0
        else none)
    else none

-- the required parameters that are absent or None
abbrev missing : List String → Dict Value → Bool
missing keys params = any_of (λ k. is_null (get_value k params)) keys

-- what the run of a recipe leaves: the outputs and the errors
unfoldable pub run_recipe : Services → RecipeName → Dict Value → Dict Value × List String
unfolding get_recipe
run_recipe v r params =
    if missing (get_recipe r).required_params params
    then ([], "Missing required parameters" ∷ [])
    else settle (v.recipe_func r params)
  where
    settle : RecipeOutcome → Dict Value × List String
    settle (returned outputs) = (outputs, [])
    settle (raised text) = ([], text ∷ [])

abbrev hits_of : Option ComplianceDecision → List String
hits_of none = []
hits_of (some d) = d.policy_hits

abbrev pub verdict_of : Option ComplianceDecision → Option ShadowStatus
verdict_of none = none
verdict_of (some d) = some d.status

-- `trace_id or str(uuid4())`
abbrev log_trace_id : Option ComplianceDecision → String → String
log_trace_id none fresh = fresh
log_trace_id (some d) fresh = if str_eq d.trace_id "" then fresh else d.trace_id

-- the ranks up to 1 ask for a human; a level that is unknown does not
abbrev rank_needs_human : Option ℕ → Bool
rank_needs_human none = false
rank_needs_human (some n) = leb n 1

abbrev level_of : Value → String
level_of (str s) = s
level_of _ = ""

unfoldable pub requires_human : Value → Bool
unfolding autonomy_rank
requires_human autonomy =
    truthy autonomy && rank_needs_human (autonomy_rank (level_of autonomy) "v2")

-- the outputs, with the vocabulary's version where a level is given
unfoldable pub stamp_vocab : Dict Value → Dict Value
stamp_vocab outputs =
    if truthy (get_value "autonomy_level" outputs)
    then insert "autonomy_vocab_version" (str "v2") outputs
    else outputs

-- the terminal status that the outputs lead to: the autonomy level first, then the recipe's own
-- status, and any other status is completion
unfoldable pub route_outputs : Dict Value → TerminalStatus × Explanation
unfolding requires_human
route_outputs outputs =
    let autonomy = get_value "autonomy_level" outputs in
    let status = get_value "status" outputs in
    let reason = recipe_reason (get_value "reason" outputs) in
    if requires_human autonomy
    then (
      manual_review_required,
      autonomy_needs_human autonomy (get_value "recommended_action" outputs),
    )
    else if is_text "FAILED" status
    then (fail_to_human, reason)
    else if is_text "BLOCKED" status
    then (blocked, reason)
    else if is_text "REJECTED" status
    then (rejected, reason)
    else if is_text "REVIEW_REQUIRED" status
    then (manual_review_required, reason)
    else (complete, executed)

abbrev pub is_intake : Intent → Bool
is_intake manual_order_intake = true
is_intake _ = false

abbrev pub is_intake_recipe : Option RecipeName → Bool
is_intake_recipe (some intake) = true
is_intake_recipe _ = false

-- a clean intake waits for the operator
unfoldable pub gate_submit :
    Intent → Option RecipeName → TerminalStatus × Explanation → TerminalStatus × Explanation
gate_submit i r (complete, e) =
    if is_intake i && is_intake_recipe r
    then (manual_review_required, submit_gated)
    else (complete, e)
gate_submit i r (t, e) = (t, e)

abbrev pub route_log :
    Intent → Option RecipeName → Dict Value × List String → TerminalStatus × Explanation
unfolding gate_submit route_outputs
route_log i r (outputs, []) = gate_submit i r (route_outputs outputs)
route_log i r (outputs, e ∷ es) = (fail_to_human, recipe_errors (e ∷ es))

abbrev stamped_outputs : Dict Value × List String → Dict Value
unfolding stamp_vocab
stamped_outputs (outputs, []) = stamp_vocab outputs
stamped_outputs (outputs, e ∷ es) = outputs

-- the audit log of the run
unfoldable pub log_of :
    RecipeInvocation → Dict Value × List String → String → GraphState → ExecutionLog
unfolding stamp_vocab
log_of i result fresh s = record {
  trace_id = log_trace_id s.shadow fresh;
  recipe_name = i.recipe_name;
  inputs = i.params;
  outputs = stamped_outputs result;
  errors = result.1;
  intent_selected = s.intent;
  shadow_policy_hits = hits_of s.shadow;
  skill_name = s.skill;
  shadow_verdict = verdict_of s.shadow;
}

-- the terminal status and the log, from what the recipe left
unfoldable pub finish_execution :
    RecipeInvocation → Dict Value × List String → String → GraphState → GraphState
unfolding leave_plain halt gate_submit route_outputs log_of
finish_execution i result fresh s =
    let (status, explanation) = route_log s.intent s.selected_recipe result in
    leave_plain execute_recipe
      (halt status explanation (record s { execution_log = some (log_of i result fresh s) }))

unfoldable pub execute_for :
    Services → Option RecipeInvocation → GraphState → World → GraphState × World
unfolding run_recipe leave_plain halt draw_id finish_execution
execute_for v none s w =
    (leave_plain execute_recipe (halt fail_to_human (or_else s.explanation no_invocation) s), w)
execute_for v (some i) s w =
    let (fresh, w') = draw_id v w in
    (finish_execution i (run_recipe v i.recipe_name i.params) fresh s, w')

unfoldable pub do_execute_recipe : Services → GraphState → World → GraphState × World
unfolding execute_for
do_execute_recipe v s w = execute_for v s.invocation s w
