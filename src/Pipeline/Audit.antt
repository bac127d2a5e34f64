-- ===== src/Pipeline/Audit.antt =====
-- compliance/shadow.py, compliance/shadow_llm.py (`combine_verdicts`) and the shadow_audit node of
-- orchestration/nodes.py: the verdict that stands between a proposal and its execution, and the
-- second opinion on it.
use asoe.Prelude.{
  ℕ, String, Bool, true, false, ◌&&◌, Option, none, some, [], ◌∷◌, ◌++◌, leb, max, if◌then◌else◌,
}
use asoe.Prelude.Int.{pos_part}
use asoe.Value.{Value, num, bool, get_value}
use asoe.Pipeline.{
  ShadowStatus, green, yellow, red, TerminalStatus, blocked, manual_review_required, shadow_audit,
  ShadowLlmVerdict, LlmAction, disagree_downgrade, ComplianceDecision, LlmCallTrace, ExitVerdict,
  green_exit, yellow_exit, red_exit, shadow_returned, GraphState, World, record_node, halt,
}
use asoe.Pipeline.Services.{Services, SecondOpinion, ShadowDecision, draw_id}
use asoe.Pipeline.Intake.{drain_llm_trace}

abbrev downgrades : LlmAction → Bool
downgrades disagree_downgrade = true
downgrades _ = false

unfoldable pub combine_verdicts :
    ShadowStatus → Option ShadowLlmVerdict → (impact : ℕ) → (threshold : Option ℕ) → ShadowStatus
combine_verdicts base v impact none = base
combine_verdicts red v impact (some t) = red
combine_verdicts base none impact (some t) = base
combine_verdicts yellow (some v) impact (some t) = yellow
combine_verdicts green (some v) impact (some t) =
    if downgrades v.action && leb t impact then yellow else green

-- an amount that the event states itself, where it is a number; True counts as 1
abbrev explicit_impact : Value → ℕ
explicit_impact (num z) = pos_part z
explicit_impact (bool true) = 1000000
explicit_impact _ = 0

unfoldable pub estimate_financial_impact_usd : GraphState → ℕ
estimate_financial_impact_usd s =
    max s.batch_total_variance (explicit_impact (get_value "financial_impact_usd" s.event.metadata))

unfoldable pub same_verdict : ShadowStatus → ShadowStatus → Bool
same_verdict green green = true
same_verdict yellow yellow = true
same_verdict red red = true
same_verdict _ _ = false

-- the decision under a second opinion; a verdict that it moves says why (the prefix `LLM_SHADOW`
-- of the texts that it adds is left out)
unfoldable pub with_opinion :
    ShadowStatus → ShadowLlmVerdict → ComplianceDecision → ComplianceDecision
unfolding same_verdict
with_opinion new_status v d =
    if same_verdict new_status d.status
    then record d { llm_shadow_verdict = some v }
    else record d {
      status = new_status;
      reasons = d.reasons ++ v.reason ∷ [];
      policy_hits = d.policy_hits ++ v.policy_concerns;
      llm_shadow_verdict = some v;
    }

abbrev opinion_trace : String → LlmCallTrace
opinion_trace model = record {
  task = "shadow_llm";
  model_id = model;
  cross_check_disagreement = none;
  cross_check_llm_intent = none;
  cross_check_deterministic_intent = none;
}

unfoldable pub stamp_opinion :
    SecondOpinion → ComplianceDecision → ℕ → Option ShadowLlmVerdict → GraphState → GraphState
unfolding combine_verdicts with_opinion
stamp_opinion o d impact none s = s
stamp_opinion o d impact (some v) s =
    let new_status = combine_verdicts d.status (some v) impact o.financial_impact_threshold_usd in
    record s {
      shadow = some (with_opinion new_status v d);
      llm_call_traces = s.llm_call_traces ++ opinion_trace v.model_id ∷ [];
    }

-- `_invoke_l2_shadow_observe_only`
unfoldable pub invoke_l2_shadow :
    Option SecondOpinion → ComplianceDecision → GraphState → GraphState
unfolding stamp_opinion estimate_financial_impact_usd
invoke_l2_shadow none d s = s
invoke_l2_shadow (some o) d s =
    let impact = estimate_financial_impact_usd s in stamp_opinion o d impact (o.evaluate s impact) s

-- `ComplianceShadow.audit`
unfoldable pub audit : String → ShadowDecision → ComplianceDecision
audit id raw = record {
  status = raw.status;
  trace_id = id;
  reasons = raw.reasons;
  policy_hits = raw.policy_hits;
  llm_shadow_verdict = none;
}

-- `ComplianceShadow.enforce`: the terminal status that a verdict leads to, none where it lets pass
unfoldable pub enforce : ShadowStatus → Option TerminalStatus
enforce red = some blocked
enforce yellow = some manual_review_required
enforce green = none

abbrev exit_of : ShadowStatus → ExitVerdict
exit_of red = red_exit
exit_of yellow = yellow_exit
exit_of green = green_exit

unfoldable pub enforce_on : Option TerminalStatus → ComplianceDecision → GraphState → GraphState
unfolding record_node halt
enforce_on none d s = record_node shadow_audit (some (exit_of d.status)) d.policy_hits [] s
enforce_on (some t) d s =
    record_node shadow_audit (some (exit_of d.status)) d.policy_hits []
      (halt t (shadow_returned d.status d.reasons) s)

unfoldable pub enforce_shadow : Option ComplianceDecision → GraphState → GraphState
unfolding enforce_on enforce
enforce_shadow none s = s
enforce_shadow (some d) s = enforce_on (enforce d.status) d s

unfoldable pub do_shadow_audit : Services → GraphState → World → GraphState × World
unfolding audit drain_llm_trace invoke_l2_shadow enforce_shadow draw_id
do_shadow_audit v s w =
    let (raw, trace) = v.shadow_backend s in
    let (id, w') = draw_id v w in
    let d = audit id raw in
    let audited = drain_llm_trace trace (record s { shadow = some d }) in
    let advised = invoke_l2_shadow v.second_opinion d audited in
    (enforce_shadow advised.shadow advised, w')
