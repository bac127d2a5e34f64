-- ===== src/Pipeline/Graph/Verdict.antt =====
-- The verdict of shadow_audit (orchestration/nodes.py) at the gate behind it, and in the nodes that
-- follow.
use asoe.Prelude.{
  ℕ, String, ◌≡◌, ◌≢◌, refl, ap, ◌∙◌, true, inl, inr, Option, none, some, arith, is_some, List, [],
  ◌∷◌, Bool-cases,
}
use asoe.Pipeline.{
  complete, ShadowStatus, green, yellow, red, ComplianceDecision, ShadowLlmVerdict, LlmCallTrace,
  RecipeInvocation, GraphState, World, record_node, leave_plain, halt, RecipeName, ExecutionLog,
}
use asoe.Value.{Value}
use asoe.Prelude.Dict.{Dict}
use asoe.Pipeline.Registry.{GatewayEffect, get_recipe}
use asoe.Pipeline.Services.{Services, SecondOpinion, draw_id}
use asoe.Pipeline.Audit.{
  stamp_opinion, estimate_financial_impact_usd, enforce, enforce_on, enforce_shadow,
  do_shadow_audit, audit, invoke_l2_shadow,
}
use asoe.Pipeline.Intake.{drain_llm_trace}
use asoe.Pipeline.Execution.{execute_for, finish_execution}
use asoe.Pipeline.Effects.{
  note_response, apply_effect, try_effect, apply_all, apply_for, do_apply_effects,
}
use asoe.Pipeline.Analysis.{
  check_coverage, check_contract, do_build_analysis, contract_offenders, is_exempt,
}

abbrev pub IsGreen : Option ComplianceDecision → Type 0
IsGreen d = (c : ComplianceDecision) × ((d ≡ some c) × (c.status ≡ green))

abbrev pub HasEnded : GraphState → Type 0
HasEnded s = is_some s.final_status ≡ true

abbrev pub IsIncomplete : GraphState → Type 0
IsIncomplete s = s.final_status ≢ some complete

enforce_on-IsGreen :
    (c : ShadowStatus) (d : ComplianceDecision) (s : GraphState)
    → s.shadow ≡ some d
    → d.status ≡ c
    → (enforce_on (enforce c) d s).final_status ≡ none
    → IsGreen (enforce_on (enforce c) d s).shadow
unfolding enforce_on enforce record_node halt
enforce_on-IsGreen green d s e g h = (d, (e, g))
enforce_on-IsGreen yellow d s e g h = ground (arith, h)
enforce_on-IsGreen red d s e g h = ground (arith, h)

enforce_shadow-IsGreen :
    (d : Option ComplianceDecision) (s : GraphState)
    → s.shadow ≡ d
    → is_some d ≡ true
    → (enforce_shadow d s).final_status ≡ none
    → IsGreen (enforce_shadow d s).shadow
unfolding enforce_shadow
enforce_shadow-IsGreen none s e g h = ground (arith, g)
enforce_shadow-IsGreen (some d) s e g h = enforce_on-IsGreen d.status d s e refl h

drain-shadow : (t : Option LlmCallTrace) (s : GraphState) → (drain_llm_trace t s).shadow ≡ s.shadow
unfolding drain_llm_trace
drain-shadow none s = refl
drain-shadow (some t) s = refl

stamp_opinion-shadow :
    (o : SecondOpinion) (d : ComplianceDecision) (n : ℕ) (a : Option ShadowLlmVerdict)
    (s : GraphState)
    → is_some s.shadow ≡ true
    → is_some (stamp_opinion o d n a s).shadow ≡ true
unfolding stamp_opinion
stamp_opinion-shadow o d n none s h = h
stamp_opinion-shadow o d n (some a) s h = refl

invoke_l2-shadow :
    (o : Option SecondOpinion) (d : ComplianceDecision) (s : GraphState)
    → is_some s.shadow ≡ true
    → is_some (invoke_l2_shadow o d s).shadow ≡ true
unfolding invoke_l2_shadow
invoke_l2-shadow none d s h = h
invoke_l2-shadow (some o) d s h =
    let impact = estimate_financial_impact_usd s in
    stamp_opinion-shadow o d impact (o.evaluate s impact) s h

pub audit-IsGreen :
    (v : Services) (s : GraphState) (w : World)
    → (do_shadow_audit v s w).0.final_status ≡ none
    → IsGreen (do_shadow_audit v s w).0.shadow
unfolding do_shadow_audit draw_id
audit-IsGreen v s w h =
    let (raw, trace) = v.shadow_backend s in
    let d = audit (v.fresh_id w.ticks) raw in
    let drained = drain_llm_trace trace (record s { shadow = some d }) in
    let there = ap is_some (drain-shadow trace (record s { shadow = some d })) in
    let advised = invoke_l2_shadow v.second_opinion d drained in
    enforce_shadow-IsGreen advised.shadow advised refl
      (invoke_l2-shadow v.second_opinion d drained there) h

pub execute-keeps :
    (v : Services) (i : Option RecipeInvocation) (s : GraphState) (w : World)
    → let s' = (execute_for v i s w).0 in HasEnded s' × (s'.shadow ≡ s.shadow)
unfolding execute_for finish_execution draw_id leave_plain record_node halt
execute-keeps v none s w = (refl, refl)
execute-keeps v (some i) s w = (refl, refl)

-- the same verdict and the same terminal status
abbrev pub Keeps : GraphState → GraphState → Type 0
Keeps s s' = (s'.shadow ≡ s.shadow) × (s'.final_status ≡ s.final_status)

pub try_effect-Keeps :
    (v : Services) (name : RecipeName) (outputs : Dict Value) (e : GatewayEffect) (s : GraphState)
    (w : World)
    → Keeps s (try_effect v name outputs e s w).0
unfolding try_effect apply_effect note_response
try_effect-Keeps v name outputs e s w = (ground arith, ground arith)

apply_all-Keeps :
    (v : Services) (name : RecipeName) (outputs : Dict Value) (es : List GatewayEffect)
    (s : GraphState) (w : World)
    → Keeps s (apply_all v name outputs es s w).0
unfolding apply_all
apply_all-Keeps v name outputs [] s w = (refl, refl)
apply_all-Keeps v name outputs (e ∷ es) s w =
    let (s', w') = try_effect v name outputs e s w in
    let (shadow, final) = try_effect-Keeps v name outputs e s w in
    let (shadow', final') = apply_all-Keeps v name outputs es s' w' in
    (shadow' ∙ shadow, final' ∙ final)

apply_for-Keeps :
    (v : Services) (r : Option RecipeName) (l : Option ExecutionLog) (s : GraphState) (w : World)
    → Keeps s (apply_for v r l s w).0
unfolding apply_for
apply_for-Keeps v (some r) (some l) s w = apply_all-Keeps v r l.outputs (get_recipe r).effects s w
apply_for-Keeps v (some r) none s w = (refl, refl)
apply_for-Keeps v none l s w = (refl, refl)

pub apply-Keeps : (v : Services) (s : GraphState) (w : World) → Keeps s (do_apply_effects v s w).0
unfolding do_apply_effects leave_plain record_node
apply-Keeps v s w = apply_for-Keeps v s.selected_recipe s.execution_log s w

contract-keeps :
    (v : Services) (os : List String) (s : GraphState)
    → HasEnded s
    → HasEnded (check_contract v os s) × ((check_contract v os s).shadow ≡ s.shadow)
unfolding check_contract check_coverage leave_plain record_node halt
contract-keeps v [] s h = (ground (arith, h), ground arith)
contract-keeps v (o ∷ os) s h = (refl, refl)

pub analysis-keeps :
    (v : Services) (s : GraphState)
    → HasEnded s
    → HasEnded (do_build_analysis v s) × ((do_build_analysis v s).shadow ≡ s.shadow)
unfolding do_build_analysis leave_plain record_node
analysis-keeps v s h = elim (Bool-cases (is_exempt s.final_status)) [
  | inl exempt ↦ rw (exempt) (h, refl)
  | inr judged ↦ rw (judged) (contract-keeps v (contract_offenders v s) s h)
]

pub same-IsGreen : {d d' : Option ComplianceDecision} → d' ≡ d → IsGreen d → IsGreen d'
same-IsGreen same (c, (e, g)) = (c, (same ∙ e, g))
