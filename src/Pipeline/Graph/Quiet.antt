-- ===== src/Pipeline/Graph/Quiet.antt =====
-- The same for the nodes of orchestration/nodes.py from the gateway reads on.
use asoe.Prelude.{
  ℕ, ◌≡◌, refl, String, Bool, true, false, Option, none, some, List, [], ◌∷◌, arith, Bool-cases,
  inl, inr,
}
use asoe.Gateway.{GatewayResponse}
use asoe.Pipeline.{
  RecipeName, Node, ingest, classify, load_skill, validate_circuit_breaker, select_recipe,
  resolve_dependencies, validate_types, shadow_audit, execute_recipe, explain_only, apply_effects,
  build_analysis, ShadowStatus, green, yellow, red, ComplianceDecision, ShadowLlmVerdict,
  GraphState, World, GatewayCallSpan, record_node, leave, leave_plain, halt,
}
use asoe.Pipeline.Registry.{GatewayDependency, get_recipe}
use asoe.Pipeline.Services.{Services, draw_id, call_gateway, SecondOpinion}
use asoe.Pipeline.Intake.{drain_llm_trace, do_classify, do_load_skill, do_select_recipe}
use asoe.Pipeline.Evidence.{
  is_fatal, gather, fan_out, resolve_all, resolve_for, do_resolve_dependencies, store_evidence,
}
use asoe.Pipeline.Invocation.{invoke_for, do_validate_types}
use asoe.Pipeline.Audit.{
  stamp_opinion, invoke_l2_shadow, enforce, enforce_on, enforce_shadow, do_shadow_audit,
  estimate_financial_impact_usd, audit,
}
use asoe.Pipeline.Analysis.{
  do_explain_only, do_build_analysis, check_coverage, check_contract, contract_offenders, is_exempt,
}
use asoe.Pipeline.Graph.{run_node}
use asoe.Pipeline.Graph.Frame.{
  IsQuiet, quiet, also, ingest-IsQuiet, drain-IsQuiet, classify-IsQuiet, breaker-IsQuiet,
  select-IsQuiet,
}

fan_out-outbox :
    (v : Services) (s : GraphState) (ds : List GatewayDependency) (w : World)
    → (fan_out v s ds w).1.outbox ≡ w.outbox
unfolding fan_out call_gateway
fan_out-outbox v s [] w = refl
fan_out-outbox v s (d ∷ ds) w = fan_out-outbox v s ds _

gather-IsQuiet :
    (spans : List GatewayCallSpan) (answers : List (GatewayDependency × GatewayResponse))
    (s0 s : GraphState) (w0 w : World)
    → IsQuiet s0 w0 s w
    → IsQuiet s0 w0 (gather spans answers s) w
unfolding gather record_node halt
gather-IsQuiet spans [] s0 s w0 w q = also q refl refl refl (λ h. h)
gather-IsQuiet spans ((d, r) ∷ answers) s0 s w0 w q = elim (Bool-cases (is_fatal (d, r))) [
  | inl fatal ↦ rw (fatal) (also q refl refl refl (λ h. ground (arith, h)))
  | inr fine ↦
      rw (fine)
        (gather-IsQuiet _ answers s0 (store_evidence d r s) w0 w (also q refl refl refl (λ h. h)))
]

resolve_all-IsQuiet :
    (v : Services) (ds : List GatewayDependency) (s : GraphState) (w : World)
    → let (s', w') = resolve_all v ds s w in IsQuiet s w s' w'
unfolding resolve_all leave record_node
resolve_all-IsQuiet v [] s w = also (quiet s w) refl refl refl (λ h. h)
resolve_all-IsQuiet v (d ∷ ds) s w =
    gather-IsQuiet [] (v.as_completed (fan_out v s (d ∷ ds) w).0) s s w _
      (also (quiet s w) refl refl (fan_out-outbox v s (d ∷ ds) w) (λ h. h))

resolve-IsQuiet :
    (v : Services) (r : Option RecipeName) (s : GraphState) (w : World)
    → let (s', w') = resolve_for v r s w in IsQuiet s w s' w'
unfolding resolve_for leave record_node
resolve-IsQuiet v none s w = also (quiet s w) refl refl refl (λ h. h)
resolve-IsQuiet v (some r) s w = resolve_all-IsQuiet v (get_recipe r).dependencies s w

invoke-IsQuiet :
    (v : Services) (r : Option RecipeName) (s : GraphState) (w : World)
    → IsQuiet s w (invoke_for v r s) w
unfolding invoke_for leave record_node halt
invoke-IsQuiet v none s w = also (quiet s w) refl refl refl (λ h. h)
invoke-IsQuiet v (some r) s w = record {
  log = ground arith;
  effects = ground arith;
  outbox = refl;
  complete_only = λ h. ground (arith, h);
}

stamp_opinion-IsQuiet :
    (o : SecondOpinion) (d : ComplianceDecision) (n : ℕ) (a : Option ShadowLlmVerdict)
    (s0 s : GraphState) (w0 w : World)
    → IsQuiet s0 w0 s w
    → IsQuiet s0 w0 (stamp_opinion o d n a s) w
unfolding stamp_opinion
stamp_opinion-IsQuiet o d n none s0 s w0 w q = q
stamp_opinion-IsQuiet o d n (some a) s0 s w0 w q = also q refl refl refl (λ h. h)

invoke_l2-IsQuiet :
    (o : Option SecondOpinion) (d : ComplianceDecision) (s0 s : GraphState) (w0 w : World)
    → IsQuiet s0 w0 s w
    → IsQuiet s0 w0 (invoke_l2_shadow o d s) w
unfolding invoke_l2_shadow
invoke_l2-IsQuiet none d s0 s w0 w q = q
invoke_l2-IsQuiet (some o) d s0 s w0 w q =
    let impact = estimate_financial_impact_usd s in
    stamp_opinion-IsQuiet o d impact (o.evaluate s impact) s0 s w0 w q

enforce_on-IsQuiet :
    (t : ShadowStatus) (d : ComplianceDecision) (s0 s : GraphState) (w0 w : World)
    → IsQuiet s0 w0 s w
    → IsQuiet s0 w0 (enforce_on (enforce t) d s) w
unfolding enforce_on enforce record_node halt
enforce_on-IsQuiet red d s0 s w0 w q = also q refl refl refl (λ h. ground (arith, h))
enforce_on-IsQuiet yellow d s0 s w0 w q = also q refl refl refl (λ h. ground (arith, h))
enforce_on-IsQuiet green d s0 s w0 w q = also q refl refl refl (λ h. h)

enforce_shadow-IsQuiet :
    (d : Option ComplianceDecision) (s0 s : GraphState) (w0 w : World)
    → IsQuiet s0 w0 s w
    → IsQuiet s0 w0 (enforce_shadow d s) w
unfolding enforce_shadow
enforce_shadow-IsQuiet none s0 s w0 w q = q
enforce_shadow-IsQuiet (some d) s0 s w0 w q = enforce_on-IsQuiet d.status d s0 s w0 w q

audit-IsQuiet :
    (v : Services) (s : GraphState) (w : World)
    → let (s', w') = do_shadow_audit v s w in IsQuiet s w s' w'
unfolding do_shadow_audit draw_id
audit-IsQuiet v s w =
    let (raw, trace) = v.shadow_backend s in
    let (id, w') = draw_id v w in
    let d = audit id raw in
    let judged = record s { shadow = some d } in
    let drained = drain_llm_trace trace judged in
    let q = drain-IsQuiet trace judged w in
    let q' = also {w'' = w'} (quiet s w) q.log q.effects refl q.complete_only in
    let advised = invoke_l2_shadow v.second_opinion d drained in
    enforce_shadow-IsQuiet advised.shadow s advised w w'
      (invoke_l2-IsQuiet v.second_opinion d s drained w w' q')

coverage-IsQuiet : (v : Services) (s : GraphState) (w : World) → IsQuiet s w (check_coverage v s) w
unfolding check_coverage leave_plain record_node halt
coverage-IsQuiet v s w = record {
  log = ground arith;
  effects = ground arith;
  outbox = refl;
  complete_only = λ h. ground (arith, h);
}

contract-IsQuiet :
    (v : Services) (os : List String) (s : GraphState) (w : World)
    → IsQuiet s w (check_contract v os s) w
unfolding check_contract leave_plain record_node halt
contract-IsQuiet v [] s w = coverage-IsQuiet v s w
contract-IsQuiet v (o ∷ os) s w = also (quiet s w) refl refl refl (λ h. ground (arith, h))

analysis-IsQuiet :
    (v : Services) (s : GraphState) (w : World) → IsQuiet s w (do_build_analysis v s) w
unfolding do_build_analysis leave_plain record_node
analysis-IsQuiet v s w = elim (Bool-cases (is_exempt s.final_status)) [
  | inl exempt ↦ rw (exempt) (also (quiet s w) refl refl refl (λ h. h))
  | inr judged ↦ rw (judged) (contract-IsQuiet v (contract_offenders v s) s w)
]

-- the nodes that run recipes and fire effects
abbrev pub acts : Node → Bool
acts execute_recipe = true
acts apply_effects = true
acts _ = false

-- Every node but those two keeps the log, the effects and the outbox, and does not say COMPLETE.
pub run_node-IsQuiet :
    (v : Services) (n : Node) (s : GraphState) (w : World)
    → acts n ≡ false
    → let (s', w') = run_node v n s w in IsQuiet s w s' w'
unfolding run_node do_classify do_load_skill do_select_recipe do_resolve_dependencies
    do_validate_types do_explain_only leave_plain record_node halt
run_node-IsQuiet v ingest s w h = ingest-IsQuiet v s w
run_node-IsQuiet v classify s w h =
    classify-IsQuiet v.intent_backend s _ w (also (quiet s w) refl refl refl (λ c. c))
run_node-IsQuiet v load_skill s w h = also (quiet s w) refl refl refl (λ c. c)
run_node-IsQuiet v validate_circuit_breaker s w h = breaker-IsQuiet s w
run_node-IsQuiet v select_recipe s w h = select-IsQuiet v s.directed_recipe s w
run_node-IsQuiet v resolve_dependencies s w h = resolve-IsQuiet v s.selected_recipe s w
run_node-IsQuiet v validate_types s w h = invoke-IsQuiet v s.selected_recipe s w
run_node-IsQuiet v shadow_audit s w h = audit-IsQuiet v s w
run_node-IsQuiet v execute_recipe s w h = ground (arith, h)
run_node-IsQuiet v explain_only s w h = also (quiet s w) refl refl refl (λ c. ground (arith, c))
run_node-IsQuiet v apply_effects s w h = ground (arith, h)
run_node-IsQuiet v build_analysis s w h = analysis-IsQuiet v s w
