-- ===== src/Pipeline/Graph/Disagreement.antt =====
-- A language model that disagrees with the deterministic classifier: classify of
-- orchestration/nodes.py with constraints/cross_check.py, and the rest of the run.
use asoe.Prelude.{
  ◌≡◌, ◌≢◌, refl, sym, ◌∙◌, String, Bool, true, false, not, Option, none, some, arith, is_some,
  Bool-cases, inl, inr, List, [], ◌∷◌,
}
use mathlib.Core.Path.{subst}
use asoe.Pipeline.{
  TerminalStatus, complete, IntentDecision, LlmCallTrace, Node, ingest, classify, load_skill,
  validate_circuit_breaker, select_recipe, resolve_dependencies, validate_types, shadow_audit,
  execute_recipe, explain_only, apply_effects, build_analysis, GraphState, World, record_node,
  leave, leave_plain, halt,
}
use asoe.Pipeline.Services.{Services, draw_id}
use asoe.Pipeline.Fallback.{classify_intent, compute_discrepancy, cross_check}
use asoe.Pipeline.Intake.{
  stamp_trace_id, stamp_check, drain_llm_trace, do_ingest, route_check, classify_checked,
  classify_by, do_classify, do_load_skill, do_validate_circuit_breaker,
}
use asoe.Pipeline.Analysis.{
  check_coverage, check_contract, contract_offenders, is_exempt, do_build_analysis,
}
use asoe.Pipeline.Graph.{next, route_after_gate, run_node, run_from, invoke}
use asoe.Pipeline.Graph.Ends.{EndsWith, Condition, run_from-EndsWith}
use asoe.Pipeline.Graph.Frame.{IsIdle}
use asoe.Pipeline.Graph.Quiet.{acts, run_node-IsQuiet}
use asoe.Pipeline.Graph.Verdict.{HasEnded, IsIncomplete, analysis-keeps}
use asoe.Pipeline.Graph.Safety.{Untouched, Untouched-on}
use asoe.Pipeline.Graph.Breach.{classify-SameBatch}

-- the state that the classifiers see
abbrev seen : GraphState → GraphState
seen s = record s {
  discrepancy = some (compute_discrepancy s.event.po_price s.event.sap_base_price);
}

abbrev pub Disagrees : (GraphState → IntentDecision × Option LlmCallTrace) → GraphState → Type 0
Disagrees b s = (cross_check (b (seen s)).0 (classify_intent (seen s))).agreed ≡ false

route_check-HasEnded :
    (agreed : Bool) (win llm det : IntentDecision) (s : GraphState)
    → agreed ≡ false
    → HasEnded (route_check agreed win llm det s)
unfolding route_check leave record_node halt
route_check-HasEnded true win llm det s h = ground (arith, h)
route_check-HasEnded false win llm det s h = refl

classify_checked-HasEnded :
    (b : GraphState → IntentDecision × Option LlmCallTrace) (s : GraphState)
    → Disagrees b s
    → HasEnded (classify_by (some b) (seen s))
unfolding classify_by classify_checked
classify_checked-HasEnded b s d =
    let (llm, trace) = b (seen s) in
    let det = classify_intent (seen s) in
    let check = cross_check llm det in
    route_check-HasEnded check.agreed check.winning_decision llm det
      (stamp_check (not check.agreed) llm det (drain_llm_trace trace (seen s))) d

selected-contract :
    (v : Services) (os : List String) (s : GraphState)
    → (check_contract v os s).selected_recipe ≡ s.selected_recipe
unfolding check_contract check_coverage leave_plain record_node halt
selected-contract v [] s = ground arith
selected-contract v (o ∷ os) s = refl

selected-analysis :
    (v : Services) (s : GraphState) → (do_build_analysis v s).selected_recipe ≡ s.selected_recipe
unfolding do_build_analysis leave_plain record_node
selected-analysis v s = elim (Bool-cases (is_exempt s.final_status)) [
  | inl exempt ↦ rw (do_build_analysis, exempt) refl
  | inr judged ↦ rw (do_build_analysis, judged) (selected-contract v (contract_offenders v s) s)
]

selected-ingest :
    (v : Services) (s : GraphState) (w : World)
    → (do_ingest v s w).0.selected_recipe ≡ s.selected_recipe
unfolding do_ingest stamp_trace_id draw_id leave_plain record_node halt
selected-ingest v s w = ground arith

breaker-keeps :
    (s : GraphState)
    → HasEnded s
    → HasEnded (do_validate_circuit_breaker s)
      × ((do_validate_circuit_breaker s).selected_recipe ≡ s.selected_recipe)
unfolding do_validate_circuit_breaker leave record_node halt
breaker-keeps s h = (ground (arith, h), ground arith)

-- from the load of the skill on, the run is only on its way to the end
abbrev Halted : GraphState → World → GraphState → World → Type 0
Halted s0 w0 s w = HasEnded s × (s.selected_recipe ≡ s0.selected_recipe) × Untouched s0 w0 s w

abbrev Stopping :
    (GraphState → IntentDecision × Option LlmCallTrace) → GraphState → World → Condition
Stopping b s0 w0 (some classify) s w =
    Disagrees b s × (s.selected_recipe ≡ s0.selected_recipe) × Untouched s0 w0 s w
Stopping b s0 w0 (some load_skill) s w = Halted s0 w0 s w
Stopping b s0 w0 (some validate_circuit_breaker) s w = Halted s0 w0 s w
Stopping b s0 w0 (some build_analysis) s w = Halted s0 w0 s w
Stopping b s0 w0 none s w = Halted s0 w0 s w
Stopping b s0 w0 (some n) s w = true ≡ false

route-Stopping :
    (b : GraphState → IntentDecision × Option LlmCallTrace) (s0 : GraphState) (w0 : World)
    (t : Option TerminalStatus) (onward : Node) (s : GraphState) (w : World)
    → is_some t ≡ true
    → Halted s0 w0 s w
    → Stopping b s0 w0 (route_after_gate t onward) s w
unfolding route_after_gate
route-Stopping b s0 w0 none onward s w ended h = ground (arith, ended)
route-Stopping b s0 w0 (some t) onward s w ended h = h

module _ (v : Services) (x : Bool) (b : GraphState → IntentDecision × Option LlmCallTrace)
    (active : v.intent_backend ≡ some b) (s0 : GraphState) (w0 : World) where
  on :
      (n : Node) (s : GraphState) (w : World)
      → acts n ≡ false
      → Untouched s0 w0 s w
      → let (s', w') = run_node v n s w in Untouched s0 w0 s' w'
  on n s w a h =
      let (s', w') = run_node v n s w in Untouched-on s0 w0 s w s' w' h (run_node-IsQuiet v n s w a)

  step-Stopping :
      (n : Node) (s : GraphState) (w : World)
      → Stopping b s0 w0 (some n) s w
      → let (s', w') = run_node v n s w in Stopping b s0 w0 (next x n s') s' w'
  unfolding run_node next do_classify do_load_skill leave_plain record_node
  step-Stopping classify s w (disagree, selected, idle) = (
    subst (λ o. HasEnded (classify_by o (seen s))) (sym active)
        (classify_checked-HasEnded b s disagree),
    (classify-SameBatch v.intent_backend (seen s)).selected ∙ selected,
    on classify s w refl idle,
  )
  step-Stopping load_skill s w (ended, selected, idle) =
      (ended, selected, on load_skill s w refl idle)
  step-Stopping validate_circuit_breaker s w (ended, selected, idle) =
      let s' = do_validate_circuit_breaker s in
      let (ended', selected') = breaker-keeps s ended in
      route-Stopping b s0 w0 s'.final_status select_recipe s' w ended'
        (ended', selected' ∙ selected, on validate_circuit_breaker s w refl idle)
  step-Stopping build_analysis s w (ended, selected, idle) = (
    (analysis-keeps v s ended).0,
    selected-analysis v s ∙ selected,
    on build_analysis s w refl idle,
  )
  step-Stopping ingest s w h = ground (arith, h)
  step-Stopping select_recipe s w h = ground (arith, h)
  step-Stopping resolve_dependencies s w h = ground (arith, h)
  step-Stopping validate_types s w h = ground (arith, h)
  step-Stopping shadow_audit s w h = ground (arith, h)
  step-Stopping execute_recipe s w h = ground (arith, h)
  step-Stopping explain_only s w h = ground (arith, h)
  step-Stopping apply_effects s w h = ground (arith, h)

-- Where the active language model and the deterministic classifier disagree about the event as
-- ingest leaves it, the run ends with a terminal status other than COMPLETE: no recipe is chosen,
-- and the execution log, the effects and the outbox stay as they were. It is for runs that begin
-- with no status or another than COMPLETE.
pub invoke-disagreement :
    (v : Services) (x : Bool) (b : GraphState → IntentDecision × Option LlmCallTrace)
    (s : GraphState) (w : World)
    → v.intent_backend ≡ some b
    → s.final_status ≢ some complete
    → Disagrees b (do_ingest v s w).0
    → EndsWith
        (λ s' w'.
          HasEnded s'
          × (s'.selected_recipe ≡ s.selected_recipe)
          × (IsIdle s w s' w' × IsIncomplete s'))
        (invoke v x s w)
unfolding invoke run_from run_node next
invoke-disagreement v x b s w active fresh disagree =
    let (s', w') = do_ingest v s w in
    run_from-EndsWith v x (Stopping b s w) (step-Stopping v x b active s w) 24 (some classify) s' w'
      (omega arith)
      (
        disagree,
        selected-ingest v s w,
        Untouched-on s w s w s' w' ((refl, refl, refl), fresh) (run_node-IsQuiet v ingest s w refl),
      )
