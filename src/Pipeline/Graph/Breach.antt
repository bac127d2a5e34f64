-- ===== src/Pipeline/Graph/Breach.antt =====
-- The batch breaker of the graph: orchestration/utils.py (circuit_breaker) with the nodes before the
-- choice of a recipe.
use asoe.Prelude.{
  ℕ, ◌+◌, ◌*◌, ◌<◌, ◌≡◌, ◌≢◌, refl, sym, ap, ◌∙◌, Bool, true, false, not, ◌⊎◌, Option, none, some,
  arith, eq_iff,
}
use mathlib.Core.Path.{subst}
use asoe.Prelude.Int.{◌-ℤ◌, abs_ℤ}
use asoe.Pipeline.{
  fail_to_human, IntentDecision, LlmCallTrace, Node, ingest, classify, load_skill,
  validate_circuit_breaker, select_recipe, resolve_dependencies, validate_types, shadow_audit,
  execute_recipe, explain_only, apply_effects, build_analysis, GraphState, World, record_node,
  leave, leave_plain, halt,
}
use asoe.Pipeline.Services.{Services, draw_id}
use asoe.Pipeline.Fallback.{classify_intent, cross_check, circuit_breaker}
use asoe.Pipeline.Intake.{
  drain_llm_trace, stamp_trace_id, stamp_check, do_ingest, route_check, classify_checked,
  classify_by, do_classify, do_load_skill, do_validate_circuit_breaker,
}
use asoe.Pipeline.Analysis.{do_build_analysis, is_exempt}
use asoe.Pipeline.Graph.{next, route_after_gate, run_node, invoke}
use asoe.Pipeline.Graph.Ends.{EndsWith, Condition, invoke-EndsWith}
use asoe.Pipeline.Graph.Frame.{IsIdle, IsQuiet}
use asoe.Pipeline.Graph.Quiet.{run_node-IsQuiet}

-- what the breaker reads, and the choice that it stands before
pub record SameBatch (s s' : GraphState) : Type 0 where
  pub updates : s'.update_count ≡ s.update_count
  pub variance : s'.batch_total_variance ≡ s.batch_total_variance
  pub selected : s'.selected_recipe ≡ s.selected_recipe

drain-SameBatch : (t : Option LlmCallTrace) (s : GraphState) → SameBatch s (drain_llm_trace t s)
unfolding drain_llm_trace
drain-SameBatch none s = record { updates = refl; variance = refl; selected = refl }
drain-SameBatch (some t) s = record { updates = refl; variance = refl; selected = refl }

route_check-SameBatch :
    (b : Bool) (win llm det : IntentDecision) (s : GraphState)
    → SameBatch s (route_check b win llm det s)
unfolding route_check leave record_node halt
route_check-SameBatch true win llm det s = record {
  updates = refl;
  variance = refl;
  selected = refl;
}
route_check-SameBatch false win llm det s = record {
  updates = refl;
  variance = refl;
  selected = refl;
}

pub classify-SameBatch :
    (b : Option (GraphState → IntentDecision × Option LlmCallTrace)) (s : GraphState)
    → SameBatch s (classify_by b s)
unfolding classify_by classify_checked leave record_node
classify-SameBatch none s = record { updates = refl; variance = refl; selected = refl }
classify-SameBatch (some b) s =
    let (llm, trace) = b s in
    let det = classify_intent s in
    let check = cross_check llm det in
    let d = drain-SameBatch trace s in
    let stamped = stamp_check (not check.agreed) llm det (drain_llm_trace trace s) in
    let r = route_check-SameBatch check.agreed check.winning_decision llm det stamped in
    record {
      updates = r.updates ∙ d.updates;
      variance = r.variance ∙ d.variance;
      selected = r.selected ∙ d.selected;
    }

-- more than 50 updates, or more than $10,000
abbrev OverLimit : ℕ → ℕ → Type 0
OverLimit updates variance = (50 < updates) ⊎ (10000000000 < variance)

ingest-OverLimit :
    (v : Services) (s : GraphState) (w : World)
    → s.event.order_id ≢ ""
    → OverLimit
        (s.update_count + 1)
        (abs_ℤ (s.event.po_price -ℤ s.event.sap_base_price) * s.event.line_count)
    → let s' = (do_ingest v s w).0 in
      OverLimit s'.update_count s'.batch_total_variance × (s'.selected_recipe ≡ s.selected_recipe)
unfolding do_ingest stamp_trace_id draw_id leave_plain record_node halt
ingest-OverLimit v s w named over =
    (ground (arith, eq_iff s.event.order_id "", named, over), ground arith)

breaker-halts :
    (s : GraphState)
    → OverLimit s.update_count s.batch_total_variance
    → ((do_validate_circuit_breaker s).final_status ≡ some fail_to_human)
      × ((do_validate_circuit_breaker s).selected_recipe ≡ s.selected_recipe)
unfolding do_validate_circuit_breaker circuit_breaker leave record_node halt
breaker-halts s over = (ground (arith, over), ground arith)

analysis-exempt :
    (v : Services) (s : GraphState)
    → s.final_status ≡ some fail_to_human
    → ((do_build_analysis v s).final_status ≡ some fail_to_human)
      × ((do_build_analysis v s).selected_recipe ≡ s.selected_recipe)
unfolding do_build_analysis leave_plain record_node
analysis-exempt v s h = rw (do_build_analysis, ap is_exempt h) (h, refl)

IsIdle-on :
    (s0 : GraphState) (w0 : World) (s : GraphState) (w : World) (s' : GraphState) (w' : World)
    → IsIdle s0 w0 s w
    → IsQuiet s w s' w'
    → IsIdle s0 w0 s' w'
IsIdle-on s0 w0 s w s' w' (log, effects, outbox) q =
    (q.log ∙ log, q.effects ∙ effects, q.outbox ∙ outbox)

-- on its way to the breaker, and stopped by it
abbrev Heading : GraphState → World → GraphState → World → Type 0
Heading s0 w0 s w =
    OverLimit s.update_count s.batch_total_variance
    × (s.selected_recipe ≡ s0.selected_recipe)
    × IsIdle s0 w0 s w

abbrev Stopped : GraphState → World → GraphState → World → Type 0
Stopped s0 w0 s w =
    (s.final_status ≡ some fail_to_human)
    × (s.selected_recipe ≡ s0.selected_recipe)
    × IsIdle s0 w0 s w

abbrev Breached : GraphState → World → Condition
Breached s0 w0 (some ingest) s w =
    (s.event.order_id ≢ "")
    × OverLimit (s.update_count + 1)
        (abs_ℤ (s.event.po_price -ℤ s.event.sap_base_price) * s.event.line_count)
    × (s.selected_recipe ≡ s0.selected_recipe)
    × IsIdle s0 w0 s w
Breached s0 w0 (some classify) s w = Heading s0 w0 s w
Breached s0 w0 (some load_skill) s w = Heading s0 w0 s w
Breached s0 w0 (some validate_circuit_breaker) s w = Heading s0 w0 s w
Breached s0 w0 (some build_analysis) s w = Stopped s0 w0 s w
Breached s0 w0 none s w = Stopped s0 w0 s w
Breached s0 w0 (some n) s w = true ≡ false

Heading-on :
    (s0 : GraphState) (w0 : World) (s : GraphState) (w : World) (s' : GraphState)
    → Heading s0 w0 s w
    → SameBatch s s'
    → IsQuiet s w s' w
    → Heading s0 w0 s' w
Heading-on s0 w0 s w s' (over, selected, idle) b q = (
  ground (arith, over, b.updates, b.variance),
  b.selected ∙ selected,
  IsIdle-on s0 w0 s w s' w idle q,
)

module _ (v : Services) (x : Bool) (s0 : GraphState) (w0 : World) where
  step-Breached :
      (n : Node) (s : GraphState) (w : World)
      → Breached s0 w0 (some n) s w
      → let (s', w') = run_node v n s w in Breached s0 w0 (next x n s') s' w'
  unfolding run_node next do_classify do_load_skill leave_plain record_node route_after_gate
  step-Breached ingest s w (named, over, selected, idle) =
      let (s', w') = do_ingest v s w in
      let (over', selected') = ingest-OverLimit v s w named over in
      (
        over',
        selected' ∙ selected,
        IsIdle-on s0 w0 s w s' w' idle (run_node-IsQuiet v ingest s w refl),
      )
  step-Breached classify s w h =
      let c = classify-SameBatch v.intent_backend _ in
      Heading-on s0 w0 s w (do_classify v s) h
        (record { updates = c.updates; variance = c.variance; selected = c.selected })
        (run_node-IsQuiet v classify s w refl)
  step-Breached load_skill s w h =
      Heading-on s0 w0 s w (do_load_skill v s) h
        (record { updates = refl; variance = refl; selected = refl })
        (run_node-IsQuiet v load_skill s w refl)
  step-Breached validate_circuit_breaker s w (over, selected, idle) =
      let (halted, selected') = breaker-halts s over in
      let s' = do_validate_circuit_breaker s in
      subst (λ t. Breached s0 w0 (route_after_gate t select_recipe) s' w) (sym halted)
        (
          halted,
          selected' ∙ selected,
          IsIdle-on s0 w0 s w s' w idle (run_node-IsQuiet v validate_circuit_breaker s w refl),
        )
  step-Breached build_analysis s w (halted, selected, idle) =
      let (halted', selected') = analysis-exempt v s halted in
      (
        halted',
        selected' ∙ selected,
        IsIdle-on s0 w0 s w (do_build_analysis v s) w idle
            (run_node-IsQuiet v build_analysis s w refl),
      )
  step-Breached select_recipe s w h = ground (arith, h)
  step-Breached resolve_dependencies s w h = ground (arith, h)
  step-Breached validate_types s w h = ground (arith, h)
  step-Breached shadow_audit s w h = ground (arith, h)
  step-Breached execute_recipe s w h = ground (arith, h)
  step-Breached explain_only s w h = ground (arith, h)
  step-Breached apply_effects s w h = ground (arith, h)

-- An event with an order id that brings the batch above 50 updates, or whose price gap times its
-- lines is above $10,000, ends in FAIL_TO_HUMAN in either graph, whatever the classifiers say: no
-- recipe is chosen, and the execution log, the effects and the outbox stay as they were.
pub invoke-breach :
    (v : Services) (x : Bool) (s : GraphState) (w : World)
    → s.event.order_id ≢ ""
    → (50 < s.update_count + 1)
      ⊎ (10000000000 < abs_ℤ (s.event.po_price -ℤ s.event.sap_base_price) * s.event.line_count)
    → EndsWith
        (λ s' w'.
          (s'.final_status ≡ some fail_to_human)
          × (s'.selected_recipe ≡ s.selected_recipe)
          × IsIdle s w s' w')
        (invoke v x s w)
invoke-breach v x s w named over =
    invoke-EndsWith v x (Breached s w) (step-Breached v x s w) s w
      (named, over, refl, (refl, refl, refl))
