-- ===== src/Pipeline/Graph/Ledger.antt =====
-- The effects of a run and the outbox: orchestration/nodes.py (apply_effects) with
-- orchestration/outbox.py.
use asoe.Prelude.{
  ◌+◌, ◌≡◌, refl, ap, Bool, false, Option, none, some, List, [], ◌∷◌, arith, length, length-append,
  Bool-cases, inl, inr, or_else,
}
use asoe.Prelude.Dict.{Dict}
use asoe.Value.{Value, get_value}
use asoe.Gateway.{GatewayResponse}
use asoe.Outbox.{record_effect, new_entry, EffectOutcome}
use asoe.Pipeline.{
  RecipeName, submit_to_erp, Node, ingest, classify, load_skill, validate_circuit_breaker,
  select_recipe, resolve_dependencies, validate_types, shadow_audit, execute_recipe, explain_only,
  apply_effects, build_analysis, RecipeInvocation, ExecutionLog, GraphState, World, record_node,
  leave_plain, halt,
}
use asoe.Pipeline.Registry.{GatewayEffect, get_recipe}
use asoe.Pipeline.Services.{Services, draw_id, call_gateway}
use asoe.Pipeline.Fallback.{is_text}
use asoe.Pipeline.Execution.{execute_for, finish_execution, do_execute_recipe}
use asoe.Pipeline.Effects.{
  note_response, record_outcome, apply_effect, try_effect, apply_all, apply_for, do_apply_effects,
  fires,
}
use asoe.Pipeline.Graph.{run_node, apply_kill_switch, Environment, run_graph}
use asoe.Pipeline.Graph.Ends.{EndsWith, invoke-EndsWith}
use asoe.Pipeline.Graph.Quiet.{acts, run_node-IsQuiet}

-- as many entries are new in the outbox as responses are new among the effects
abbrev Accounted : GraphState → World → GraphState → World → Type 0
Accounted s0 w0 s w =
    length w.outbox + length s0.effect_results ≡ length w0.outbox + length s.effect_results

note_response-length :
    (r : GatewayResponse) (e : GatewayEffect) (s : GraphState)
    → length (note_response r e s).effect_results ≡ length s.effect_results + 1
unfolding note_response
note_response-length r e s = ground (arith, length-append s.effect_results (r ∷ []))

record_outcome-length :
    (v : Services) (o : EffectOutcome) (w : World)
    → length (record_outcome v o w).outbox ≡ length w.outbox + 1
unfolding record_outcome record_effect
record_outcome-length v o w =
    length-append w.outbox (new_entry (v.fresh_id w.ticks) (v.time w.ticks) o ∷ [])

apply_effect-Accounted :
    (v : Services) (name : RecipeName) (outputs : Dict Value) (e : GatewayEffect) (s0 : GraphState)
    (w0 : World) (s : GraphState) (w : World)
    → Accounted s0 w0 s w
    → let (s', w') = apply_effect v name outputs e s w in Accounted s0 w0 s' w'
unfolding apply_effect call_gateway
apply_effect-Accounted v name outputs e s0 w0 s w h =
    omega (arith, h, note_response-length _ e s, record_outcome-length v _ _)

try_effect-Accounted :
    (v : Services) (name : RecipeName) (outputs : Dict Value) (e : GatewayEffect) (s0 : GraphState)
    (w0 : World) (s : GraphState) (w : World)
    → Accounted s0 w0 s w
    → let (s', w') = try_effect v name outputs e s w in Accounted s0 w0 s' w'
unfolding try_effect
try_effect-Accounted v name outputs e s0 w0 s w h = elim (Bool-cases (fires e outputs)) [
  | inl due ↦ rw (try_effect, due) (apply_effect-Accounted v name outputs e s0 w0 s w h)
  | inr skipped ↦ rw (try_effect, skipped) h
]

apply_all-Accounted :
    (v : Services) (name : RecipeName) (outputs : Dict Value) (es : List GatewayEffect)
    (s0 : GraphState) (w0 : World) (s : GraphState) (w : World)
    → Accounted s0 w0 s w
    → let (s', w') = apply_all v name outputs es s w in Accounted s0 w0 s' w'
unfolding apply_all
apply_all-Accounted v name outputs [] s0 w0 s w h = h
apply_all-Accounted v name outputs (e ∷ es) s0 w0 s w h =
    let (s', w') = try_effect v name outputs e s w in
    apply_all-Accounted v name outputs es s0 w0 s' w'
      (try_effect-Accounted v name outputs e s0 w0 s w h)

apply_for-Accounted :
    (v : Services) (r : Option RecipeName) (l : Option ExecutionLog) (s0 : GraphState) (w0 : World)
    (s : GraphState) (w : World)
    → Accounted s0 w0 s w
    → let (s', w') = apply_for v r l s w in Accounted s0 w0 s' w'
unfolding apply_for
apply_for-Accounted v (some r) (some l) s0 w0 s w h =
    apply_all-Accounted v r l.outputs (get_recipe r).effects s0 w0 s w h
apply_for-Accounted v (some r) none s0 w0 s w h = h
apply_for-Accounted v none l s0 w0 s w h = h

execute-Accounted :
    (v : Services) (i : Option RecipeInvocation) (s0 : GraphState) (w0 : World) (s : GraphState)
    (w : World)
    → Accounted s0 w0 s w
    → let (s', w') = execute_for v i s w in Accounted s0 w0 s' w'
unfolding execute_for finish_execution draw_id leave_plain record_node halt
execute-Accounted v none s0 w0 s w h = h
execute-Accounted v (some i) s0 w0 s w h = h

module _ (v : Services) (s0 : GraphState) (w0 : World) where
  quiet-Accounted :
      (n : Node) (s : GraphState) (w : World)
      → acts n ≡ false
      → Accounted s0 w0 s w
      → let (s', w') = run_node v n s w in Accounted s0 w0 s' w'
  quiet-Accounted n s w a h =
      let q = run_node-IsQuiet v n s w a in
      omega (arith, h, ap length q.outbox, ap length q.effects)

  step-Accounted :
      (n : Node) (s : GraphState) (w : World)
      → Accounted s0 w0 s w
      → let (s', w') = run_node v n s w in Accounted s0 w0 s' w'
  unfolding run_node do_execute_recipe do_apply_effects leave_plain record_node
  step-Accounted ingest s w h = quiet-Accounted ingest s w refl h
  step-Accounted classify s w h = quiet-Accounted classify s w refl h
  step-Accounted load_skill s w h = quiet-Accounted load_skill s w refl h
  step-Accounted validate_circuit_breaker s w h =
      quiet-Accounted validate_circuit_breaker s w refl h
  step-Accounted select_recipe s w h = quiet-Accounted select_recipe s w refl h
  step-Accounted resolve_dependencies s w h = quiet-Accounted resolve_dependencies s w refl h
  step-Accounted validate_types s w h = quiet-Accounted validate_types s w refl h
  step-Accounted shadow_audit s w h = quiet-Accounted shadow_audit s w refl h
  step-Accounted execute_recipe s w h = execute-Accounted v s.invocation s0 w0 s w h
  step-Accounted explain_only s w h = quiet-Accounted explain_only s w refl h
  step-Accounted apply_effects s w h =
      apply_for-Accounted v s.selected_recipe s.execution_log s0 w0 s w h
  step-Accounted build_analysis s w h = quiet-Accounted build_analysis s w refl h

-- At the end of every run, the outbox has grown by exactly as many entries as the run has responses
-- of effects: each effect that was fired is recorded once, whatever the gateway answered.
pub run_graph-accounted :
    (v : Services) (env : Environment) (x : Option Bool) (s : GraphState) (w : World)
    → EndsWith
        (λ s' w'.
          length w'.outbox + length s.effect_results ≡ length w.outbox + length s'.effect_results)
        (run_graph v env x s w)
unfolding run_graph apply_kill_switch halt
run_graph-accounted v env x s w = elim (Bool-cases env.kill_switch) [
  | inl on ↦ rw (on) ((apply_kill_switch s, w), (refl, refl))
  | inr off ↦ rw (off) (
      invoke-EndsWith v (or_else x env.explain_mode) (λ at. Accounted s w)
        (λ n s' w' h. step-Accounted v s w n s' w' h) s w refl)
]

-- The submit to the ERP writes nothing where the recipe's status is not SUCCESS: no gateway is
-- called, and the state and the outbox stay as they were.
pub submit-fires :
    (v : Services) (outputs : Dict Value) (s : GraphState) (w : World)
    → is_text "SUCCESS" (get_value "status" outputs) ≡ false
    → apply_all v submit_to_erp outputs (get_recipe submit_to_erp).effects s w ≡ (s, w)
unfolding apply_all try_effect fires get_recipe
submit-fires v outputs s w h = rw (h) refl
