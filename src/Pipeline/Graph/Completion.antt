-- ===== src/Pipeline/Graph/Completion.antt =====
-- When a run says COMPLETE, at the end of the graph of orchestration/graph.py.
use asoe.Prelude.{◌≡◌, ◌≢◌, refl, sym, ◌∙◌, Bool, true, false, ◌⊎◌, inl, inr, Option, none, some}
use asoe.Pipeline.{
  TerminalStatus, complete, Node, ingest, classify, load_skill, validate_circuit_breaker,
  select_recipe, resolve_dependencies, validate_types, shadow_audit, execute_recipe, explain_only,
  apply_effects, build_analysis, GraphState, World, record_node, leave_plain,
}
use asoe.Pipeline.Services.{Services}
use asoe.Pipeline.Execution.{do_execute_recipe}
use asoe.Pipeline.Effects.{do_apply_effects}
use asoe.Pipeline.Analysis.{do_build_analysis}
use asoe.Pipeline.Graph.{next, route_after_gate, after_green, run_node, invoke}
use asoe.Pipeline.Graph.Ends.{EndsWith, Condition, invoke-EndsWith}
use asoe.Pipeline.Graph.Quiet.{acts, run_node-IsQuiet}
use asoe.Pipeline.Graph.Verdict.{IsIncomplete, apply-Keeps}
use asoe.Pipeline.Graph.Clean.{
  IsClean, IsClean-on, execute-IsClean, apply_for-SameRun, analysis-SameRun,
}

-- the condition at each node
abbrev Sound : Condition
Sound (some apply_effects) s w = IsIncomplete s ⊎ IsClean s
Sound (some build_analysis) s w = IsIncomplete s ⊎ IsClean s
Sound none s w = IsIncomplete s ⊎ IsClean s
Sound (some n) s w = IsIncomplete s

route-Sound :
    (t : Option TerminalStatus) (onward : Node) (s : GraphState) (w : World)
    → IsIncomplete s
    → Sound (some onward) s w
    → Sound (route_after_gate t onward) s w
unfolding route_after_gate
route-Sound none onward s w h onto = onto
route-Sound (some t) onward s w h onto = inl h

after_green-Sound :
    (x : Bool) (s : GraphState) (w : World) → IsIncomplete s → Sound (some (after_green x)) s w
after_green-Sound true s w h = h
after_green-Sound false s w h = h

module _ (v : Services) (x : Bool) where
  quiet-Sound :
      (n : Node) (s : GraphState) (w : World)
      → acts n ≡ false
      → IsIncomplete s
      → IsIncomplete (run_node v n s w).0
  quiet-Sound n s w a h = λ c. h ((run_node-IsQuiet v n s w a).complete_only c)

  analysis-Sound :
      (s : GraphState) (w : World)
      → IsIncomplete s ⊎ IsClean s
      → IsIncomplete (do_build_analysis v s) ⊎ IsClean (do_build_analysis v s)
  unfolding run_node
  analysis-Sound s w (inl h) = inl (quiet-Sound build_analysis s w refl h)
  analysis-Sound s w (inr c) = inr (IsClean-on s (do_build_analysis v s) (analysis-SameRun v s) c)

  apply-Sound :
      (s : GraphState) (w : World)
      → IsIncomplete s ⊎ IsClean s
      → let s' = (do_apply_effects v s w).0 in IsIncomplete s' ⊎ IsClean s'
  unfolding do_apply_effects leave_plain record_node
  apply-Sound s w (inl h) = inl (λ c. h (sym (apply-Keeps v s w).1 ∙ c))
  apply-Sound s w (inr c) =
      let k = apply_for-SameRun v s.selected_recipe s.execution_log s w in
      inr (
        IsClean-on s (do_apply_effects v s w).0
          (record { log = k.log; intent = k.intent; recipe = k.recipe }) c)

  step-Sound :
      (n : Node) (s : GraphState) (w : World)
      → Sound (some n) s w
      → let (s', w') = run_node v n s w in Sound (next x n s') s' w'
  unfolding run_node next do_execute_recipe
  step-Sound ingest s w h = quiet-Sound ingest s w refl h
  step-Sound classify s w h = quiet-Sound classify s w refl h
  step-Sound load_skill s w h = quiet-Sound load_skill s w refl h
  step-Sound validate_circuit_breaker s w h =
      let h' = quiet-Sound validate_circuit_breaker s w refl h in
      route-Sound _ select_recipe _ w h' h'
  step-Sound select_recipe s w h =
      let h' = quiet-Sound select_recipe s w refl h in route-Sound _ resolve_dependencies _ w h' h'
  step-Sound resolve_dependencies s w h =
      let h' = quiet-Sound resolve_dependencies s w refl h in route-Sound _ validate_types _ _ h' h'
  step-Sound validate_types s w h =
      let h' = quiet-Sound validate_types s w refl h in route-Sound _ shadow_audit _ w h' h'
  step-Sound shadow_audit s w h =
      let (s', w') = run_node v shadow_audit s w in
      let h' = quiet-Sound shadow_audit s w refl h in
      route-Sound s'.final_status (after_green x) s' w' h' (after_green-Sound x s' w' h')
  step-Sound execute_recipe s w h = execute-IsClean v s.invocation s w
  step-Sound explain_only s w h = inl (quiet-Sound explain_only s w refl h)
  step-Sound apply_effects s w h = apply-Sound s w h
  step-Sound build_analysis s w h = analysis-Sound s w h

-- A run that began with none or another status than COMPLETE ends either with another than COMPLETE,
-- or after a recipe that ran without error, at an autonomy level that asks for no human, and that is
-- not ManualOrderIntakeRecipe run for the intent of a manual order intake: that pair always waits for
-- the operator. The alias EmailOrderEntryRecipe of the same recipe is not kept back.
pub invoke-complete :
    (v : Services) (x : Bool) (s : GraphState) (w : World)
    → s.final_status ≢ some complete
    → EndsWith (λ s' w'. (s'.final_status ≢ some complete) ⊎ IsClean s') (invoke v x s w)
invoke-complete v x s w fresh = invoke-EndsWith v x Sound (step-Sound v x) s w fresh
