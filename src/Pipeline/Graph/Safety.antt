-- ===== src/Pipeline/Graph/Safety.antt =====
-- What a run of orchestration/graph.py may do, in the live graph and in the explain graph.
use asoe.Prelude.{
  ◌≡◌, ◌≢◌, refl, ap, ◌∙◌, Bool, true, false, ◌⊎◌, inl, inr, Option, none, some, arith, is_some,
  or_else, Bool-cases,
}
use asoe.Pipeline.{
  TerminalStatus, complete, Node, ingest, classify, load_skill, validate_circuit_breaker,
  select_recipe, resolve_dependencies, validate_types, shadow_audit, execute_recipe, explain_only,
  apply_effects, build_analysis, GraphState, World, record_node, leave_plain, halt,
}
use asoe.Pipeline.Services.{Services}
use asoe.Pipeline.Audit.{do_shadow_audit}
use asoe.Pipeline.Execution.{do_execute_recipe}
use asoe.Pipeline.Analysis.{do_build_analysis, do_explain_only}
use asoe.Pipeline.Graph.{
  route_after_gate, after_green, next, run_node, invoke, apply_kill_switch, Environment, run_graph,
}
use asoe.Pipeline.Graph.Ends.{EndsWith, Condition, invoke-EndsWith, EndsWith-map}
use asoe.Pipeline.Graph.Frame.{IsIdle, IsQuiet}
use asoe.Pipeline.Graph.Quiet.{acts, run_node-IsQuiet}
use asoe.Pipeline.Graph.Verdict.{
  IsGreen, HasEnded, IsIncomplete, audit-IsGreen, execute-keeps, apply-Keeps, analysis-keeps,
  same-IsGreen,
}

-- the run is as it began, outside and in its verdicts
abbrev pub Untouched : GraphState → World → GraphState → World → Type 0
Untouched s0 w0 s w = IsIdle s0 w0 s w × IsIncomplete s

pub Untouched-on :
    (s0 : GraphState) (w0 : World) (s : GraphState) (w : World) (s' : GraphState) (w' : World)
    → Untouched s0 w0 s w
    → IsQuiet s w s' w'
    → Untouched s0 w0 s' w'
Untouched-on s0 w0 s w s' w' ((log, effects, outbox), incomplete) q =
    ((q.log ∙ log, q.effects ∙ effects, q.outbox ∙ outbox), λ c. incomplete (q.complete_only c))

-- the condition behind the shadow's GREEN, at each node
abbrev Guarded : Bool → GraphState → World → Condition
Guarded x s0 w0 (some execute_recipe) s w = (x ≡ false) × (Untouched s0 w0 s w × IsGreen s.shadow)
Guarded x s0 w0 (some explain_only) s w = Untouched s0 w0 s w × IsGreen s.shadow
Guarded x s0 w0 (some apply_effects) s w = (x ≡ false) × (HasEnded s × IsGreen s.shadow)
Guarded x s0 w0 (some build_analysis) s w =
    HasEnded s × (Untouched s0 w0 s w ⊎ ((x ≡ false) × IsGreen s.shadow))
Guarded x s0 w0 (some n) s w = Untouched s0 w0 s w
Guarded x s0 w0 none s w = HasEnded s × (Untouched s0 w0 s w ⊎ ((x ≡ false) × IsGreen s.shadow))

route-Guarded :
    (x : Bool) (s0 : GraphState) (w0 : World) (onward : Node) (s : GraphState) (w : World)
    (t : Option TerminalStatus)
    → s.final_status ≡ t
    → Untouched s0 w0 s w
    → (t ≡ none → Guarded x s0 w0 (some onward) s w)
    → Guarded x s0 w0 (route_after_gate t onward) s w
unfolding route_after_gate
route-Guarded x s0 w0 onward s w none e h go = go refl
route-Guarded x s0 w0 onward s w (some t) e h go = (ap is_some e, inl h)

green-Guarded :
    (x : Bool) (s0 : GraphState) (w0 : World) (s : GraphState) (w : World)
    → Untouched s0 w0 s w
    → IsGreen s.shadow
    → Guarded x s0 w0 (some (after_green x)) s w
green-Guarded true s0 w0 s w h g = (h, g)
green-Guarded false s0 w0 s w h g = (refl, (h, g))

module _ (v : Services) (x : Bool) (s0 : GraphState) (w0 : World) where
  quiet-step :
      (n : Node) (s : GraphState) (w : World)
      → acts n ≡ false
      → Untouched s0 w0 s w
      → let (s', w') = run_node v n s w in Untouched s0 w0 s' w'
  quiet-step n s w a h =
      let (s', w') = run_node v n s w in Untouched-on s0 w0 s w s' w' h (run_node-IsQuiet v n s w a)

  gate-step :
      (n onward : Node) (s : GraphState) (w : World)
      → acts n ≡ false
      → Untouched s0 w0 s w
      → let (s', w') = run_node v n s w in
        (Untouched s0 w0 s' w' → Guarded x s0 w0 (some onward) s' w')
        → let (s', w') = run_node v n s w in
          Guarded x s0 w0 (route_after_gate s'.final_status onward) s' w'
  gate-step n onward s w a h onto =
      let (s', w') = run_node v n s w in
      let h' = quiet-step n s w a h in
      route-Guarded x s0 w0 onward s' w' s'.final_status refl h' (λ running. onto h')

  still :
      (s : GraphState) (w : World)
      → (do_build_analysis v s).shadow ≡ s.shadow
      → Untouched s0 w0 s w ⊎ ((x ≡ false) × IsGreen s.shadow)
      → Untouched s0 w0 (do_build_analysis v s) w
        ⊎ ((x ≡ false) × IsGreen (do_build_analysis v s).shadow)
  unfolding run_node
  still s w same (inl h) = inl (quiet-step build_analysis s w refl h)
  still s w same (inr (live, g)) = inr (live, same-IsGreen same g)

  step-Guarded :
      (n : Node) (s : GraphState) (w : World)
      → Guarded x s0 w0 (some n) s w
      → let (s', w') = run_node v n s w in Guarded x s0 w0 (next x n s') s' w'
  unfolding run_node next do_explain_only do_execute_recipe leave_plain record_node halt
  step-Guarded ingest s w h = quiet-step ingest s w refl h
  step-Guarded classify s w h = quiet-step classify s w refl h
  step-Guarded load_skill s w h = quiet-step load_skill s w refl h
  step-Guarded validate_circuit_breaker s w h =
      gate-step validate_circuit_breaker select_recipe s w refl h (λ h'. h')
  step-Guarded select_recipe s w h =
      gate-step select_recipe resolve_dependencies s w refl h (λ h'. h')
  step-Guarded resolve_dependencies s w h =
      gate-step resolve_dependencies validate_types s w refl h (λ h'. h')
  step-Guarded validate_types s w h = gate-step validate_types shadow_audit s w refl h (λ h'. h')
  step-Guarded shadow_audit s w h =
      let (s', w') = do_shadow_audit v s w in
      let h' = quiet-step shadow_audit s w refl h in
      route-Guarded x s0 w0 (after_green x) s' w' s'.final_status refl h'
        (λ running. green-Guarded x s0 w0 s' w' h' (audit-IsGreen v s w running))
  step-Guarded execute_recipe s w (live, (h, g)) =
      let (ended, same) = execute-keeps v s.invocation s w in (live, (ended, same-IsGreen same g))
  step-Guarded explain_only s w (h, g) = (refl, inl (quiet-step explain_only s w refl h))
  step-Guarded apply_effects s w (live, (e, g)) =
      let (same, final) = apply-Keeps v s w in
      (ap is_some final ∙ e, inr (live, same-IsGreen same g))
  step-Guarded build_analysis s w (e, h) =
      let (ended, same) = analysis-keeps v s e in (ended, still s w same h)

killed-Untouched :
    (s : GraphState) (w : World)
    → HasEnded (apply_kill_switch s) × Untouched s w (apply_kill_switch s) w
unfolding apply_kill_switch halt
killed-Untouched s w = (refl, ((refl, refl, refl), λ c. ground (arith, c)))

-- what the condition says at the end, in either graph and in the explain graph
guarded-gated : {A B C : Type 0} → A ⊎ (B × C) → A ⊎ C
guarded-gated (inl h) = inl h
guarded-gated (inr (live, g)) = inr g

guarded-explain : {A C : Type 0} → A ⊎ ((true ≡ false) × C) → A
guarded-explain (inl h) = h
guarded-explain (inr (live, g)) = ground (arith, live)

invoke-Guarded :
    (v : Services) (x : Bool) (s : GraphState) (w : World)
    → IsIncomplete s
    → EndsWith (Guarded x s w none) (invoke v x s w)
invoke-Guarded v x s w fresh =
    invoke-EndsWith v x (Guarded x s w) (step-Guarded v x s w) s w ((refl, refl, refl), fresh)

-- Every run ends, with a terminal status. Where it began with none or another than COMPLETE, and
-- whatever the backends, the gateways and the recipes answer, it either left the execution log, the
-- effects and the outbox as they were and does not say COMPLETE, or its last verdict is GREEN.
pub run_graph-gated :
    (v : Services) (env : Environment) (x : Option Bool) (s : GraphState) (w : World)
    → s.final_status ≢ some complete
    → EndsWith
        (λ s' w'. HasEnded s' × ((IsIdle s w s' w' × IsIncomplete s') ⊎ IsGreen s'.shadow))
        (run_graph v env x s w)
unfolding run_graph
run_graph-gated v env x s w fresh = elim (Bool-cases env.kill_switch) [
  | inl on ↦
      rw (on) (
        let (ended, h) = killed-Untouched s w in ((apply_kill_switch s, w), (refl, (ended, inl h))))
  | inr off ↦ rw (off) (
      EndsWith-map (λ s' w' (ended, h). (ended, guarded-gated h))
        (invoke-Guarded v (or_else x env.explain_mode) s w fresh))
]

-- A dry run ends with a terminal status other than COMPLETE, and leaves the execution log, the
-- effects and the outbox as they were.
pub run_graph-explain :
    (v : Services) (env : Environment) (s : GraphState) (w : World)
    → s.final_status ≢ some complete
    → EndsWith
        (λ s' w'. HasEnded s' × (IsIdle s w s' w' × IsIncomplete s'))
        (run_graph v env (some true) s w)
unfolding run_graph
run_graph-explain v env s w fresh = elim (Bool-cases env.kill_switch) [
  | inl on ↦
      rw (on)
        (let (ended, h) = killed-Untouched s w in ((apply_kill_switch s, w), (refl, (ended, h))))
  | inr off ↦ rw (off) (
      EndsWith-map (λ s' w' (ended, h). (ended, guarded-explain h))
        (invoke-Guarded v true s w fresh))
]
