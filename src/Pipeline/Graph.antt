-- ===== src/Pipeline/Graph.antt =====
-- orchestration/graph.py and hardening/kill_switch.py: the two graphs, their edges, and the run.
-- The bound on steps is LangGraph's default recursion limit, and the edges never come near it.
pub mod Ends
pub mod Frame
pub mod Quiet
pub mod Verdict
pub mod Safety
pub mod Ledger
pub mod Gates
pub mod Breach
pub mod Clean
pub mod Completion
pub mod Disagreement
mod Examples
use asoe.Prelude.{
  ℕ, zero, suc, Bool, true, false, Option, none, some, List, [], ◌∷◌, is_some, or_else,
  if◌then◌else◌,
}
use asoe.Pipeline.{
  TerminalStatus, fail_to_human, Node, ingest, classify, load_skill, validate_circuit_breaker,
  select_recipe, resolve_dependencies, validate_types, shadow_audit, execute_recipe, explain_only,
  apply_effects, build_analysis, kill_switch_active, GraphState, World, halt,
}
use asoe.Pipeline.Services.{Services}
use asoe.Pipeline.Intake.{
  do_ingest, do_classify, do_load_skill, do_validate_circuit_breaker, do_select_recipe,
}
use asoe.Pipeline.Evidence.{do_resolve_dependencies}
use asoe.Pipeline.Invocation.{do_validate_types}
use asoe.Pipeline.Audit.{do_shadow_audit}
use asoe.Pipeline.Execution.{do_execute_recipe}
use asoe.Pipeline.Effects.{do_apply_effects}
use asoe.Pipeline.Analysis.{do_explain_only, do_build_analysis}

-- `route_after_gate`, between the analysis and the node that a gate continues to
unfoldable pub route_after_gate : Option TerminalStatus → Node → Option Node
route_after_gate none onward = some onward
route_after_gate (some t) onward = some build_analysis

abbrev pub after_green : Bool → Node
after_green explain = if explain then explain_only else execute_recipe

-- the edges of the live graph and of the explain graph; `none` is END
unfoldable pub next : (explain : Bool) → Node → GraphState → Option Node
unfolding route_after_gate
next x ingest s = some classify
next x classify s = some load_skill
next x load_skill s = some validate_circuit_breaker
next x validate_circuit_breaker s = route_after_gate s.final_status select_recipe
next x select_recipe s = route_after_gate s.final_status resolve_dependencies
next x resolve_dependencies s = route_after_gate s.final_status validate_types
next x validate_types s = route_after_gate s.final_status shadow_audit
next x shadow_audit s = route_after_gate s.final_status (after_green x)
next x execute_recipe s = some apply_effects
next x explain_only s = some build_analysis
next x apply_effects s = some build_analysis
next x build_analysis s = none

unfoldable pub run_node : Services → Node → GraphState → World → GraphState × World
run_node v ingest s w = do_ingest v s w
run_node v classify s w = (do_classify v s, w)
run_node v load_skill s w = (do_load_skill v s, w)
run_node v validate_circuit_breaker s w = (do_validate_circuit_breaker s, w)
run_node v select_recipe s w = (do_select_recipe v s, w)
run_node v resolve_dependencies s w = do_resolve_dependencies v s w
run_node v validate_types s w = (do_validate_types v s, w)
run_node v shadow_audit s w = do_shadow_audit v s w
run_node v execute_recipe s w = do_execute_recipe v s w
run_node v explain_only s w = (do_explain_only s, w)
run_node v apply_effects s w = do_apply_effects v s w
run_node v build_analysis s w = (do_build_analysis v s, w)

-- the run from a node on, and `none` where the steps run out
unfoldable pub run_from :
    ℕ → Services → (explain : Bool) → Option Node → GraphState → World → Option (GraphState × World)
unfolding run_node next
run_from fuel v x none s w = some (s, w)
run_from zero v x (some n) s w = none
run_from (suc fuel) v x (some n) s w =
    let (s', w') = run_node v n s w in run_from fuel v x (next x n s') s' w'

-- `invoke`, with the default recursion limit
unfoldable pub invoke :
    Services → (explain : Bool) → GraphState → World → Option (GraphState × World)
unfolding run_from
invoke v x s w = run_from 25 v x (some ingest) s w

unfoldable pub apply_kill_switch : GraphState → GraphState
unfolding halt
apply_kill_switch s = halt fail_to_human kill_switch_active s

-- the switches of the environment, read at the call
pub record Environment : Type 0 where
  pub kill_switch : Bool
  pub explain_mode : Bool

unfoldable pub run_graph :
    Services
    → Environment
    → (explain_mode : Option Bool) → GraphState
    → World
    → Option (GraphState × World)
unfolding invoke apply_kill_switch
run_graph v env x s w =
    if env.kill_switch
    then some (apply_kill_switch s, w)
    else invoke v (or_else x env.explain_mode) s w
