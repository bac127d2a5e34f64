-- ===== src/Pipeline/Graph/Ends.antt =====
-- The end of a run of orchestration/graph.py: the steps that the edges leave, and how a condition that
-- each node hands on reaches the end.
use asoe.Prelude.{ℕ, zero, suc, ◌≤◌, ◌≡◌, refl, Bool, true, false, Option, none, some, arith}
use asoe.Pipeline.{
  TerminalStatus, Node, ingest, classify, load_skill, validate_circuit_breaker, select_recipe,
  resolve_dependencies, validate_types, shadow_audit, execute_recipe, explain_only, apply_effects,
  build_analysis, GraphState, World,
}
use asoe.Pipeline.Services.{Services}
use asoe.Pipeline.Graph.{route_after_gate, after_green, next, run_node, run_from, invoke}

-- the number of steps from a node to the end, at most
abbrev rank : Node → ℕ
rank ingest = 10
rank classify = 9
rank load_skill = 8
rank validate_circuit_breaker = 7
rank select_recipe = 6
rank resolve_dependencies = 5
rank validate_types = 4
rank shadow_audit = 3
rank execute_recipe = 2
rank explain_only = 1
rank apply_effects = 1
rank build_analysis = 0

abbrev steps_left : Option Node → ℕ
steps_left none = 0
steps_left (some n) = suc (rank n)

route-steps_left :
    (t : Option TerminalStatus) (n : Node) → steps_left (route_after_gate t n) ≤ suc (rank n)
unfolding route_after_gate
route-steps_left none n = omega arith
route-steps_left (some t) n = omega arith

after_green-rank : (x : Bool) → rank (after_green x) ≤ 2
after_green-rank true = omega arith
after_green-rank false = omega arith

next-steps_left : (x : Bool) (n : Node) (s : GraphState) → steps_left (next x n s) ≤ rank n
unfolding next
next-steps_left x ingest s = omega arith
next-steps_left x classify s = omega arith
next-steps_left x load_skill s = omega arith
next-steps_left x validate_circuit_breaker s = route-steps_left s.final_status select_recipe
next-steps_left x select_recipe s = route-steps_left s.final_status resolve_dependencies
next-steps_left x resolve_dependencies s = route-steps_left s.final_status validate_types
next-steps_left x validate_types s = route-steps_left s.final_status shadow_audit
next-steps_left x shadow_audit s =
    omega (arith, route-steps_left s.final_status (after_green x), after_green-rank x)
next-steps_left x execute_recipe s = omega arith
next-steps_left x explain_only s = omega arith
next-steps_left x apply_effects s = omega arith
next-steps_left x build_analysis s = omega arith

-- the run came to an end, and its result has the property
abbrev pub EndsWith : (GraphState → World → Type 0) → Option (GraphState × World) → Type 0
EndsWith P o = (r : GraphState × World) × ((o ≡ some r) × P r.0 r.1)

-- what holds where the run stands, at a node or at END
abbrev pub Condition : Type 1
Condition = Option Node → GraphState → World → Type 0

module _ (v : Services) (x : Bool) (P : Condition)
    (step : (n : Node) (s : GraphState) (w : World)
      → P (some n) s w
      → let (s', w') = run_node v n s w in P (next x n s') s' w') where
  pub run_from-EndsWith :
      (fuel : ℕ) (at : Option Node) (s : GraphState) (w : World)
      → steps_left at ≤ fuel
      → P at s w
      → EndsWith (P none) (run_from fuel v x at s w)
  unfolding run_from
  run_from-EndsWith fuel none s w enough h = ((s, w), (refl, h))
  run_from-EndsWith zero (some n) s w enough h = ground (arith, enough)
  run_from-EndsWith (suc fuel) (some n) s w enough h =
      let (s', w') = run_node v n s w in
      run_from-EndsWith fuel (next x n s') s' w' (omega (arith, enough, next-steps_left x n s'))
        (step n s w h)

  -- A condition that every node hands on to the next one holds at the end of the run.
  pub invoke-EndsWith :
      (s : GraphState) (w : World) → P (some ingest) s w → EndsWith (P none) (invoke v x s w)
  unfolding invoke
  invoke-EndsWith s w h = run_from-EndsWith 25 (some ingest) s w (omega arith) h

pub EndsWith-map :
    {P Q : GraphState → World → Type 0} {o : Option (GraphState × World)}
    → ((s : GraphState) (w : World) → P s w → Q s w)
    → EndsWith P o
    → EndsWith Q o
EndsWith-map f ((s, w), (e, h)) = ((s, w), (e, f s w h))
