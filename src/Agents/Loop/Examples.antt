-- ===== src/Agents/Loop/Examples.antt =====
-- The loop of the agent with a provider that escalates at once.
use asoe.Prelude.{ℕ, ◌≤◌, ◌≡◌, refl, none, some, [], ◌∷◌, max}
use asoe.Agents.{CaseBudget, invoke_tool, is_exhausted, remaining_iterations, deduct}
use asoe.Agents.Loop.{
  AgentState, AgentRunResult, run_escalated, reason_code, run_case_agent, agent_loop, turn, turn_at,
  after_call, after_answer, after_calls, run_tools, after_tool, outcome_for_halt_tool, frame_of,
}
use asoe.Agents.Loop.Bounds.{run_case_agent-ends}
use asoe.Agents.Loop.Halts.{IsFounded, run_case_agent-IsFounded}
use asoe.Agents.Loop.Fixtures.{port, ctx, budget, escalation, escalation_result}
use asoe.Cases.Fixtures.{po_case}
use asoe.Pipeline.Fixtures.{event}

run_case_agent-ends_example :
    (r : AgentRunResult) × (t : AgentState ℕ) × (run_case_agent port po_case "pricing" event ctx
        budget [] 0
      ≡ some (r, t))
    × (r.iterations ≤ max budget.max_iterations budget.iterations_used)
run_case_agent-ends_example = run_case_agent-ends port po_case "pricing" event ctx budget [] 0

abbrev charged : CaseBudget
charged = record budget {
  input_tokens_used = 900;
  output_tokens_used = 80;
  iterations_used = 1;
  cost_usd_used = 2000;
}

abbrev escalated_result : AgentRunResult
escalated_result = record {
  case_id = "case-1";
  outcome = run_escalated;
  halt_reason = some (reason_code "PRICE_ABOVE_TOLERANCE");
  iterations = 1;
  tool_trace = (escalation, escalation_result) ∷ [];
  budget_snapshot = some charged;
}

abbrev escalated_state : AgentState ℕ
escalated_state = record {
  budget = charged;
  actions = record { tool = "escalate"; status = "ok"; error = none } ∷ [];
  tool_trace = (escalation, escalation_result) ∷ [];
  world = 705;
}

escalates :
    run_case_agent port po_case "pricing" event ctx budget [] 0
    ≡ some (escalated_result, escalated_state)
unfolding run_case_agent agent_loop turn turn_at is_exhausted after_call after_answer after_calls
    run_tools invoke_tool after_tool outcome_for_halt_tool frame_of remaining_iterations deduct
escalates = refl

run_case_agent-IsFounded_example : IsFounded port po_case "pricing" event ctx escalated_result
run_case_agent-IsFounded_example =
    run_case_agent-IsFounded port po_case "pricing" event ctx budget [] 0 escalated_result
      escalated_state escalates
