-- ===== src/Agents/Loop/Bounds.antt =====
-- agents/case_agent.py: the loop ends within its budget.
use asoe.Prelude.{
  ℕ, zero, suc, ◌+◌, ◌≤◌, ◌<◌, ◌≡◌, refl, inl, inr, Option, none, some, List, [], ◌∷◌, arith,
  Option-cases, String, max,
}
use asoe.Cases.{OrderCase}
use asoe.Pipeline.{OrderEvent}
use asoe.Agents.{
  CaseBudget, deduct, remaining_iterations, is_exhausted, ToolCall, ToolContext, invoke_tool,
}
use asoe.Agents.Loop.{
  AgentPort, LlmOutcome, answered, failed_with, ActionNote, AgentRunOutcome, HaltReason,
  AgentRunResult, AgentState, after_tool, run_tools, finish, after_calls, after_answer, after_call,
  frame_of, turn_at, turn, continue_with, agent_loop, start_state, run_case_agent,
}

-- the iterations and their limit stand where they stood
abbrev IsUncharged : {W : Type 0} → AgentState W → AgentState W → Type 0
IsUncharged s t =
    (t.budget.iterations_used ≡ s.budget.iterations_used)
    × (t.budget.max_iterations ≡ s.budget.max_iterations)

-- what a round does to the count of iterations: it ends the run at most one above, or goes on at one
-- above, and either only below the limit
abbrev IsCharged : {W : Type 0} → AgentState W → Option AgentRunResult × AgentState W → Type 0
IsCharged s (none, t) =
    (t.budget.iterations_used ≡ s.budget.iterations_used + 1)
    × (t.budget.max_iterations ≡ s.budget.max_iterations)
    × (s.budget.iterations_used < s.budget.max_iterations)
IsCharged s (some r, t) = r.iterations ≤ max s.budget.max_iterations s.budget.iterations_used

module _ {W : Type 0} (port : AgentPort W) (case : OrderCase) (skill_name : String)
    (current_event : OrderEvent) (ctx : ToolContext) where
  run_tools-IsUncharged :
      (calls : List ToolCall) (s : AgentState W)
      → IsUncharged s (run_tools port case skill_name current_event ctx calls s).1
  unfolding run_tools after_tool deduct
  run_tools-IsUncharged [] s = (refl, refl)
  run_tools-IsUncharged (call ∷ calls) s =
      let (r, w) = invoke_tool port.now_ms port.tools ctx call s.world in
      let s' = after_tool port case skill_name current_event ctx call r w s in
      ground (arith, run_tools-IsUncharged calls s')

  finish-IsCharged :
      (s : AgentState W) (t : Option (AgentRunOutcome × Option HaltReason) × AgentState W)
      → s.budget.iterations_used < s.budget.max_iterations
      → t.1.budget.iterations_used ≡ s.budget.iterations_used + 1
      → t.1.budget.max_iterations ≡ s.budget.max_iterations
      → IsCharged s (finish port case skill_name current_event ctx t)
  finish-IsCharged s (none, t) b u m = (u, m, b)
  finish-IsCharged s (some (o, h), t) b u m = ground (arith, b, u)

  after_calls-IsCharged :
      (s t : AgentState W) (calls : List ToolCall)
      → s.budget.iterations_used < s.budget.max_iterations
      → t.budget.iterations_used ≡ s.budget.iterations_used + 1
      → t.budget.max_iterations ≡ s.budget.max_iterations
      → IsCharged s (after_calls port case skill_name current_event ctx calls t)
  unfolding after_calls
  after_calls-IsCharged s t [] b u m = ground (arith, b, u)
  after_calls-IsCharged s t (call ∷ calls) b u m =
      let (u', m') = run_tools-IsUncharged (call ∷ calls) t in
      finish-IsCharged s _ b (omega arith) (omega arith)

  after_call-IsCharged :
      (s : AgentState W) (o : LlmOutcome × W)
      → s.budget.iterations_used < s.budget.max_iterations
      → IsCharged s (after_call port case skill_name current_event ctx o s)
  unfolding after_call after_answer deduct
  after_call-IsCharged s (failed_with e, w) b = ground (arith, b)
  after_call-IsCharged s (answered a, w) b = after_calls-IsCharged s _ a.tool_calls b refl refl

  below_limit :
      (now : ℕ) (b : CaseBudget) → is_exhausted now b ≡ none → b.iterations_used < b.max_iterations
  unfolding is_exhausted
  below_limit now b h = ground (arith, h)

  turn-IsCharged : (s : AgentState W) → IsCharged s (turn port case skill_name current_event ctx s)
  unfolding turn turn_at
  turn-IsCharged s = elim (Option-cases (is_exhausted (port.now_ms s.world) s.budget)) [
    | inl left ↦ rw left (
        after_call-IsCharged s
          (port.call (frame_of port case skill_name current_event ctx s) s.world)
          (below_limit _ s.budget left))
    | inr (l, over) ↦ rw over (ground arith)
  ]

  -- the loop gives a result, within the limit
  abbrev IsDone : AgentState W → Option (AgentRunResult × AgentState W) → Type 0
  IsDone s o =
      (r : AgentRunResult) × (t : AgentState W) × (o ≡ some (r, t))
      × (r.iterations ≤ max s.budget.max_iterations s.budget.iterations_used)

  continue-IsDone :
      (go : AgentState W → Option (AgentRunResult × AgentState W)) (s : AgentState W)
      (t : Option AgentRunResult × AgentState W)
      → IsCharged s t
      → ((u : AgentState W)
          → (u.budget.iterations_used ≡ s.budget.iterations_used + 1)
          → (u.budget.max_iterations ≡ s.budget.max_iterations)
          → (s.budget.iterations_used < s.budget.max_iterations)
          → IsDone u (go u))
      → IsDone s (continue_with port case skill_name current_event ctx go t)
  continue-IsDone go s (none, u) c next =
      let (r, t, e, b) = next u c.0 c.1 c.2 in (r, t, e, ground (arith, b, c.0, c.1, c.2))
  continue-IsDone go s (some r, u) c next = (r, u, refl, c)

  agent_loop-IsDone :
      (n : ℕ) (s : AgentState W)
      → remaining_iterations s.budget < n
      → IsDone s (agent_loop port case skill_name current_event ctx n s)
  unfolding agent_loop remaining_iterations
  agent_loop-IsDone zero s h = absurd (omega arith)
  agent_loop-IsDone (suc n) s h =
      continue-IsDone (agent_loop port case skill_name current_event ctx n) s
        (turn port case skill_name current_event ctx s) (turn-IsCharged s)
        (λ u e m b. agent_loop-IsDone n u (omega arith))

  -- A run of the agent ends, whatever the provider answers and the tools do, and it has made as many
  -- rounds as its budget allows iterations at most, or as it had used before.
  pub run_case_agent-ends :
      (b : CaseBudget) (actions : List ActionNote) (w : W)
      → (r : AgentRunResult) × (t : AgentState W) × (run_case_agent port case skill_name
            current_event ctx b actions w
          ≡ some (r, t))
        × (r.iterations ≤ max b.max_iterations b.iterations_used)
  unfolding run_case_agent
  run_case_agent-ends b actions w =
      agent_loop-IsDone (suc (remaining_iterations b))
        (start_state port case skill_name current_event ctx b actions w) (omega arith)
