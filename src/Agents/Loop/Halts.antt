-- ===== src/Agents/Loop/Halts.antt =====
-- agents/case_agent.py: what the outcome of a run rests on.
use asoe.Prelude.{
  ℕ, zero, suc, ◌≡◌, ◌⊎◌, refl, subst, inl, inr, true, Option, none, some, List, [], ◌∷◌, ◌++◌,
  Bool-cases, Option-cases, String,
}
use asoe.Cases.{OrderCase}
use asoe.Pipeline.{OrderEvent}
use asoe.Agents.{
  CaseBudget, remaining_iterations, is_exhausted, ToolCall, ToolResult, ToolContext, invoke_tool,
}
use asoe.Agents.Loop.{
  AgentPort, LlmOutcome, answered, failed_with, ActionNote, AgentRunOutcome, run_error,
  budget_exhausted, HaltReason, AgentRunResult, AgentState, halts, outcome_for_halt_tool,
  after_tool, run_tools, finish, after_calls, after_answer, after_call, frame_of, turn_at, turn,
  continue_with, agent_loop, start_state, run_case_agent,
}

module _ {W : Type 0} (port : AgentPort W) (case : OrderCase) (skill_name : String)
    (current_event : OrderEvent) (ctx : ToolContext) where
  -- the last tool call of the trace is a halt tool that succeeded, and the outcome is the one it stands for
  abbrev pub HaltedBy : AgentRunOutcome → List (ToolCall × ToolResult) → Type 0
  HaltedBy outcome trace =
      (before : List (ToolCall × ToolResult)) × (call : ToolCall) × (r : ToolResult) × (trace
        ≡ before ++ ((call, r) ∷ []))
      × (halts call r ≡ true)
      × (outcome ≡ outcome_for_halt_tool port.upper call.tool_name r.data_of)

  abbrev pub IsFounded : AgentRunResult → Type 0
  IsFounded r =
      (r.outcome ≡ run_error) ⊎ ((r.outcome ≡ budget_exhausted) ⊎ HaltedBy r.outcome r.tool_trace)

  abbrev AreFounded : Option (AgentRunOutcome × Option HaltReason) × AgentState W → Type 0
  AreFounded (none, s) = Unit
  AreFounded (some (o, h), s) = HaltedBy o s.tool_trace

  run_tools-AreFounded :
      (calls : List ToolCall) (s : AgentState W)
      → AreFounded (run_tools port case skill_name current_event ctx calls s)
  unfolding run_tools after_tool
  run_tools-AreFounded [] s = tt
  run_tools-AreFounded (call ∷ calls) s =
      let x = invoke_tool port.now_ms port.tools ctx call s.world in
      elim (Bool-cases (halts call x.0)) [
        | inl halted ↦ rw halted (s.tool_trace, call, x.0, refl, halted, refl)
        | inr open_still ↦ rw open_still (
            run_tools-AreFounded calls
              (after_tool port case skill_name current_event ctx call x.0 x.1 s))
      ]

  abbrev IsSound : Option AgentRunResult × AgentState W → Type 0
  IsSound (none, s) = Unit
  IsSound (some r, s) = IsFounded r

  finish-IsSound :
      (t : Option (AgentRunOutcome × Option HaltReason) × AgentState W)
      → AreFounded t
      → IsSound (finish port case skill_name current_event ctx t)
  finish-IsSound (none, s) h = tt
  finish-IsSound (some (o, r), s) h = inr (inr h)

  after_calls-IsSound :
      (calls : List ToolCall) (s : AgentState W)
      → IsSound (after_calls port case skill_name current_event ctx calls s)
  unfolding after_calls
  after_calls-IsSound [] s = inl refl
  after_calls-IsSound (call ∷ calls) s =
      finish-IsSound (run_tools port case skill_name current_event ctx (call ∷ calls) s)
        (run_tools-AreFounded (call ∷ calls) s)

  after_call-IsSound :
      (o : LlmOutcome × W) (s : AgentState W)
      → IsSound (after_call port case skill_name current_event ctx o s)
  unfolding after_call after_answer
  after_call-IsSound (failed_with e, w) s = inl refl
  after_call-IsSound (answered a, w) s = after_calls-IsSound a.tool_calls _

  turn-IsSound : (s : AgentState W) → IsSound (turn port case skill_name current_event ctx s)
  unfolding turn turn_at
  turn-IsSound s = elim (Option-cases (is_exhausted (port.now_ms s.world) s.budget)) [
    | inl left ↦ rw left (
        after_call-IsSound (port.call (frame_of port case skill_name current_event ctx s) s.world)
          s)
    | inr (l, over) ↦ rw over (inr (inl refl))
  ]

  continue-IsFounded :
      (go : AgentState W → Option (AgentRunResult × AgentState W))
      (t : Option AgentRunResult × AgentState W) (r : AgentRunResult) (u : AgentState W)
      → IsSound t
      → ((s : AgentState W) → go s ≡ some (r, u) → IsFounded r)
      → continue_with port case skill_name current_event ctx go t ≡ some (r, u)
      → IsFounded r
  continue-IsFounded go (none, s) r u h next e = next s e
  continue-IsFounded go (some r', s) r u h next e = let same : r' ≡ r = cc in subst IsFounded same h

  agent_loop-IsFounded :
      (n : ℕ) (s t : AgentState W) (r : AgentRunResult)
      → agent_loop port case skill_name current_event ctx n s ≡ some (r, t)
      → IsFounded r
  unfolding agent_loop
  agent_loop-IsFounded zero s t r e = cc
  agent_loop-IsFounded (suc n) s t r e =
      continue-IsFounded (agent_loop port case skill_name current_event ctx n)
        (turn port case skill_name current_event ctx s) r t (turn-IsSound s)
        (λ v f. agent_loop-IsFounded n v t r f) e

  -- A run that ends otherwise than by an error or an exhausted budget has, as the last call of its trace,
  -- a halt tool that succeeded, and its outcome is the one that this tool stands for.
  pub run_case_agent-IsFounded :
      (b : CaseBudget) (actions : List ActionNote) (w : W) (r : AgentRunResult) (t : AgentState W)
      → run_case_agent port case skill_name current_event ctx b actions w ≡ some (r, t)
      → IsFounded r
  unfolding run_case_agent
  run_case_agent-IsFounded b actions w r t e =
      agent_loop-IsFounded (suc (remaining_iterations b))
        (start_state port case skill_name current_event ctx b actions w) t r e
