-- ===== src/Agents/Loop.antt =====
-- agents/case_agent.py: the loop of the case agent over a provider of language-model answers. The
-- provider, the clock and the working memory that is built from the case (agents/working_memory.py)
-- belong to the world `W`.
pub mod Bounds
pub mod Halts
pub mod Fixtures
mod Examples
use asoe.Prelude.{
  ℕ, zero, suc, ◌+◌, String, Bool, true, false, ◌&&◌, ◌||◌, Option, none, some, List, [], ◌∷◌, ◌++◌,
  str_eq, ◌==◌, or_else, if◌then◌else◌,
}
use asoe.Prelude.Dict.{Dict, lookup}
use asoe.Value.{Value, str}
use asoe.Cases.{OrderCase}
use asoe.Pipeline.{OrderEvent}
use asoe.Agents.{
  CaseBudget, for_tier, deduct, remaining_iterations, Limit, is_exhausted, ToolCall, ToolResult,
  ToolContext, ToolRegistry, invoke_tool,
}

pub record AgentLlmResponse : Type 0 where
  pub tool_calls : List ToolCall
  pub input_tokens : ℕ
  pub output_tokens : ℕ
  pub cost_usd : ℕ

pub data LlmOutcome : Type 0 where
  answered : AgentLlmResponse → LlmOutcome
  failed_with : String → LlmOutcome

-- what the agent is told of a tool call
pub record ActionNote : Type 0 where
  pub tool : String
  pub status : String
  pub error : Option String

-- what the working memory is built from
pub record Frame : Type 0 where
  pub case : OrderCase
  pub skill_name : String
  pub current_event : OrderEvent
  pub last_actions : List ActionNote

pub record AgentPort (W : Type 0) : Type 0 where
  pub call : Frame → W → LlmOutcome × W
  pub now_ms : W → ℕ
  pub tools : ToolRegistry W
  -- `str.upper`
  pub upper : String → String

pub data AgentRunOutcome : Type 0 where
  run_resolved run_escalated awaiting_buyer awaiting_erp budget_exhausted run_error :
      AgentRunOutcome

pub data HaltReason : Type 0 where
  limit_breached : Limit → HaltReason
  llm_provider_error : String → HaltReason
  no_tool_calls : HaltReason
  reason_code : String → HaltReason
  case_locked : HaltReason

pub record AgentRunResult : Type 0 where
  pub case_id : String
  pub outcome : AgentRunOutcome
  pub halt_reason : Option HaltReason
  pub iterations : ℕ
  pub tool_trace : List (ToolCall × ToolResult)
  pub budget_snapshot : Option CaseBudget

-- the variables of the loop
pub record AgentState (W : Type 0) : Type 0 where
  pub budget : CaseBudget
  pub actions : List ActionNote
  pub tool_trace : List (ToolCall × ToolResult)
  pub world : W

abbrev pub is_halt_tool : String → Bool
is_halt_tool n =
    str_eq n "escalate" || str_eq n "request_clarification_email" || str_eq n "declare_done"

-- `str(data.get(k) or "")`, of a text
abbrev pub text_or_empty : String → Dict Value → String
text_or_empty k d = elim (lookup k d) [ some (str t) ↦ t | _ ↦ "" ]

unfoldable pub outcome_for_halt_tool :
    (upper : String → String) → String → Dict Value → AgentRunOutcome
outcome_for_halt_tool upper n d =
    if str_eq n "escalate"
    then run_escalated
    else if str_eq n "request_clarification_email"
    then awaiting_buyer
    else if str_eq (upper (text_or_empty "case_status_after" d)) "OPEN_AWAITING_ERP"
        || str_eq (upper (text_or_empty "case_status_after" d)) "AWAITING_ERP"
    then awaiting_erp
    else run_resolved

abbrev pub halt_reason_of : String → Dict Value → Option HaltReason
halt_reason_of n d =
    if str_eq n "escalate" then some (reason_code (text_or_empty "reason_code" d)) else none

abbrev pub halts : ToolCall → ToolResult → Bool
halts call r = is_halt_tool call.tool_name && str_eq r.status "ok"

module _ {W : Type 0} (port : AgentPort W) (case : OrderCase) (skill_name : String)
    (current_event : OrderEvent) (ctx : ToolContext) where
  -- the books after one tool call
  unfoldable pub after_tool : ToolCall → ToolResult → W → AgentState W → AgentState W
  unfolding deduct
  after_tool call r w s = record {
    budget = deduct 0 0 r.cost_usd 0 s.budget;
    actions =
        s.actions ++ (record { tool = call.tool_name; status = r.status; error = r.error } ∷ []);
    tool_trace = s.tool_trace ++ ((call, r) ∷ []);
    world = w;
  }

  -- the loop over the tool calls of one answer: it breaks at a halt tool that succeeds
  unfoldable pub run_tools :
      List ToolCall → AgentState W → Option (AgentRunOutcome × Option HaltReason) × AgentState W
  unfolding after_tool invoke_tool outcome_for_halt_tool
  run_tools [] s = (none, s)
  run_tools (call ∷ calls) s =
      let (r, w) = invoke_tool port.now_ms port.tools ctx call s.world in
      let s' = after_tool call r w s in
      let rest = run_tools calls s' in
      if halts call r
      then (
        some (
          outcome_for_halt_tool port.upper call.tool_name r.data_of,
          halt_reason_of call.tool_name r.data_of,
        ),
        s',
      )
      else rest

  abbrev pub result_of : AgentRunOutcome → Option HaltReason → AgentState W → AgentRunResult
  result_of outcome reason s = record {
    case_id = case.case_id;
    outcome = outcome;
    halt_reason = reason;
    iterations = s.budget.iterations_used;
    tool_trace = s.tool_trace;
    budget_snapshot = some s.budget;
  }

  -- the end of a turn: the result of the run, or none where the loop goes on, and the state
  abbrev pub finish :
      Option (AgentRunOutcome × Option HaltReason) × AgentState W
      → Option AgentRunResult × AgentState W
  finish (none, s) = (none, s)
  finish (some (outcome, reason), s) = (some (result_of outcome reason s), s)

  unfoldable pub after_calls : List ToolCall → AgentState W → Option AgentRunResult × AgentState W
  unfolding run_tools
  after_calls [] s = (some (result_of run_error (some no_tool_calls) s), s)
  after_calls (call ∷ calls) s = finish (run_tools (call ∷ calls) s)

  -- an answer is charged before its tool calls are made
  unfoldable pub after_answer :
      AgentLlmResponse → W → AgentState W → Option AgentRunResult × AgentState W
  unfolding after_calls deduct
  after_answer a w s =
      after_calls a.tool_calls (record s {
        budget = deduct a.input_tokens a.output_tokens a.cost_usd 1 s.budget;
        world = w;
      })

  unfoldable pub after_call : LlmOutcome × W → AgentState W → Option AgentRunResult × AgentState W
  unfolding after_answer
  after_call (failed_with e, w) s =
      let s' = record s { world = w } in
      (some (result_of run_error (some (llm_provider_error e)) s'), s')
  after_call (answered a, w) s = after_answer a w s

  unfoldable pub frame_of : AgentState W → Frame
  frame_of s = record {
    case = case;
    skill_name = skill_name;
    current_event = current_event;
    last_actions = s.actions;
  }

  unfoldable pub turn_at : Option Limit → AgentState W → Option AgentRunResult × AgentState W
  unfolding after_call frame_of
  turn_at (some l) s = (some (result_of budget_exhausted (some (limit_breached l)) s), s)
  turn_at none s = after_call (port.call (frame_of s) s.world) s

  -- one round of the loop
  unfoldable pub turn : AgentState W → Option AgentRunResult × AgentState W
  unfolding turn_at is_exhausted
  turn s = turn_at (is_exhausted (port.now_ms s.world) s.budget) s

  abbrev pub continue_with :
      (AgentState W → Option (AgentRunResult × AgentState W))
      → Option AgentRunResult × AgentState W
      → Option (AgentRunResult × AgentState W)
  continue_with go (none, s) = go s
  continue_with go (some r, s) = some (r, s)

  -- the loop on fuel: none means that the fuel ran out
  unfoldable pub agent_loop : ℕ → AgentState W → Option (AgentRunResult × AgentState W)
  unfolding turn
  agent_loop zero s = none
  agent_loop (suc n) s = continue_with (agent_loop n) (turn s)

  abbrev pub start_state : CaseBudget → List ActionNote → W → AgentState W
  start_state b last_actions w = record {
    budget = b;
    actions = last_actions;
    tool_trace = [];
    world = w;
  }

  -- with the fuel of one round more than the iterations that are left
  unfoldable pub run_case_agent :
      CaseBudget → List ActionNote → W → Option (AgentRunResult × AgentState W)
  unfolding agent_loop remaining_iterations
  run_case_agent b last_actions w =
      agent_loop (suc (remaining_iterations b)) (start_state b last_actions w)

-- `budget or CaseBudget.for_case(case)`: `none` is the ValueError
unfoldable pub budget_of : Option CaseBudget → OrderCase → (now : ℕ) → Option CaseBudget
unfolding for_tier
budget_of (some b) case now = some b
budget_of none case now = for_tier case.tier now
