-- ===== src/Agents.antt =====
-- agents/budget.py and agents/case_tools.py: the budget of an agent run, and the tools that it may
-- call. Token counts are not negative; dollars count millionths, and times whole milliseconds of the
-- monotonic clock.
pub mod Loop
pub mod Compaction
pub mod Harness
use asoe.Prelude.{
  ℕ, ◌+◌, ◌-◌, ◌≤◌, String, Bool, Option, none, some, List, [], ◌∷◌, ◌++◌, map, leb, is_some, ◌==◌,
  if◌then◌else◌,
}
use asoe.Prelude.Dict.{Dict, lookup, insert}
use asoe.Prelude.Results.{Result, ok, err}
use asoe.Value.{Value}

pub record CaseBudget : Type 0 where
  pub tier : ℕ
  pub max_input_tokens : ℕ
  pub max_output_tokens : ℕ
  pub max_iterations : ℕ
  pub max_wall_clock_ms : ℕ
  pub max_cost_usd : ℕ
  pub input_tokens_used : ℕ
  pub output_tokens_used : ℕ
  pub iterations_used : ℕ
  pub cost_usd_used : ℕ
  pub started_at_monotonic : ℕ

abbrev pub fresh_budget : (tier input output iterations wall_clock cost started : ℕ) → CaseBudget
fresh_budget tier input output iterations wall_clock cost started = record {
  tier = tier;
  max_input_tokens = input;
  max_output_tokens = output;
  max_iterations = iterations;
  max_wall_clock_ms = wall_clock;
  max_cost_usd = cost;
  input_tokens_used = 0;
  output_tokens_used = 0;
  iterations_used = 0;
  cost_usd_used = 0;
  started_at_monotonic = started;
}

-- `none` is the ValueError of an unknown tier
unfoldable pub for_tier : (tier started : ℕ) → Option CaseBudget
for_tier tier started =
    if tier == 1
    then some (fresh_budget 1 4000 1000 1 500 1000 started)
    else if tier == 2
    then some (fresh_budget 2 16000 4000 6 8000 50000 started)
    else if tier == 3
    then some (fresh_budget 3 8000 2000 8 12000 80000 started)
    else none

unfoldable pub deduct : (input output cost iterations : ℕ) → CaseBudget → CaseBudget
deduct input output cost iterations b = record b {
  input_tokens_used = b.input_tokens_used + input;
  output_tokens_used = b.output_tokens_used + output;
  iterations_used = b.iterations_used + iterations;
  cost_usd_used = b.cost_usd_used + cost;
}

pub data Limit : Type 0 where
  input_tokens output_tokens iterations cost_usd wall_clock_ms : Limit

unfoldable pub wall_clock_ms_used : (now : ℕ) → CaseBudget → ℕ
wall_clock_ms_used now b = now - b.started_at_monotonic

-- the first limit that is breached
unfoldable pub is_exhausted : (now : ℕ) → CaseBudget → Option Limit
unfolding wall_clock_ms_used
is_exhausted now b =
    if leb b.max_input_tokens b.input_tokens_used
    then some input_tokens
    else if leb b.max_output_tokens b.output_tokens_used
    then some output_tokens
    else if leb b.max_iterations b.iterations_used
    then some iterations
    else if leb b.max_cost_usd b.cost_usd_used
    then some cost_usd
    else if leb b.max_wall_clock_ms (wall_clock_ms_used now b)
    then some wall_clock_ms
    else none

unfoldable pub remaining_iterations : CaseBudget → ℕ
remaining_iterations b = b.max_iterations - b.iterations_used

pub record ToolCall : Type 0 where
  pub tool_name : String
  pub arguments : Dict Value

pub record ToolResult : Type 0 where
  pub tool_name : String
  pub status : String
  pub data_of : Dict Value
  pub error : Option String
  pub latency_ms : ℕ
  pub cost_usd : ℕ

pub record ToolContext : Type 0 where
  pub tenant_id : String
  pub case_id : String
  pub extras : Dict Value

pub data HandlerOutcome : Type 0 where
  returned : ToolResult → HandlerOutcome
  raised : String → HandlerOutcome

-- a tool acts on a world `W`, of which it may change anything
pub record ToolSpec (W : Type 0) : Type 0 where
  pub name : String
  pub description : String
  pub handler : ToolContext → Dict Value → W → HandlerOutcome × W

abbrev pub ToolRegistry : Type 0 → Type 0
ToolRegistry W = Dict (ToolSpec W)

-- the error is the name that is taken
unfoldable pub register_tool :
    {W : Type 0} → ToolSpec W → ToolRegistry W → Result String (ToolRegistry W)
register_tool spec tools =
    if is_some (lookup spec.name tools) then err spec.name else ok (insert spec.name spec tools)

abbrev pub failure_of : String → HandlerOutcome → ToolResult
failure_of name (returned r) = r
failure_of name (raised text) = record {
  tool_name = name;
  status = "error";
  data_of = [];
  error = some text;
  latency_ms = 0;
  cost_usd = 0;
}

abbrev pub timed : ℕ → ToolResult → ToolResult
timed elapsed r = if r.latency_ms == 0 then record r { latency_ms = elapsed } else r

module _ {W : Type 0} (now_ms : W → ℕ) where
  unfoldable pub invoke_at : Option (ToolSpec W) → ToolContext → ToolCall → W → ToolResult × W
  invoke_at none ctx call w = (
    record {
      tool_name = call.tool_name;
      status = "not_found";
      data_of = [];
      error = some call.tool_name;
      latency_ms = 0;
      cost_usd = 0;
    },
    w,
  )
  invoke_at (some spec) ctx call w =
      let (outcome, w') = spec.handler ctx call.arguments w in
      (timed (now_ms w' - now_ms w) (failure_of call.tool_name outcome), w')

  unfoldable pub invoke_tool : ToolRegistry W → ToolContext → ToolCall → W → ToolResult × W
  unfolding invoke_at
  invoke_tool tools ctx call w = invoke_at (lookup call.tool_name tools) ctx call w
