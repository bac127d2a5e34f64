-- ===== src/Agents/Loop/Fixtures.antt =====
-- A provider that escalates at once, for the examples. The world is a clock.
use asoe.Prelude.{ℕ, ◌+◌, none, [], ◌∷◌}
use asoe.Value.{str}
use asoe.Agents.{CaseBudget, fresh_budget, ToolContext, returned, ToolCall, ToolResult}
use asoe.Agents.Loop.{AgentPort, answered}

abbrev pub budget : CaseBudget
budget = fresh_budget 2 16000 4000 6 8000 50000 0

abbrev pub ctx : ToolContext
ctx = record { tenant_id = "acme"; case_id = "case-1"; extras = [] }

abbrev pub escalation : ToolCall
escalation = record { tool_name = "escalate"; arguments = [] }

-- what the tool gives, with the five milliseconds that it takes
abbrev pub escalation_result : ToolResult
escalation_result = record {
  tool_name = "escalate";
  status = "ok";
  data_of = ("reason_code", str "PRICE_ABOVE_TOLERANCE") ∷ [];
  error = none;
  latency_ms = 5;
  cost_usd = 0;
}

abbrev pub port : AgentPort ℕ
port = record {
  call = λ f w. (
    answered (record {
      tool_calls = escalation ∷ [];
      input_tokens = 900;
      output_tokens = 80;
      cost_usd = 2000;
    }),
    w + 700,
  );
  now_ms = λ w. w;
  tools =
      (
        "escalate",
        record {
          name = "escalate";
          description = "";
          handler = λ c a w. (returned (record escalation_result { latency_ms = 0 }), w + 5);
        },
      )
      ∷ [];
  upper = λ s. s;
}
