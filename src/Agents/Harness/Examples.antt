-- ===== src/Agents/Harness/Examples.antt =====
-- A step of the harness on one case, with its lock free and with its lock held by another thread.
use asoe.Prelude.{ℕ, ◌≡◌, refl, false, none, some, [], ◌∷◌}
use asoe.Prelude.Results.{ok}
use asoe.Cases.Fixtures.{no_cases, po_case}
use asoe.Pipeline.Fixtures.{event}
use asoe.Agents.Loop.Fixtures.{port}
use asoe.Agents.Harness.{HarnessPort, StepInput, StepWorld, skipped_result, run_agent_step}
use asoe.Agents.Harness.Steps.{IsLogged, run_agent_step-IsKept, run_agent_step-locked}

-- the store is not part of the world of these examples
abbrev harness : HarnessPort ℕ
harness = record {
  agent = port;
  store_of = λ w. record no_cases { cases = ("case-1", po_case) ∷ [] };
  with_store = λ s w. w;
  now_iso = λ w. "2026-01-01";
  open_seconds = λ c w. some w;
  len = λ s. 40;
  line_of = λ e. "";
  compaction_id = λ c t. c;
  join = λ k. "";
}

abbrev input : StepInput
input = record {
  skill_name = "pricing";
  current_event = event;
  is_clean_event = false;
  budget = none;
  last_actions = [];
  tool_extras = [];
}

abbrev idle_world : StepWorld ℕ
idle_world = record { locks = []; replay_log = []; world = 0 }

run_agent_step-IsKept_example :
    ((run_agent_step harness 1 input po_case idle_world).1.locks ≡ [])
    × IsLogged [] (run_agent_step harness 1 input po_case idle_world)
run_agent_step-IsKept_example = run_agent_step-IsKept harness 1 input po_case idle_world

-- thread 2 is at work on the case
abbrev busy_world : StepWorld ℕ
busy_world = record idle_world {
  locks = record { tenant_id = "acme"; case_id = "case-1"; thread = 2 } ∷ [];
}

run_agent_step-locked_example :
    run_agent_step harness 1 input po_case busy_world ≡ (ok (skipped_result po_case), busy_world)
run_agent_step-locked_example = run_agent_step-locked harness 1 input po_case busy_world refl
