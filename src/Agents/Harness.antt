-- ===== src/Agents/Harness.antt =====
-- agents/harness.py: one step of the harness around the loop of the case agent, with the per-case lock,
-- the replay log, the graduation of the tier and the compaction. The locks are the in-process ones,
-- re-entrant for the thread that holds them. The second opinion, which a step only observes, and the
-- database-backed twins are left out.
pub mod Steps
mod Examples
use asoe.Prelude.{
  ℕ, zero, suc, ◌+◌, String, Bool, true, false, ◌&&◌, not, Option, none, some, List, [], ◌∷◌, ◌++◌,
  map, str_eq, ◌==◌, is_some, or_else, keep_if, any_of, if◌then◌else◌,
}
use asoe.Prelude.Dict.{Dict, lookup}
use asoe.Prelude.Results.{Result, ok, err}
use asoe.Value.{Value, str}
use asoe.Cases.{OrderCase, CaseStore, StoreError}
use asoe.Cases.Update.{CaseFields, no_fields, Attribution, update}
use asoe.Pipeline.{OrderEvent}
use asoe.Agents.{CaseBudget, ToolCall, ToolResult, ToolContext}
use asoe.Agents.Loop.{
  AgentPort, AgentRunResult, run_error, case_locked, AgentRunOutcome, AgentState, ActionNote,
  HaltReason, run_case_agent, budget_of,
}
use asoe.Agents.Compaction.{CompactionResult, run_compaction}

-- one acquisition of a case's lock by a thread
pub record Hold : Type 0 where
  pub tenant_id : String
  pub case_id : String
  pub thread : ℕ

abbrev pub is_foreign : (tenant case_id : String) → (thread : ℕ) → Hold → Bool
is_foreign tenant case_id thread h =
    str_eq h.tenant_id tenant && str_eq h.case_id case_id && not (h.thread == thread)

-- a re-entrant lock is refused where another thread holds it
unfoldable pub try_acquire :
    (tenant case_id : String) → (thread : ℕ) → List Hold → Option (List Hold)
try_acquire tenant case_id thread locks =
    if any_of (is_foreign tenant case_id thread) locks
    then none
    else some (record { tenant_id = tenant; case_id = case_id; thread = thread } ∷ locks)

abbrev pub is_hold : (tenant case_id : String) → (thread : ℕ) → Hold → Bool
is_hold tenant case_id thread h =
    str_eq h.tenant_id tenant && str_eq h.case_id case_id && (h.thread == thread)

-- `lock.release()` undoes one acquisition
unfoldable pub release : (tenant case_id : String) → (thread : ℕ) → List Hold → List Hold
release tenant case_id thread [] = []
release tenant case_id thread (h ∷ locks) =
    let rest = release tenant case_id thread locks in
    if is_hold tenant case_id thread h then locks else h ∷ rest

pub record ToolCallReplayEntry : Type 0 where
  pub iterations : ℕ
  pub index : ℕ
  pub case_id : String
  pub tenant_id : String
  pub occurred_at : String
  pub tool_call : ToolCall
  pub tool_result : ToolResult
  pub outcome : AgentRunOutcome

-- `_persist_tool_trace` from an index on
unfoldable pub replay_entries :
    OrderCase
    → (now : String) → AgentRunResult
    → ℕ
    → List (ToolCall × ToolResult)
    → List ToolCallReplayEntry
replay_entries c now r i [] = []
replay_entries c now r i ((call, result) ∷ trace) =
    record {
      iterations = r.iterations;
      index = i;
      case_id = c.case_id;
      tenant_id = c.tenant_id;
      occurred_at = now;
      tool_call = call;
      tool_result = result;
      outcome = r.outcome;
    }
    ∷ replay_entries c now r (i + 1) trace

unfoldable pub list_for_case : String → List ToolCallReplayEntry → List ToolCallReplayEntry
list_for_case case_id log = keep_if (λ e. str_eq e.case_id case_id) log

-- forward only, and never on a clean event
unfoldable pub graduate_tier_if_needed : (is_clean_event : Bool) → OrderCase → Option OrderCase
graduate_tier_if_needed is_clean c =
    if is_clean
    then none
    else if c.tier == 1
    then some (record c { tier = 2 })
    else if c.tier == 2
    then some (record c { tier = 3 })
    else none

-- what a step calls: the agent's port, the case store within the world, the clocks, and what the
-- compaction leaves open
pub record HarnessPort (W : Type 0) : Type 0 where
  pub agent : AgentPort W
  pub store_of : W → CaseStore
  pub with_store : CaseStore → W → W
  pub now_iso : W → String
  pub open_seconds : OrderCase → W → Option ℕ
  pub len : String → ℕ
  pub line_of : ToolCallReplayEntry → String
  pub compaction_id : String → String → String
  -- one text of the lines of a summary
  pub join : CompactionResult → String

pub data StepError : Type 0 where
  store_error : StoreError → StepError
  unknown_tier : StepError
  still_running : StepError

pub record HarnessStepResult : Type 0 where
  pub agent_result : AgentRunResult
  pub case : OrderCase
  pub replay_entries : List ToolCallReplayEntry
  pub compaction : Option CompactionResult
  pub skipped : Bool

pub record StepWorld (W : Type 0) : Type 0 where
  pub locks : List Hold
  pub replay_log : List ToolCallReplayEntry
  pub world : W

-- what the caller of a step gives it
pub record StepInput : Type 0 where
  pub skill_name : String
  pub current_event : OrderEvent
  pub is_clean_event : Bool
  pub budget : Option CaseBudget
  pub last_actions : List ActionNote
  pub tool_extras : Dict Value

abbrev by_harness : Attribution
by_harness = record {
  classified_by = none;
  classifier_type = none;
  intent_code_classification = none;
  reason_text = none;
}

abbrev pub skipped_result : OrderCase → HarnessStepResult
skipped_result c = record {
  agent_result = record {
    case_id = c.case_id;
    outcome = run_error;
    halt_reason = some case_locked;
    iterations = 0;
    tool_trace = [];
    budget_snapshot = none;
  };
  case = c;
  replay_entries = [];
  compaction = none;
  skipped = true;
}

abbrev pub Outcome : Type 0 → Type 0
Outcome W = Result StepError HarnessStepResult × StepWorld W

module _ {W : Type 0} (port : HarnessPort W) where
  -- `case_store.update`, in the world
  unfoldable pub update_store : String → CaseFields → W → Result StoreError (OrderCase × W)
  unfolding update
  update_store case_id f w = elim (update case_id (port.now_iso w) by_harness f (port.store_of w)) [
    | err e ↦ err e
    | ok (c, s) ↦ ok (c, port.with_store s w)
  ]

  unfoldable pub finish_step :
      OrderCase
      → AgentRunResult
      → List ToolCallReplayEntry
      → Option CompactionResult
      → StepWorld W
      → Outcome W
  finish_step c r entries compaction w = (
    ok (record {
      agent_result = r;
      case = or_else (lookup c.case_id (port.store_of w.world).cases) c;
      replay_entries = entries;
      compaction = compaction;
      skipped = false;
    }),
    w,
  )

  abbrev pub compacted_fields : CompactionResult → String → CaseFields
  compacted_fields k text = record no_fields {
    working_memory_summary = some text;
    last_compaction_at = some k.triggered_at;
  }

  -- a write to the store raises or goes on
  abbrev pub with_world :
      (W → Outcome W) → Result StoreError (OrderCase × W) → StepWorld W → Outcome W
  with_world go (err e) w = (err (store_error e), w)
  with_world go (ok (c, w')) w = go w'

  -- the summary is written to the case where the compaction fires; `join` makes one text of it
  unfoldable pub compact_step :
      OrderCase
      → AgentRunResult
      → List ToolCallReplayEntry
      → Option CompactionResult
      → StepWorld W
      → Outcome W
  unfolding finish_step update_store
  compact_step c r entries none w = finish_step c r entries none w
  compact_step c r entries (some k) w =
      with_world (λ w'. finish_step c r entries (some k) (record w { world = w' }))
        (update_store c.case_id (compacted_fields k (port.join k)) w.world) w

  -- the trace joins the replay log, and the log of the case is looked at for a compaction
  unfoldable pub record_step : OrderCase → AgentRunResult → StepWorld W → Outcome W
  unfolding compact_step replay_entries list_for_case run_compaction
  record_step c r w =
      let entries = replay_entries c (port.now_iso w.world) r 0 r.tool_trace in
      let log = w.replay_log ++ entries in
      compact_step c r entries
        (run_compaction port.len port.line_of port.compaction_id c.case_id (port.now_iso w.world)
          (port.open_seconds c w.world) none (list_for_case c.case_id log))
        (record w { replay_log = log })

  unfoldable pub after_run :
      OrderCase → Option (AgentRunResult × AgentState W) → StepWorld W → Outcome W
  unfolding record_step
  after_run c none w = (err still_running, w)
  after_run c (some (r, t)) w = record_step c r (record w { world = t.world })

  unfoldable pub agent_step : StepInput → OrderCase → Option CaseBudget → StepWorld W → Outcome W
  unfolding after_run run_case_agent
  agent_step i c none w = (err unknown_tier, w)
  agent_step i c (some b) w =
      after_run c
        (run_case_agent port.agent c i.skill_name i.current_event
          (record { tenant_id = c.tenant_id; case_id = c.case_id; extras = i.tool_extras }) b
          i.last_actions w.world)
        w

  unfoldable pub run_inner : StepInput → OrderCase → StepWorld W → Outcome W
  unfolding agent_step budget_of
  run_inner i c w = agent_step i c (budget_of i.budget c (port.agent.now_ms w.world)) w

  -- the body of the `try`
  unfoldable pub graduated_step : StepInput → OrderCase → Option OrderCase → StepWorld W → Outcome W
  unfolding run_inner update_store
  graduated_step i c none w = run_inner i c w
  graduated_step i c (some g) w =
      with_world (λ w'. run_inner i g (record w { world = w' }))
        (update_store c.case_id (record no_fields { tier = some g.tier }) w.world) w

  -- the `finally`
  abbrev pub released : (tenant case_id : String) → (thread : ℕ) → Outcome W → Outcome W
  released tenant case_id thread (r, w) =
      (r, record w { locks = release tenant case_id thread w.locks })

  unfoldable pub step_with :
      (thread : ℕ) → StepInput → OrderCase → Option (List Hold) → StepWorld W → Outcome W
  unfolding graduated_step graduate_tier_if_needed release
  step_with thread i c none w = (ok (skipped_result c), w)
  step_with thread i c (some locks) w =
      released c.tenant_id c.case_id thread (
        graduated_step i c (graduate_tier_if_needed i.is_clean_event c)
          (record w { locks = locks }))

  unfoldable pub run_agent_step : (thread : ℕ) → StepInput → OrderCase → StepWorld W → Outcome W
  unfolding step_with try_acquire
  run_agent_step thread i c w =
      step_with thread i c (try_acquire c.tenant_id c.case_id thread w.locks) w

-- the routing predicate, off until it is enabled
unfoldable pub should_route_to_case_agent : OrderEvent → (enabled : Bool) → Bool
should_route_to_case_agent e enabled =
    if enabled
    then (if str_eq e.event_type "MANUAL_ORDER_INTAKE"
        then true
        else str_eq e.event_type "EMAIL_ORDER_ENTRY_REQUEST")
    else false
