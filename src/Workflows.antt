-- ===== src/Workflows.antt =====
-- workflows/runner.py and the workflow records of contracts/models.py: several steps, each a run of
-- the whole graph, with the compensations of the completed ones. The entries of the compensation log are
-- kept as data; each step has an event object of its own.
pub mod Saga
mod Examples
use asoe.Prelude.{
  String, Bool, true, false, Option, none, some, List, [], ◌∷◌, ◌++◌, map, str_eq, or_else, is_some,
  any_of, if◌then◌else◌,
}
use asoe.Prelude.Dict.{Dict, lookup, insert}
use asoe.Value.{Value, is_null}
use asoe.Pipeline.{
  Intent, unknown, ShadowStatus, TerminalStatus, fail_to_human, OrderEvent, ExecutionLog,
  Explanation, GraphState, World,
}
use asoe.Pipeline.Services.{Services}
use asoe.Pipeline.Graph.{Environment, run_graph}
use mathlib.Core.List.{reverse}

pub record WorkflowStep : Type 0 where
  pub step_id : String
  pub intent : Intent
  pub description : String
  pub input_mapping : Dict String
  pub compensation_recipe : Option String

pub record WorkflowDefinition : Type 0 where
  pub workflow_id : String
  pub name : String
  pub steps : List WorkflowStep

pub record WorkflowStepResult : Type 0 where
  pub step_id : String
  pub intent : Intent
  pub final_status : TerminalStatus
  pub execution_log : Option ExecutionLog
  pub shadow_verdict : Option ShadowStatus
  pub explanation : Option Explanation

pub data WorkflowStatus : Type 0 where
  all_complete failed compensated partial : WorkflowStatus

-- a line of the compensation log
pub data CompensationEntry : Type 0 where
  compensate : (step_id recipe : String) → CompensationEntry
  no_compensation : (step_id : String) → CompensationEntry
  missing_event : (step_id : String) → CompensationEntry

pub record WorkflowResult : Type 0 where
  pub workflow_id : String
  pub workflow_name : String
  pub status : WorkflowStatus
  pub step_results : List WorkflowStepResult
  pub compensation_log : List CompensationEntry

-- a completed step: its id and its compensation recipe
abbrev pub Completed : Type 0
Completed = String × Option String

-- `GraphState(event=event)`
abbrev pub state_for : OrderEvent → GraphState
state_for e = record {
  event = e;
  tenant_id = none;
  request_trace_id = "";
  discrepancy = none;
  skill = none;
  intent = unknown;
  confidence = 0;
  shadow = none;
  selected_recipe = none;
  directed_recipe = none;
  directed_corrections = [];
  invocation = none;
  execution_log = none;
  final_status = none;
  explanation = none;
  update_count = 0;
  batch_total_variance = 0;
  effect_results = [];
  enrichment_context = [];
  llm_call_traces = [];
  execution_trace = [];
}

-- `if value is not None: metadata[key] = value`
abbrev pub put_unless_null : String → Option Value → Dict Value → Dict Value
put_unless_null k none m = m
put_unless_null k (some x) m = if is_null x then m else insert k x m

-- the loop over the input mapping
unfoldable pub carry : Dict String → (outputs metadata : Dict Value) → Dict Value
carry [] outputs m = m
carry ((target, source) ∷ mapping) outputs m =
    carry mapping outputs (put_unless_null target (lookup source outputs) m)

-- `step_results[-1]`
abbrev pub last_result : List WorkflowStepResult → Option WorkflowStepResult
last_result [] = none
last_result (r ∷ []) = some r
last_result (r ∷ r' ∷ rs) = last_result (r' ∷ rs)

abbrev pub outputs_of : Option WorkflowStepResult → Option (Dict Value)
outputs_of none = none
outputs_of (some r) = elim r.execution_log [ none ↦ none | some l ↦ some l.outputs ]

-- the event of a step, with what the step before hands on to it
unfoldable pub mapped_event : WorkflowStep → List WorkflowStepResult → OrderEvent → OrderEvent
unfolding carry
mapped_event step rs e = elim (outputs_of (last_result rs)) [
  | none ↦ e
  | some outputs ↦ record e { metadata = carry step.input_mapping outputs e.metadata }
]

unfoldable pub step_result : WorkflowStep → GraphState → WorkflowStepResult
step_result step s = record {
  step_id = step.step_id;
  intent = s.intent;
  final_status = or_else s.final_status fail_to_human;
  execution_log = s.execution_log;
  shadow_verdict = elim s.shadow [ none ↦ none | some d ↦ some d.status ];
  explanation = s.explanation;
}

-- `== TerminalStatus.COMPLETE`
abbrev pub is_complete : Option TerminalStatus → Bool
is_complete (some TerminalStatus.complete) = true
is_complete _ = false

abbrev pub compensation_entry : Completed → CompensationEntry
compensation_entry (id, none) = no_compensation id
compensation_entry (id, some recipe) =
    if str_eq recipe "" then no_compensation id else compensate id recipe

-- `_compensate`
unfoldable pub compensate_all : List Completed → List CompensationEntry
compensate_all completed = map compensation_entry (reverse completed)

abbrev pub failure_status : List Completed → WorkflowStatus
failure_status completed = if any_of (λ s. is_some s.1) completed then compensated else failed

module _ (v : Services) (env : Environment) (d : WorkflowDefinition) where
  abbrev pub workflow_result :
      WorkflowStatus → List WorkflowStepResult → List CompensationEntry → WorkflowResult
  workflow_result status rs log = record {
    workflow_id = d.workflow_id;
    workflow_name = d.name;
    status = status;
    step_results = rs;
    compensation_log = log;
  }

  -- the steps from one on; `none` only where a run of the graph exceeds its recursion limit
  unfoldable pub run_steps :
      List WorkflowStep
      → List OrderEvent
      → List WorkflowStepResult
      → List Completed
      → World
      → Option (WorkflowResult × World)
  unfolding compensate_all step_result mapped_event
  run_steps [] es rs cs w = some (workflow_result all_complete rs [], w)
  run_steps (step ∷ steps) [] rs cs w =
      some (workflow_result failed rs (compensate_all cs ++ (missing_event step.step_id ∷ [])), w)
  run_steps (step ∷ steps) (e ∷ es) rs cs w =
      elim (run_graph v env none (state_for (mapped_event step rs e)) w) [
        | none ↦ none
        | some (s, w') ↦
            let rs' = rs ++ (step_result step s ∷ []) in
            let rest =
              run_steps steps es rs' (cs ++ ((step.step_id, step.compensation_recipe) ∷ [])) w' in
            if is_complete s.final_status
            then rest
            else some (workflow_result (failure_status cs) rs' (compensate_all cs), w')
      ]

  unfoldable pub run : List OrderEvent → World → Option (WorkflowResult × World)
  unfolding run_steps
  run events w = run_steps d.steps events [] [] w
