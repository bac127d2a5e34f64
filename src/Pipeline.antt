-- ===== src/Pipeline.antt =====
-- contracts/models.py and orchestration/: the state that the nodes of the graph share, and the
-- vocabularies of intents, verdicts and terminal states. Recipes are named by the closed list
-- `AllowedRecipeName` of constraints/specs.py. Prices and amounts count millionths. Of a trace
-- entry the node, its status, its exit verdict, its policy hits and its gateway spans are kept,
-- and its times and its free-form decision record are not.
pub mod Registry
pub mod Services
pub mod Fallback
pub mod Policy
pub mod Intake
pub mod Evidence
pub mod Invocation
pub mod Audit
pub mod Execution
pub mod Effects
pub mod Analysis
pub mod Graph
pub mod Fixtures
use asoe.Prelude.{ℕ, String, Bool, true, false, Option, none, some, List, [], ◌∷◌, ◌++◌, or_else}
use asoe.Prelude.Int.{ℤ}
use asoe.Prelude.Dict.{Dict}
use asoe.Value.{Value}
use asoe.Gateway.{GatewayResponse, Tier}
use asoe.Outbox.{Ledger}

pub data Intent : Type 0 where
  contractual_correction credit_block mass_pricing_error duplicate_po price_hold_release
        edi_mismatch back_order over_max min_order_qty pallet_config delivery_delay
        manual_order_intake unknown :
      Intent

pub data ShadowStatus : Type 0 where
  green yellow red : ShadowStatus

pub data TerminalStatus : Type 0 where
  complete fail_to_human manual_review_required blocked rejected complete_with_children
        audit_context_missing :
      TerminalStatus

pub data RecipeName : Type 0 where
  price_adjustment credit_hold_release detect_duplicate hold_release edi_recipe
        back_order_resolution over_max_trim moq_round_up pallet_alignment delivery_delay_resolution
        intake submit_to_erp reply_draft email_order_entry :
      RecipeName

pub data Node : Type 0 where
  ingest classify load_skill validate_circuit_breaker select_recipe resolve_dependencies
        validate_types shadow_audit execute_recipe explain_only apply_effects build_analysis :
      Node

-- `po_price` and `sap_base_price` are required numbers, so only `order_id` can be missing
pub record OrderEvent : Type 0 where
  pub order_id : String
  pub line_item : ℕ
  pub sku : Option String
  pub event_type : String
  pub po_price : ℤ
  pub sap_base_price : ℤ
  pub retailer_id : Option String
  pub requester_role : Option String
  pub credit_limit : Option ℤ
  pub current_exposure : Option ℤ
  pub line_count : ℕ
  pub metadata : Dict Value

pub record PricingDiscrepancy : Type 0 where
  pub delta : ℤ
  pub delta_pct : ℤ
  pub within_threshold : Bool

pub record IntentDecision : Type 0 where
  pub intent : Intent
  pub confidence : ℕ

pub data LlmAction : Type 0 where
  agree abstain disagree_downgrade : LlmAction

pub record ShadowLlmVerdict : Type 0 where
  pub action : LlmAction
  pub reason : String
  pub policy_concerns : List String
  pub model_id : String

pub record ComplianceDecision : Type 0 where
  pub status : ShadowStatus
  pub trace_id : String
  pub reasons : List String
  pub policy_hits : List String
  pub llm_shadow_verdict : Option ShadowLlmVerdict

pub record RecipeInvocation : Type 0 where
  pub recipe_name : RecipeName
  pub params : Dict Value

pub record ExecutionLog : Type 0 where
  pub trace_id : String
  pub recipe_name : RecipeName
  pub inputs : Dict Value
  pub outputs : Dict Value
  pub errors : List String
  pub intent_selected : Intent
  pub shadow_policy_hits : List String
  pub skill_name : Option String
  pub shadow_verdict : Option ShadowStatus

-- one provider call; `task` is intent, recipe, shadow or shadow_llm
pub record LlmCallTrace : Type 0 where
  pub task : String
  pub model_id : String
  pub cross_check_disagreement : Option Bool
  pub cross_check_llm_intent : Option Intent
  pub cross_check_deterministic_intent : Option Intent

pub data NodeStatus : Type 0 where
  completed halted errored : NodeStatus

pub data ExitVerdict : Type 0 where
  ok cross_check_disagreement breach directed no_recipe required_gw_fail invocation_fail green_exit
        yellow_exit red_exit :
      ExitVerdict

pub data SpanStatus : Type 0 where
  ok_span error_span timeout_span : SpanStatus

pub record GatewayCallSpan : Type 0 where
  pub gateway_name : String
  pub operation : String
  pub status : SpanStatus

pub record ExecutedNode : Type 0 where
  pub node : Node
  pub status : NodeStatus
  pub exit_verdict : Option ExitVerdict
  pub policy_hits : List String
  pub sub_spans : List GatewayCallSpan

-- the texts that the nodes set, by what they say
pub data Explanation : Type 0 where
  input_validation_failed : Explanation
  classification_disagreement : (llm deterministic : Intent) → Explanation
  breaker_reasons : (updates variance : Bool) → Explanation
  no_deterministic_recipe : Explanation
  dependency_failed : (gateway operation : String) → Explanation
  base_price_not_positive : ℤ → Explanation
  shadow_returned : ShadowStatus → List String → Explanation
  no_invocation : Explanation
  recipe_errors : List String → Explanation
  autonomy_needs_human : (autonomy action : Value) → Explanation
  recipe_reason : Value → Explanation
  executed : Explanation
  submit_gated : Explanation
  effect_failed : (gateway operation : String) → Explanation
  explained : Option ShadowStatus → Option RecipeName → Explanation
  contract_violated : Explanation → List String → Explanation
  contract_violated_first : List String → Explanation
  fields_missing : Explanation → List String → Explanation
  fields_missing_first : List String → Explanation
  kill_switch_active : Explanation

pub record GraphState : Type 0 where
  pub event : OrderEvent
  pub tenant_id : Option String
  pub request_trace_id : String
  pub discrepancy : Option PricingDiscrepancy
  pub skill : Option String
  pub intent : Intent
  pub confidence : ℕ
  pub shadow : Option ComplianceDecision
  pub selected_recipe : Option RecipeName
  pub directed_recipe : Option RecipeName
  pub directed_corrections : Dict Value
  pub invocation : Option RecipeInvocation
  pub execution_log : Option ExecutionLog
  pub final_status : Option TerminalStatus
  pub explanation : Option Explanation
  pub update_count : ℕ
  pub batch_total_variance : ℕ
  pub effect_results : List GatewayResponse
  pub enrichment_context : Dict Value
  pub llm_call_traces : List LlmCallTrace
  pub execution_trace : List ExecutedNode

-- what lies outside of the state: the gateway tier, the outbox, the dead letters of `oms` writes
-- that came after a recipe's success, and a count from which new ids and times are drawn
pub record World : Type 0 where
  pub tier : Tier
  pub outbox : Ledger
  pub orphans : List (String × String)
  pub ticks : ℕ

abbrev status_now : Option TerminalStatus → NodeStatus
status_now none = completed
status_now (some t) = halted

-- `_record`, where the status is not given
unfoldable pub record_node :
    Node → Option ExitVerdict → List String → List GatewayCallSpan → GraphState → GraphState
record_node n v hits spans s = record s {
  execution_trace =
      s.execution_trace
      ++ record {
        node = n;
        status = status_now s.final_status;
        exit_verdict = v;
        policy_hits = hits;
        sub_spans = spans;
      }
        ∷ [];
}

-- a node's end with a verdict and nothing else to keep
unfoldable pub leave : Node → ExitVerdict → GraphState → GraphState
unfolding record_node
leave n v s = record_node n (some v) [] [] s

-- the end of a node that is no gate
unfoldable pub leave_plain : Node → GraphState → GraphState
unfolding record_node
leave_plain n s = record_node n none [] [] s

-- sets the terminal status, with its explanation
unfoldable pub halt : TerminalStatus → Explanation → GraphState → GraphState
halt t e s = record s { final_status = some t; explanation = some e }
