-- ===== src/Pipeline/Fixtures.antt =====
-- Test data for the pipeline: one order, gateways that answer, a recipe that blocks, and a shadow that
-- says GREEN.
use asoe.Prelude.{ℕ, false, none, some, [], ◌∷◌}
use asoe.Prelude.Int.{pos}
use asoe.Value.{str}
use asoe.Gateway.{GatewayPort, success, completed, Readings}
use asoe.Pipeline.{green, unknown, OrderEvent, GraphState, World}
use asoe.Pipeline.Services.{Services, returned}

abbrev pub event : OrderEvent
event = record {
  order_id = "PO-1";
  line_item = 1;
  sku = some "S";
  event_type = "EDI_850_DUPLICATE_PO";
  po_price = pos 90000000;
  sap_base_price = pos 100000000;
  retailer_id = some "R";
  requester_role = none;
  credit_limit = none;
  current_exposure = none;
  line_count = 1;
  metadata = [];
}

abbrev pub state : GraphState
state = record {
  event = event;
  tenant_id = none;
  request_trace_id = "";
  discrepancy = none;
  skill = none;
  intent = unknown;
  confidence = 0;
  shadow = none;
  selected_recipe = none;
  directed_recipe = none;
  directed_corrections = [];
  invocation = none;
  execution_log = none;
  final_status = none;
  explanation = none;
  update_count = 0;
  batch_total_variance = 0;
  effect_results = [];
  enrichment_context = [];
  llm_call_traces = [];
  execution_trace = [];
}

-- a gateway that answers every request
abbrev pub answers : GatewayPort
answers r limit = completed (record {
  gateway_name = r.gateway_name;
  operation = r.operation;
  status = success;
  payload = [];
  error = none;
  duration_ms = none;
})

abbrev pub readings : ℕ → Readings
readings n = record {
  start = n;
  asked = n;
  finished = n;
  recorded = n;
  stamp = n;
  now = n;
  later = n;
}

abbrev pub services : Services
services = record {
  float_of = λ x. pos 0;
  int_of = λ x. pos 0;
  str_of = λ x. "";
  intent_backend = none;
  recipe_backend = none;
  shadow_backend = λ s. (record { status = green; reasons = []; policy_hits = [] }, none);
  second_opinion = none;
  select_for_event = λ t m. none;
  recipe_func = λ r params. returned (("status", str "BLOCKED") ∷ []);
  ports = ("oms", answers) ∷ ("tenant_config", answers) ∷ ("buyer_notification", answers) ∷ [];
  readings = readings;
  fresh_id = λ n. "id";
  time = λ n. "10:00";
  as_completed = λ answers. answers;
  metadata_offenders = λ m. [];
  output_offenders = λ o. [];
  compose_from_state =
      λ s. record { should_route_to_audit_context_missing = false; missing_audit_fields = [] };
}

abbrev pub world : World
world = record {
  tier = record { breakers = []; meters = []; sent = [] };
  outbox = [];
  orphans = [];
  ticks = 0;
}
