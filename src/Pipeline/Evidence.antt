-- ===== src/Pipeline/Evidence.antt =====
-- orchestration/nodes.py, resolve_dependencies: the gateway reads of the recipe, asked all at once
-- and gathered in the order in which they come back.
use asoe.Prelude.{
  String, Bool, not, ◌&&◌, Option, none, some, List, [], ◌∷◌, ◌++◌, str_eq, map, if◌then◌else◌,
}
use asoe.Prelude.Dict.{Dict, insert}
use asoe.Value.{Value, obj, Fields, end, field}
use asoe.Gateway.{GatewayRequest, GatewayResponse, GatewayStatus, success, timeout}
use asoe.Outbox.{is_success}
use asoe.Pipeline.{
  fail_to_human, RecipeName, resolve_dependencies, ok, required_gw_fail, SpanStatus, ok_span,
  error_span, timeout_span, GatewayCallSpan, dependency_failed, GraphState, World,
  ComplianceDecision, record_node, halt, leave,
}
use asoe.Pipeline.Registry.{GatewayDependency, get_recipe, read_path}
use asoe.Pipeline.Services.{Services, call_gateway}

abbrev fields_of : Dict Value → Fields
fields_of [] = end
fields_of ((k, x) ∷ d) = field k x (fields_of d)

abbrev shadow_trace_id : Option ComplianceDecision → String
shadow_trace_id none = ""
shadow_trace_id (some d) = d.trace_id

-- the id that correlates the reads
unfoldable pub read_trace_id : GraphState → String
read_trace_id s =
    if str_eq s.request_trace_id "" then shadow_trace_id s.shadow else s.request_trace_id

unfoldable pub dependency_request : GraphState → GatewayDependency → GatewayRequest
unfolding read_trace_id read_path
dependency_request s d = record {
  gateway_name = d.gateway_name;
  operation = d.operation;
  params = map (λ p. (p.0, read_path p.1 s)) d.params_from_state;
  trace_id = read_trace_id s;
  timeout_ms = 5000;
}

-- the fan-out: every read is asked, whatever the others answer
unfoldable pub fan_out :
    Services
    → GraphState
    → List GatewayDependency
    → World
    → List (GatewayDependency × GatewayResponse) × World
unfolding dependency_request call_gateway
fan_out v s [] w = ([], w)
fan_out v s (d ∷ ds) w =
    let (response, w') = call_gateway v (dependency_request s d) w in
    let (rest, w'') = fan_out v s ds w' in ((d, response) ∷ rest, w'')

abbrev span_status : GatewayStatus → SpanStatus
span_status success = ok_span
span_status timeout = timeout_span
span_status _ = error_span

unfoldable pub span : GatewayDependency → GatewayResponse → GatewayCallSpan
span d r = record {
  gateway_name = d.gateway_name;
  operation = d.operation;
  status = span_status r.status;
}

-- the evidence that an answer leaves: a soft failure leaves an empty bag
abbrev pub evidence : GatewayResponse → Value
evidence r = if is_success r.status then obj (fields_of r.payload) else obj end

abbrev pub store_evidence : GatewayDependency → GatewayResponse → GraphState → GraphState
store_evidence d r s = record s {
  enrichment_context = insert d.result_key (evidence r) s.enrichment_context;
}

-- a required read that failed
abbrev pub is_fatal : GatewayDependency × GatewayResponse → Bool
is_fatal (d, r) = d.required_for_audit && not (is_success r.status)

-- the loop over the answers as they come back, with the spans so far
unfoldable pub gather :
    List GatewayCallSpan → List (GatewayDependency × GatewayResponse) → GraphState → GraphState
unfolding span halt record_node
gather spans [] s = record_node resolve_dependencies (some ok) [] spans s
gather spans ((d, r) ∷ answers) s =
    let spans' = spans ++ span d r ∷ [] in
    let rest = gather spans' answers (store_evidence d r s) in
    if is_fatal (d, r)
    then record_node resolve_dependencies (some required_gw_fail) [] spans'
        (halt fail_to_human (dependency_failed d.gateway_name d.operation) s)
    else rest

unfoldable pub resolve_all :
    Services → List GatewayDependency → GraphState → World → GraphState × World
unfolding fan_out gather leave
resolve_all v [] s w = (leave resolve_dependencies ok s, w)
resolve_all v (d ∷ ds) s w =
    let (answers, w') = fan_out v s (d ∷ ds) w in (gather [] (v.as_completed answers) s, w')

unfoldable pub resolve_for : Services → Option RecipeName → GraphState → World → GraphState × World
unfolding resolve_all get_recipe leave
resolve_for v none s w = (leave resolve_dependencies ok s, w)
resolve_for v (some r) s w = resolve_all v (get_recipe r).dependencies s w

unfoldable pub do_resolve_dependencies : Services → GraphState → World → GraphState × World
unfolding resolve_for
do_resolve_dependencies v s w = resolve_for v s.selected_recipe s w
