-- ===== src/Pipeline/Effects.antt =====
-- orchestration/nodes.py, apply_effects: the gateway effects that the recipe declares, each
-- recorded in the outbox (orchestration/outbox.py).
use asoe.Prelude.{
  ◌+◌, String, Bool, true, not, ◌&&◌, Option, none, some, List, [], ◌∷◌, ◌++◌, str_eq, any_of, map,
  or_else, if◌then◌else◌,
}
use asoe.Prelude.Dict.{Dict}
use asoe.Value.{Value, get_value, text_of}
use asoe.Gateway.{GatewayRequest, GatewayResponse}
use asoe.Outbox.{EffectOutcome, is_success, record_effect}
use asoe.Pipeline.{
  RecipeName, apply_effects, ExecutionLog, ComplianceDecision, effect_failed, GraphState, World,
  leave_plain,
}
use asoe.Pipeline.Registry.{GatewayEffect, get_recipe, recipe_file}
use asoe.Pipeline.Services.{Services, call_gateway}
use asoe.Pipeline.Fallback.{is_text}

-- the id that correlates the effects
abbrev effect_trace_id : Option ComplianceDecision → String → String
effect_trace_id none request = request
effect_trace_id (some d) request = d.trace_id

abbrev allows : Option (List String) → Value → Bool
allows none status = true
allows (some names) status = any_of (λ n. is_text n status) names

-- whether an effect is due at the recipe's status
unfoldable pub fires : GatewayEffect → Dict Value → Bool
fires e outputs = allows e.only_on_recipe_status (get_value "status" outputs)

unfoldable pub effect_request : GatewayEffect → Dict Value → String → GatewayRequest
effect_request e outputs trace = record {
  gateway_name = e.gateway_name;
  operation = e.operation;
  params = map (λ p. (p.0, get_value p.1 outputs)) e.params_from_output;
  trace_id = trace;
  timeout_ms = 5000;
}

unfoldable pub effect_outcome :
    GatewayRequest → RecipeName → Dict Value → Option String → GatewayResponse → EffectOutcome
effect_outcome r name outputs tenant response = record {
  tenant_id = or_else tenant "default";
  gateway = r.gateway_name;
  operation = r.operation;
  status = response.status;
  recipe = some (recipe_file name);
  recipe_status = text_of (get_value "status" outputs);
  trace_id = some r.trace_id;
  error = response.error;
  params = r.params;
}

-- the outbox's entry of an effect, and the dead letter of a failed write to `oms`
unfoldable pub record_outcome : Services → EffectOutcome → World → World
unfolding record_effect
record_outcome v o w = record w {
  outbox = record_effect (v.fresh_id w.ticks) (v.time w.ticks) o w.outbox;
  orphans =
      if not (is_success o.status) && str_eq o.gateway "oms"
      then w.orphans ++ (o.tenant_id, o.operation) ∷ []
      else w.orphans;
  ticks = w.ticks + 1;
}

unfoldable pub note_response : GatewayResponse → GatewayEffect → GraphState → GraphState
note_response response e s =
    if is_success response.status
    then record s { effect_results = s.effect_results ++ response ∷ [] }
    else record s {
      effect_results = s.effect_results ++ response ∷ [];
      explanation = some (effect_failed e.gateway_name e.operation);
    }

-- one effect that is due
unfoldable pub apply_effect :
    Services → RecipeName → Dict Value → GatewayEffect → GraphState → World → GraphState × World
unfolding effect_request call_gateway effect_outcome record_outcome note_response
apply_effect v name outputs e s w =
    let r = effect_request e outputs (effect_trace_id s.shadow s.request_trace_id) in
    let (response, w') = call_gateway v r w in
    (
      note_response response e s,
      record_outcome v (effect_outcome r name outputs s.tenant_id response) w',
    )

-- one effect, due or not
unfoldable pub try_effect :
    Services → RecipeName → Dict Value → GatewayEffect → GraphState → World → GraphState × World
unfolding apply_effect fires
try_effect v name outputs e s w =
    if fires e outputs then apply_effect v name outputs e s w else (s, w)

unfoldable pub apply_all :
    Services
    → RecipeName
    → Dict Value
    → List GatewayEffect
    → GraphState
    → World
    → GraphState × World
unfolding try_effect
apply_all v name outputs [] s w = (s, w)
apply_all v name outputs (e ∷ es) s w =
    let (s', w') = try_effect v name outputs e s w in apply_all v name outputs es s' w'

unfoldable pub apply_for :
    Services → Option RecipeName → Option ExecutionLog → GraphState → World → GraphState × World
unfolding apply_all get_recipe
apply_for v (some name) (some log) s w = apply_all v name log.outputs (get_recipe name).effects s w
apply_for v (some name) none s w = (s, w)
apply_for v none log s w = (s, w)

unfoldable pub do_apply_effects : Services → GraphState → World → GraphState × World
unfolding leave_plain apply_for
do_apply_effects v s w =
    let (s', w') = apply_for v s.selected_recipe s.execution_log s w in
    (leave_plain apply_effects s', w')
