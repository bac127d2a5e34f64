-- ===== src/Gateway.antt =====
-- gateways/circuit_breaker.py and gateways/executor.py: a breaker and a meter for each gateway
-- name, and the one place that calls gateways. A gateway is code behind a port: a function from
-- the request and the timeout to what the thread pool sees of the call. `sent` lists the requests
-- that were handed to a gateway. Latencies are in whole milliseconds.
pub mod Run
pub mod Outage
mod Examples
use asoe.Prelude.{
  ℕ, ◌+◌, ◌-◌, String, Bool, true, false, Option, none, some, List, [], ◌∷◌, ◌++◌, ◌==◌,
  if◌then◌else◌, or_else,
}
use asoe.Prelude.Dict.{Dict, lookup, insert}
use asoe.Value.{Value}
use asoe.Breaker.{
  Breaker, TripReason, Permission, permitted, circuit_open, new_breaker, acquire, record_success,
  record_failure,
}

pub record GatewayRequest : Type 0 where
  pub gateway_name : String
  pub operation : String
  pub params : Dict Value
  pub trace_id : String
  pub timeout_ms : ℕ

pub data GatewayStatus : Type 0 where
  success failed timeout unavailable : GatewayStatus

-- what the text of `error` names
pub data GatewayError : Type 0 where
  not_registered : String → GatewayError
  breaker_open : Option TripReason → GatewayError
  exceeded : ℕ → GatewayError
  raised : String → GatewayError
  reported : String → GatewayError

pub record GatewayResponse : Type 0 where
  pub gateway_name : String
  pub operation : String
  pub status : GatewayStatus
  pub payload : Dict Value  -- `data`
  pub error : Option GatewayError
  pub duration_ms : Option ℕ

pub record GatewayMeter : Type 0 where
  pub calls : ℕ
  pub failures : ℕ
  pub short_circuits : ℕ
  pub latency_ms_sum : ℕ

-- `future.result(timeout=…)`: the response, `TimeoutError`, or another exception
pub data Outcome : Type 0 where
  completed : GatewayResponse → Outcome
  timed_out : Outcome
  threw : String → Outcome

abbrev pub GatewayPort : Type 0
GatewayPort = GatewayRequest → ℕ → Outcome

pub record Tier : Type 0 where
  pub breakers : Dict Breaker
  pub meters : Dict GatewayMeter
  pub sent : List GatewayRequest

-- `_new_breaker`
abbrev pub new_gateway_breaker : Breaker
new_gateway_breaker = new_breaker 50 10000 60000

-- `get_breaker`, without the store of a new one, which `put_breaker` makes
abbrev pub get_breaker : String → Tier → Breaker
get_breaker name t = or_else (lookup name t.breakers) new_gateway_breaker

abbrev pub put_breaker : String → Breaker → Tier → Tier
put_breaker name b t = record t { breakers = insert name b t.breakers }

abbrev pub no_calls : GatewayMeter
no_calls = record { calls = 0; failures = 0; short_circuits = 0; latency_ms_sum = 0 }

-- `_meter`
abbrev pub meter : String → Tier → GatewayMeter
meter name t = or_else (lookup name t.meters) no_calls

tally : (failed short_circuited : Bool) → ℕ → GatewayMeter → GatewayMeter
tally f true latency m = record m { short_circuits = m.short_circuits + 1 }
tally f false latency m = record m {
  calls = m.calls + 1;
  latency_ms_sum = m.latency_ms_sum + latency;
  failures = if f then m.failures + 1 else m.failures;
}

unfoldable pub record_call : String → (failed short_circuited : Bool) → ℕ → Tier → Tier
unfolding tally
record_call name f short latency t = record t {
  meters = insert name (tally f short latency (meter name t)) t.meters;
}

-- The readings of the clock that one call of `run` makes, in order; the last three are those of
-- the breaker's `record_…` method.
pub record Readings : Type 0 where
  pub start : ℕ
  pub asked : ℕ
  pub finished : ℕ
  pub recorded : ℕ
  pub stamp : ℕ
  pub now : ℕ
  pub later : ℕ

-- `GatewayExecutor._record`
unfoldable pub record_outcome : String → Readings → Bool → Tier → Tier
unfolding record_call
record_outcome name c f t =
    let elapsed = c.recorded - c.start in
    let b = get_breaker name t in
    let b' =
      if f
      then record_failure c.stamp c.now c.later elapsed b
      else record_success c.stamp c.now c.later elapsed b in
    record_call name f false elapsed (put_breaker name b' t)

-- `_BREAKER_FAILURE_STATUSES`
abbrev pub is_breaker_failure : GatewayStatus → Bool
is_breaker_failure success = false
is_breaker_failure failed = true
is_breaker_failure timeout = true
is_breaker_failure unavailable = true

-- `GATEWAY_TIMEOUT_S`, in milliseconds
abbrev pub gateway_timeouts : Dict ℕ
gateway_timeouts =
    ("graph", 3000)
    ∷ ("sap", 8000)
    ∷ ("oms", 5000)
    ∷ ("document_extraction", 6000)
    ∷ ("email_intake", 3000)
    ∷ []

unfoldable pub effective_timeout : GatewayRequest → ℕ
effective_timeout r =
    if r.timeout_ms == 5000
    then or_else (lookup r.gateway_name gateway_timeouts) r.timeout_ms
    else r.timeout_ms

abbrev failure : GatewayRequest → GatewayStatus → GatewayError → Option ℕ → GatewayResponse
failure r s e d = record {
  gateway_name = r.gateway_name;
  operation = r.operation;
  status = s;
  payload = [];
  error = some e;
  duration_ms = d;
}

finish : GatewayRequest → Readings → Outcome → Tier → Tier × GatewayResponse
unfolding record_outcome
finish r c timed_out t = (
  record_outcome r.gateway_name c true t,
  failure r timeout (exceeded (effective_timeout r)) (some (c.finished - c.start)),
)
finish r c (completed response) t = (
  record_outcome r.gateway_name c (is_breaker_failure response.status) t,
  record response { duration_ms = some (c.finished - c.start) },
)
finish r c (threw text) t = (
  record_outcome r.gateway_name c true t,
  failure r failed (raised text) (some (c.finished - c.start)),
)

-- the breaker's gate, and the call behind it
gate : GatewayRequest → Readings → GatewayPort → Permission → Tier → Tier × GatewayResponse
unfolding finish record_call effective_timeout
gate r c port (circuit_open reason) t =
    (record_call r.gateway_name true true 0 t, failure r unavailable (breaker_open reason) (some 0))
gate r c port permitted t =
    finish r c (port r (effective_timeout r)) (record t { sent = t.sent ++ r ∷ [] })

run_port : Option GatewayPort → GatewayRequest → Readings → Tier → Tier × GatewayResponse
unfolding gate
run_port none r c t = (t, failure r unavailable (not_registered r.gateway_name) none)
run_port (some port) r c t =
    let (b, p) = acquire c.asked (get_breaker r.gateway_name t) in
    gate r c port p (put_breaker r.gateway_name b t)

-- `GatewayExecutor.run`, over the registry of gateways
unfoldable pub run : Dict GatewayPort → GatewayRequest → Readings → Tier → Tier × GatewayResponse
unfolding run_port
run registry r c t = run_port (lookup r.gateway_name registry) r c t
