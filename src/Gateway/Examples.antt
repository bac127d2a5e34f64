-- ===== src/Gateway/Examples.antt =====
-- The gateway executor against a gateway that always answers and one that always times out.
use asoe.Prelude.{
  List, count_if, All, ℕ, ◌+◌, ◌≡◌, refl, String, none, some, [], ◌∷◌, arith, eq_iff,
}
use asoe.Prelude.Dict.{Dict}
use asoe.Breaker.{Breaker, error_rate, opened, acquire, new_breaker, record_failure, stats}
use asoe.Gateway.{
  GatewayRequest, GatewayPort, Tier, Readings, completed, timed_out, success, timeout, get_breaker,
  meter, run, record_outcome, record_call, effective_timeout,
}
use asoe.Gateway.Outage.{run_all, IsShortCircuited, run_all_shielded}
use asoe.Gateway.Run.{to_gateway, IsMetered, run-IsMetered, run_isolation}

abbrev idle : Tier
idle = record { breakers = []; meters = []; sent = [] }

abbrev answers : GatewayPort
answers r limit = completed (record {
  gateway_name = r.gateway_name;
  operation = r.operation;
  status = success;
  payload = [];
  error = none;
  duration_ms = none;
})

abbrev hangs : GatewayPort
hangs r limit = timed_out

abbrev registry : Dict GatewayPort
registry = ("oms", answers) ∷ ("sap", hangs) ∷ []

abbrev ask : String → GatewayRequest
ask name = record {
  gateway_name = name;
  operation = "lookup";
  params = [];
  trace_id = "t";
  timeout_ms = 5000;
}

abbrev at : ℕ → Readings
at n = record {
  start = n;
  asked = n;
  finished = n + 8000;
  recorded = n + 8000;
  stamp = n + 8000;
  now = n + 8000;
  later = n + 8000;
}

idle-IsMetered : IsMetered idle
idle-IsMetered = record { counted = λ k. refl; failures_le = λ k. omega arith }

run_times_out :
    let (t, response) = run registry (ask "sap") (at 0) idle in
    (response.status ≡ timeout) × ((meter "sap" t).failures ≡ 1)
unfolding run acquire new_breaker record_failure stats record_outcome record_call effective_timeout
run_times_out = (refl, refl)

run-IsMetered_example : IsMetered (run registry (ask "sap") (at 0) idle).0
run-IsMetered_example = run-IsMetered registry (ask "sap") (at 0) idle idle-IsMetered

-- the breaker of "sap" has just opened
abbrev sap_breaker : Breaker
sap_breaker = record (new_breaker 50 10000 60000) {
  state = opened;
  opened_at = some 100;
  last_trip_reason = some (error_rate 5 5);
}

abbrev broken : Tier
broken = record idle { breakers = ("sap", sap_breaker) ∷ [] }

broken-IsMetered : IsMetered broken
broken-IsMetered = record { counted = λ k. refl; failures_le = λ k. omega arith }

-- two calls to the broken gateway, the second just before the cooldown ends, and one to another between
abbrev three_calls : List (GatewayRequest × Readings)
three_calls = (ask "sap", at 200) ∷ (ask "oms", at 9000) ∷ (ask "sap", at 60099) ∷ []

run_all_shielded_example :
    let (t, answers) = run_all registry three_calls broken in
    (count_if (to_gateway "sap") t.sent ≡ 0)
    × (get_breaker "sap" t ≡ sap_breaker)
    × ((meter "sap" t).short_circuits ≡ 2)
    × All (IsShortCircuited "sap" sap_breaker) answers
unfolding new_breaker
run_all_shielded_example =
    run_all_shielded registry "sap" sap_breaker three_calls broken {port = hangs} {opening = 100}
      refl refl refl broken-IsMetered refl
      ((λ e. omega arith), ((λ e. omega arith), ((λ e. omega arith), tt)))

run_isolation_example :
    let t = (run registry (ask "sap") (at 200) broken).0 in
    (get_breaker "oms" t ≡ get_breaker "oms" broken) × (meter "oms" t ≡ meter "oms" broken)
run_isolation_example =
    run_isolation registry (ask "sap") (at 200) broken "oms" (λ e. cc ((eq_iff "sap" "oms").1 e))
