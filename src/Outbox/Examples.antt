-- ===== src/Outbox/Examples.antt =====
-- A ledger of orchestration/outbox.py with a failed effect, whose gateway recovers, and one that timed
-- out, whose gateway does not.
use asoe.Prelude.{
  ℕ, ◌+◌, ◌≡◌, true, false, String, Option, none, some, [], ◌∷◌, ◌++◌, arith, eq_iff, str_eq,
  if◌then◌else◌,
}
use asoe.Gateway.{GatewayRequest, GatewayStatus, success, failed, timeout}
use asoe.Outbox.{
  OutboxEntry, Ledger, EffectOutcome, new_entry, record_effect, pending, is_success,
  reconcile_pending, empty_report,
}
use asoe.Outbox.Recorded.{record_effect-pending}
use asoe.Outbox.Sweep.{HasDistinctIds, sweep, reconcile_pending-sweep}
use asoe.Outbox.Drain.{passes, passes-drain}

abbrev effect : String → String → GatewayStatus → EffectOutcome
effect tenant gateway status = record {
  tenant_id = tenant;
  gateway = gateway;
  operation = "apply";
  status = status;
  recipe = some "MOQRoundUpRecipe";
  recipe_status = some "SUCCESS";
  trace_id = some "t";
  error = none;
  params = [];
}

abbrev entry : String → String → GatewayStatus → OutboxEntry
entry id gateway status = record {
  id = id;
  tenant_id = "acme";
  trace_id = none;
  recipe = none;
  gateway = gateway;
  operation = "apply";
  status = status;
  recipe_status = none;
  committed = is_success status;
  needs_compensation = true;
  error = none;
  created_at = "09:00";
  params = [];
  attempts = 0;
  escalated = false;
  compensated = false;
  compensated_at = none;
}

abbrev ledger : Ledger
ledger = entry "a" "sap" failed ∷ entry "b" "oms" timeout ∷ []

-- a gateway tier in which only `sap` recovers; the number counts the calls
abbrev retry : GatewayRequest → ℕ → ℕ × Option GatewayStatus
retry r n = (n + 1, if str_eq r.gateway_name "sap" then some success else none)

abbrev clock : ℕ → String
clock n = "10:00"

ledger-HasDistinctIds : HasDistinctIds ledger
ledger-HasDistinctIds = ((λ same. cc ((eq_iff "a" "b").1 same), tt), (tt, tt))

record_effect-pending_example :
    pending (some "acme") (record_effect "c" "11:00" (effect "acme" "sap" timeout) ledger)
    ≡ pending (some "acme") ledger ++ new_entry "c" "11:00" (effect "acme" "sap" timeout) ∷ []
record_effect-pending_example =
    record_effect-pending "c" "11:00" (effect "acme" "sap" timeout) ledger

reconcile_pending-sweep_example :
    reconcile_pending retry clock none 2 ledger 0 ≡ sweep retry clock none 2 ledger empty_report 0
reconcile_pending-sweep_example =
    reconcile_pending-sweep retry clock none 2 ledger 0 ledger-HasDistinctIds

passes-drain_example : pending none (passes retry clock 2 none 2 ledger 0).0 ≡ []
passes-drain_example =
    passes-drain retry clock 1 none 2 ledger 0 ledger-HasDistinctIds (omega arith)
