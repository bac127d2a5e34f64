-- ===== src/Hitl/Examples.antt =====
-- Requests on one exception of high value: an override that is parked, its initiator, who may not cosign it,
-- and a second reviewer.
use asoe.Prelude.{◌≡◌, refl, arith, String, true, Option, none, some, [], ◌∷◌}
use asoe.Prelude.Int.{pos}
use asoe.Prelude.Dict.{lookup}
use asoe.Prelude.Results.{ok, err}
use asoe.Value.{str, num}
use asoe.Records.{ChildCase, LifecycleState, pending_review, pending_cosign, resolved}
use asoe.Hitl.{Reviewed, Call, Desk, sod_violation, invalid_state, HitlPort}
use asoe.Hitl.Serving.{check, found}
use asoe.Hitl.Actions.{
  Request, escalate, disposition, override_cosign, handle, handle_all, disposition_exception,
  staged, escalate_exception, with_escalation,
}
use asoe.Hitl.Audited.{IsStep}
use asoe.Hitl.Steps.{KeepsFourEyes, handle-IsStep}
use asoe.Cases.{CaseStatus}
use asoe.Cases.Fixtures.{po_case}
use asoe.Cases.Status.{HasStatus}
use asoe.Hitl.Parent.{escalate_exception-HasStatus}
use asoe.Hitl.Retry.{at_time, disposition_exception_again}
use asoe.Hitl.FourEyes.{AreFourEyed, handle_all-AreFourEyed}

abbrev port : HitlPort
port = record {
  strip = λ t. t;
  is_key = λ t. true;
  allowed_actions = "MERGE" ∷ "ALLOW_BOTH" ∷ [];
  intent_reason_tags = [];
  global_reason_tags = "other" ∷ [];
}

abbrev child : ChildCase
child = record {
  id = "x1";
  tenant_id = "acme";
  order_id = "PO-1";
  event_type = "EDI_850_DUPLICATE_PO";
  trace_id = "t";
  intent = none;
  lifecycle_state = pending_review;
  shadow_verdict = some "YELLOW";
  final_status = none;
  parent_case_id = none;
  supergroup_code = none;
  intent_code = none;
  reanalysis_history = [];
  created_at = "2026-01-01";
  updated_at = "2026-01-01";
}

-- 12,000 dollars, and the agent recommends to merge
abbrev valuable : Reviewed
valuable = record {
  child = child;
  resolved_by = none;
  resolved_action = none;
  resolution_notes = none;
  resolution_data =
      ("recommended_action", str "MERGE") ∷ ("financial_impact_usd", num (pos 12000000000)) ∷ [];
  enrichment_context = [];
  pending_override = none;
  cosign = none;
  cosign_rejection = none;
  escalations = [];
}

abbrev desk : Desk
desk = record {
  reviews = ("x1", valuable) ∷ [];
  audit = [];
  cases = record { cases = []; correlation = []; history = [] };
  replies = [];
}

abbrev call_of : String → Option String → Call
call_of sub key = record {
  tenant_id = "acme";
  exception_id = "x1";
  user = record {
    sub = sub;
    roles = "manager" ∷ [];
    permissions = "exceptions:approve" ∷ "exceptions:override" ∷ "exceptions:escalate" ∷ [];
  };
  idempotency_key = key;
  body = "{}";
  now = 100;
  now_iso = "2026-01-02";
}

abbrev deviate : Request
deviate = disposition "ALLOW_BOTH" "a reorder" "other"

valuable-IsFourEyed : AreFourEyed desk
valuable-IsFourEyed = (λ a acts. absurd (ground (arith, acts)), tt)

handle-IsStep_example :
    IsStep KeepsFourEyes (call_of "ann" none) desk (handle port (call_of "ann" none) deviate desk)
handle-IsStep_example = handle-IsStep port (call_of "ann" none) desk deviate

handle_all-AreFourEyed_example : AreFourEyed (
    handle_all port
      ((call_of "ann" none, deviate) ∷ (call_of "bob" none, override_cosign true "checked") ∷ [])
      desk)
handle_all-AreFourEyed_example =
    handle_all-AreFourEyed port
      ((call_of "ann" none, deviate) ∷ (call_of "bob" none, override_cosign true "checked") ∷ [])
      desk valuable-IsFourEyed

-- the result of a request, and the desk after it
abbrev after : Call → Request → Desk → Desk
after c q d = (handle port c q d).1

abbrev state_of : Option Reviewed → Option LifecycleState
state_of none = none
state_of (some r) = some r.child.lifecycle_state

staged_first :
    state_of (lookup "x1" (after (call_of "ann" none) deviate desk).reviews) ≡ some pending_cosign
unfolding handle check found
staged_first = refl

initiator_refused :
    (handle port
      (call_of "ann" none)
      (override_cosign true "fine")
      (after (call_of "ann" none) deviate desk)).0
    ≡ err sod_violation
unfolding handle check found
initiator_refused = refl

cosigned_second :
    state_of (
      lookup "x1"
        (after
          (call_of "bob" none)
          (override_cosign true "fine")
          (after (call_of "ann" none) deviate desk)).reviews)
    ≡ some resolved
unfolding handle check found
cosigned_second = refl

abbrev keyed_call : Call
keyed_call = call_of "ann" (some "k")

-- the desk once the override is parked
abbrev parked : Reviewed × Desk
parked = (
  staged port keyed_call "ALLOW_BOTH" "a reorder" "other" valuable,
  after keyed_call deviate desk,
)

disposition_exception_again_example :
    disposition_exception port
      (at_time 5000 "2026-01-02" keyed_call)
      "ALLOW_BOTH"
      "a reorder"
      "other"
      parked.1
    ≡ (ok parked.0, parked.1)
unfolding handle check found
disposition_exception_again_example =
    disposition_exception_again port keyed_call "k" "ALLOW_BOTH" "a reorder" "other" "2026-01-02"
      5000 desk parked.1 parked.0 refl refl (omega arith) refl

-- a retry of an escalation is refused
escalation_again :
    (handle port
      (call_of "ann" (some "k"))
      (escalate "help" none)
      (after (call_of "ann" (some "k")) (escalate "help" none) desk)).0
    ≡ err invalid_state
unfolding handle check found
escalation_again = refl

-- a record of a case that is in the store
abbrev of_case : Reviewed
of_case = record valuable { child = record child { parent_case_id = some "case-1" } }

abbrev case_desk : Desk
case_desk = record desk {
  reviews = ("x1", of_case) ∷ [];
  cases = record { cases = ("case-1", po_case) ∷ []; correlation = []; history = [] };
}

abbrev keyless_call : Call
keyless_call = call_of "ann" none

escalate_exception-HasStatus_example :
    HasStatus "case-1" CaseStatus.open_awaiting_human
      (escalate_exception port keyless_call "help" none case_desk).1.cases
unfolding handle check found
escalate_exception-HasStatus_example =
    escalate_exception-HasStatus port keyless_call "help" none case_desk
      (escalate_exception port keyless_call "help" none case_desk).1 of_case
      (with_escalation port keyless_call "help" none of_case) "case-1" po_case refl refl refl refl
      refl refl
