-- ===== src/Hitl/Guards.antt =====
-- api/routes/exceptions.py and contracts/models.py: what the handlers test: the money at stake, the source
-- states of each action, permissions and roles.
use asoe.Prelude.{
  String, Bool, true, false, Option, none, some, List, any_of, str_eq, if◌then◌else◌,
}
use asoe.Prelude.Int.{ℤ, pos, leb_ℤ}
use asoe.Prelude.Dict.{lookup}
use asoe.Value.{Value, obj, str, num, bool, get}
use asoe.Records.{
  LifecycleState, pending_review, escalated, pending_admin_review, pending_cosign, resolved, failed,
  blocked_state,
}
use asoe.Hitl.{Reviewed, User}

abbrev pub number_of : Option Value → Option ℤ
number_of (some (num z)) = some z
number_of (some (bool b)) = some (if b then pos 1000000 else pos 0)
number_of _ = none

abbrev first_number : Option ℤ → Option ℤ → Option ℤ
first_number none o = o
first_number (some z) o = some z

abbrev pub financial_impact_usd_of : Reviewed → Option ℤ
financial_impact_usd_of r =
    first_number (number_of (lookup "financial_impact_usd" r.resolution_data)) (
      first_number (number_of (lookup "financial_impact" r.resolution_data))
        (number_of (lookup "impact_usd" r.resolution_data)))

abbrev sap_value : Option Value → Option ℤ
sap_value (some (obj fields)) = number_of (get "order_value_usd" fields)
sap_value _ = none

-- the value in the system of record, or else the extracted one
abbrev pub cosign_materiality_usd : Reviewed → Option ℤ
cosign_materiality_usd r =
    first_number (sap_value (lookup "sap_data" r.enrichment_context)) (financial_impact_usd_of r)

-- at HIGH_VALUE_OVERRIDE_THRESHOLD_USD, $10,000
abbrev pub is_high_value : Option ℤ → Bool
is_high_value none = false
is_high_value (some z) = leb_ℤ (pos 10000000000) z

abbrev pub recommended_action_of : Reviewed → Option String
recommended_action_of r = elim (lookup "recommended_action" r.resolution_data) [
  | some (str t) ↦ some t
  | _ ↦ none
]

-- the source states
abbrev pub hitl_override : LifecycleState → Bool
hitl_override pending_review = true
hitl_override escalated = true
hitl_override resolved = true
hitl_override blocked_state = true
hitl_override pending_admin_review = true
hitl_override _ = false

abbrev pub hitl_disposition : LifecycleState → Bool
hitl_disposition pending_review = true
hitl_disposition escalated = true
hitl_disposition pending_admin_review = true
hitl_disposition _ = false

abbrev pub escalate_eligible : LifecycleState → Bool
escalate_eligible pending_review = true
escalate_eligible failed = true
escalate_eligible blocked_state = true
escalate_eligible _ = false

abbrev pub is_pending_cosign : LifecycleState → Bool
is_pending_cosign pending_cosign = true
is_pending_cosign _ = false

abbrev pub is_resolved : LifecycleState → Bool
is_resolved resolved = true
is_resolved _ = false

abbrev pub is_blocked : LifecycleState → Bool
is_blocked blocked_state = true
is_blocked _ = false

abbrev pub has_permission : String → User → Bool
has_permission name u = any_of (str_eq name) u.permissions

abbrev pub has_role : List String → User → Bool
has_role allowed u = any_of (λ r. any_of (str_eq r) allowed) u.roles
