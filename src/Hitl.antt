-- ===== src/Hitl.antt =====
-- api/routes/exceptions.py: what the human decisions on an exception share: the record under review, the
-- audit events, the guards, and the replies that are kept for retries. Of the keys of `resolution_data`,
-- those that the handlers write are fields of their own. Of an audit event its key, its states, its user and
-- its reason are kept; how events are chained is Records/Chain. A reply is the record itself.
pub mod Serving
pub mod Guards
pub mod Actions
pub mod FourEyes
pub mod Audited
pub mod Steps
pub mod Kept
pub mod Retry
pub mod Parent
mod Examples
use asoe.Prelude.{
  ℕ, ◌-◌, String, Bool, true, false, ◌&&◌, ◌||◌, not, Option, none, some, List, [], ◌∷◌, ◌++◌, map,
  any_of, str_eq, ltb, or_else, keep_if, if◌then◌else◌,
}
use asoe.Prelude.Int.{ℤ, pos, leb_ℤ}
use asoe.Prelude.Dict.{Dict, lookup, insert}
use asoe.Prelude.Results.{Result, ok, err}
use asoe.Value.{Value, obj, str, num, bool, get}
use asoe.Records.{
  LifecycleState, ingested, classifying, auditing, pending_review, escalated, pending_admin_review,
  pending_cosign, resolved, failed, blocked_state, rejected_state, closed, ChildCase,
  ExceptionStore,
}
use asoe.Cases.{CaseStore, StoreError}
use asoe.Cases.Resolver.{Rollup, recompute_case_status}

pub record PendingOverride : Type 0 where
  pub action : String
  pub notes : String
  pub reason_tag : String
  pub initiator : String
  pub initiated_at : String
  pub financial_impact_usd : ℤ
  pub from_lifecycle_state : LifecycleState

pub record Cosign : Type 0 where
  pub cosigned_by : String
  pub cosigned_at : String
  pub cosign_notes : String
  pub initiator : String
  pub initiated_at : String

pub record CosignRejection : Type 0 where
  pub rejected_by : String
  pub rejected_at : String
  pub rejection_notes : String
  pub initiator : String

pub record Escalation : Type 0 where
  pub reason : String
  pub to_role : Option String
  pub escalated_by : String
  pub escalated_at : String
  pub from_lifecycle_state : LifecycleState

-- a child case with what a decision reads and writes
pub record Reviewed : Type 0 where
  pub child : ChildCase
  pub resolved_by : Option String
  pub resolved_action : Option String
  pub resolution_notes : Option String
  pub resolution_data : Dict Value
  pub enrichment_context : Dict Value
  pub pending_override : Option PendingOverride
  pub cosign : Option Cosign
  pub cosign_rejection : Option CosignRejection
  pub escalations : List Escalation

pub data PolicyKey : Type 0 where
  override_initiated override_cosigned override_rejected exception_resolved exception_escalated
        exception_challenge exception_admin_release :
      PolicyKey

pub record AuditNote : Type 0 where
  pub tenant_id : String
  pub exception_id : String
  pub policy_key : PolicyKey
  pub previous_state : LifecycleState
  pub new_state : LifecycleState
  pub changed_by : String
  pub change_reason : String

pub record User : Type 0 where
  pub sub : String
  pub roles : List String
  pub permissions : List String

-- one request: who asks about which exception, when, and the JSON of what is asked
pub record Call : Type 0 where
  pub tenant_id : String
  pub exception_id : String
  pub user : User
  pub idempotency_key : Option String
  pub body : String
  pub now : ℕ
  pub now_iso : String

pub record ReplyKey : Type 0 where
  pub tenant_id : String
  pub exception_id : String
  pub user_sub : String
  pub key : String

pub record CachedReply : Type 0 where
  pub reply_key : ReplyKey
  pub created_at : ℕ
  pub request_body : String
  pub response : Reviewed

pub record Desk : Type 0 where
  pub reviews : Dict Reviewed
  pub audit : List AuditNote
  pub cases : CaseStore
  pub replies : List CachedReply

pub data HitlError : Type 0 where
  not_found invalid_state malformed_key idempotency_conflict no_pending_override sod_violation
        notes_required invalid_action invalid_reason_tag permission_denied invalid_verdict
        risk_not_acknowledged :
      HitlError
  -- the action has a handler of its own
  dedicated_handler : HitlError
  case_error : StoreError → HitlError

abbrev pub Outcome : Type 0
Outcome = Result HitlError Reviewed × Desk

-- what a handler calls: `str.strip`, the pattern of a key, and the vocabularies of constraints/specs.py
pub record HitlPort : Type 0 where
  pub strip : String → String
  pub is_key : String → Bool
  pub allowed_actions : List String
  pub intent_reason_tags : Dict (List String)
  pub global_reason_tags : List String
