-- ===== src/Hitl/Actions.antt =====
-- api/routes/exceptions.py: the handlers of escalate, challenge, admin-release, disposition and cosign,
-- with the permissions of their routes. A disposition by SUBMIT_TO_ERP, DRAFT_REPLY or SEND_REPLY goes to a
-- handler of its own, which is not modelled, and so is the cosign of a parked SUBMIT_TO_ERP. The counter
-- of overridden downgrades is telemetry, and the notes of a challenge and of a release are kept without their prefix.
use asoe.Prelude.{
  String, Bool, false, ◌&&◌, ◌||◌, not, Option, none, some, List, [], ◌∷◌, ◌++◌, any_of, str_eq,
  or_else, if◌then◌else◌,
}
use asoe.Prelude.Int.{pos}
use asoe.Prelude.Dict.{lookup}
use asoe.Prelude.Results.{err}
use asoe.Pipeline.{complete, rejected}
use asoe.Records.{
  LifecycleState, escalated, pending_admin_review, pending_cosign, resolved, rejected_state,
}
use asoe.Hitl.{
  PendingOverride, Reviewed, override_initiated, override_cosigned, override_rejected,
  exception_resolved, exception_escalated, exception_challenge, exception_admin_release, Call, Desk,
  invalid_state, no_pending_override, sod_violation, notes_required, invalid_action,
  invalid_reason_tag, permission_denied, invalid_verdict, risk_not_acknowledged, dedicated_handler,
  Outcome, HitlPort,
}
use asoe.Hitl.Serving.{check, found, with_review, idempotent, conclude, written, replied, moved}
use asoe.Hitl.Guards.{
  cosign_materiality_usd, is_high_value, recommended_action_of, hitl_override, hitl_disposition,
  escalate_eligible, is_pending_cosign, is_resolved, is_blocked, has_permission, has_role,
}

pub data Request : Type 0 where
  escalate : (reason : String) → (to_role : Option String) → Request
  challenge : (challenge_reason : String) → Request
  admin_release : (release_reason : String) → (risk_acknowledgment : Bool) → Request
  disposition : (action notes reason_tag : String) → Request
  override_cosign : (approve : Bool) → (notes : String) → Request

pub data SubType : Type 0 where
  approve reject override : SubType

abbrev pub sub_type_of : String → Option String → SubType
sub_type_of action recommended = if str_eq action "NO_ACTION" then reject else elim recommended [
  | none ↦ override
  | some a ↦ if str_eq action a then approve else override
]

abbrev pub has_own_handler : String → Bool
has_own_handler a = str_eq a "SUBMIT_TO_ERP" || str_eq a "DRAFT_REPLY" || str_eq a "SEND_REPLY"

-- GREEN, YELLOW or RED
abbrev pub has_verdict : Reviewed → Bool
has_verdict r = elim r.child.shadow_verdict [
  | none ↦ false
  | some t ↦ str_eq t "GREEN" || str_eq t "YELLOW" || str_eq t "RED"
]

module _ (p : HitlPort) where
  unfoldable pub is_valid_reason_tag_for_write : Option String → String → Bool
  is_valid_reason_tag_for_write intent tag =
      let known : Option (List String) = elim intent [
        | none ↦ none
        | some i ↦ lookup i p.intent_reason_tags
      ] in
      any_of (str_eq tag) (or_else known p.global_reason_tags)

  abbrev pub is_blank : String → Bool
  is_blank notes = str_eq (p.strip notes) ""

  abbrev pub with_escalation : Call → String → Option String → Reviewed → Reviewed
  with_escalation c reason to_role r = record (moved c escalated r) {
    escalations =
        r.escalations
        ++ (record {
          reason = reason;
          to_role = to_role;
          escalated_by = c.user.sub;
          escalated_at = c.now_iso;
          from_lifecycle_state = r.child.lifecycle_state;
        }
            ∷ []);
  }

  -- the state is looked at before the key of a retry
  unfoldable pub escalate_exception : Call → String → Option String → Desk → Outcome
  unfolding with_review idempotent conclude
  escalate_exception c reason to_role d =
      check (has_permission "exceptions:escalate" c.user) permission_denied d (
        with_review d
          (λ r. check (escalate_eligible r.child.lifecycle_state) invalid_state d (
            idempotent p c d
              (conclude c exception_escalated r (with_escalation c reason to_role r) reason)
              c.idempotency_key))
          (found c d))

  abbrev pub without_key : Call → Call
  without_key c = record c { idempotency_key = none }

  unfoldable pub challenge_exception : Call → String → Desk → Outcome
  unfolding with_review conclude
  challenge_exception c reason d =
      check (has_role ("analyst" ∷ "manager" ∷ "admin" ∷ []) c.user) permission_denied d (
        with_review d
          (λ r. check (is_resolved r.child.lifecycle_state) invalid_state d (
            conclude (without_key c) exception_challenge r
              (record (moved c escalated r) { resolution_notes = some reason }) reason d))
          (found c d))

  unfoldable pub admin_release_exception : Call → String → Bool → Desk → Outcome
  unfolding with_review conclude
  admin_release_exception c reason risk d =
      check (has_role ("admin" ∷ []) c.user) permission_denied d (
        with_review d
          (λ r. check (is_blocked r.child.lifecycle_state) invalid_state d (
            check risk risk_not_acknowledged d (
              conclude (without_key c) exception_admin_release r
                (record (moved c pending_admin_review r) { resolution_notes = some reason }) reason
                d)))
          (found c d))

  -- the record once an action has resolved or rejected it
  abbrev pub settled : Call → (action notes : String) → LifecycleState → Reviewed → Reviewed
  settled c action notes state r =
      let m = moved c state r in
      record m {
        child = record (m.child) {
          final_status = some (if is_resolved state then complete else rejected);
        };
        resolved_by = some c.user.sub;
        resolved_action = some action;
        resolution_notes = some notes;
      }

  unfoldable pub staged : Call → (action notes reason_tag : String) → Reviewed → Reviewed
  staged c action notes tag r = record (moved c pending_cosign r) {
    pending_override = some (record {
      action = action;
      notes = notes;
      reason_tag = tag;
      initiator = c.user.sub;
      initiated_at = c.now_iso;
      financial_impact_usd = or_else (cosign_materiality_usd r) (pos 0);
      from_lifecycle_state = r.child.lifecycle_state;
    });
  }

  -- an override is resolved at once, or parked for a second reviewer
  unfoldable pub override_with :
      Call → (action notes reason_tag : String) → Reviewed → Desk → Outcome
  unfolding conclude written staged
  override_with c action notes tag r d =
      check (has_permission "exceptions:override" c.user) permission_denied d (
        check (has_verdict r) invalid_verdict d (
          check (hitl_override r.child.lifecycle_state) invalid_state d (
            let r' = staged c action notes tag r in
            if is_high_value (cosign_materiality_usd r)
            then replied c r' (written c override_initiated r r' notes d)
            else conclude c exception_resolved r (settled c action notes resolved r) notes d)))

  abbrev pub dispose_as :
      Call → (action notes reason_tag : String) → Reviewed → Desk → SubType → Outcome
  dispose_as c action notes tag r d override = override_with c action notes tag r d
  dispose_as c action notes tag r d approve =
      check (hitl_disposition r.child.lifecycle_state) invalid_state d
        (conclude c exception_resolved r (settled c action notes resolved r) notes d)
  dispose_as c action notes tag r d reject =
      check (hitl_disposition r.child.lifecycle_state) invalid_state d
        (conclude c exception_resolved r (settled c action notes rejected_state r) notes d)

  unfoldable pub dispose : Call → (action notes reason_tag : String) → Reviewed → Desk → Outcome
  unfolding is_valid_reason_tag_for_write override_with conclude
  dispose c action notes tag r d =
      check (str_eq action "NO_ACTION" || any_of (str_eq action) p.allowed_actions) invalid_action d
        (check (not (has_own_handler action)) dedicated_handler d (
          check (is_valid_reason_tag_for_write r.child.intent tag) invalid_reason_tag d (
            check (not (is_blank notes)) notes_required d
              (dispose_as c action notes tag r d (sub_type_of action (recommended_action_of r))))))

  unfoldable pub disposition_exception : Call → (action notes reason_tag : String) → Desk → Outcome
  unfolding with_review idempotent dispose
  disposition_exception c action notes tag d =
      check (has_permission "exceptions:approve" c.user) permission_denied d (
        with_review d (λ r. idempotent p c d (dispose c action notes tag r) c.idempotency_key)
          (found c d))

  -- the pending override is applied: resolved by who proposed it, cosigned by the caller
  unfoldable pub cosigned : Call → String → PendingOverride → Reviewed → Reviewed
  cosigned c notes o r =
      let m = moved c resolved r in
      record m {
        child = record (m.child) { final_status = some complete };
        resolved_by = some o.initiator;
        resolved_action = some o.action;
        resolution_notes = some o.notes;
        pending_override = none;
        cosign = some (record {
          cosigned_by = c.user.sub;
          cosigned_at = c.now_iso;
          cosign_notes = notes;
          initiator = o.initiator;
          initiated_at = o.initiated_at;
        });
      }

  abbrev pub refused : Call → String → PendingOverride → Reviewed → Reviewed
  refused c notes o r = record (moved c o.from_lifecycle_state r) {
    pending_override = none;
    cosign_rejection = some (record {
      rejected_by = c.user.sub;
      rejected_at = c.now_iso;
      rejection_notes = notes;
      initiator = o.initiator;
    });
  }

  unfoldable pub decide_pending :
      Call → Bool → String → Reviewed → Desk → Option PendingOverride → Outcome
  unfolding conclude cosigned
  decide_pending c yes_vote notes r d none = (err no_pending_override, d)
  decide_pending c yes_vote notes r d (some o) =
      check (not (str_eq o.initiator c.user.sub)) sod_violation d (
        check (not (is_blank notes)) notes_required d (
          check (not (yes_vote && str_eq o.action "SUBMIT_TO_ERP")) dedicated_handler d (
            if yes_vote
            then conclude c override_cosigned r (cosigned c notes o r) notes d
            else conclude c override_rejected r (refused c notes o r) notes d)))

  unfoldable pub cosign_override : Call → Bool → String → Desk → Outcome
  unfolding with_review idempotent decide_pending
  cosign_override c yes_vote notes d =
      check (has_role ("manager" ∷ "admin" ∷ []) c.user) permission_denied d (
        with_review d
          (λ r.
            idempotent p c d
              (λ d'.
                check (is_pending_cosign r.child.lifecycle_state) invalid_state d'
                  (decide_pending c yes_vote notes r d' r.pending_override))
              c.idempotency_key)
          (found c d))

  unfoldable pub handle : Call → Request → Desk → Outcome
  unfolding escalate_exception challenge_exception admin_release_exception disposition_exception
      cosign_override
  handle c (escalate reason to_role) d = escalate_exception c reason to_role d
  handle c (challenge reason) d = challenge_exception c reason d
  handle c (admin_release reason risk) d = admin_release_exception c reason risk d
  handle c (disposition action notes tag) d = disposition_exception c action notes tag d
  handle c (override_cosign yes_vote notes) d = cosign_override c yes_vote notes d

  -- the requests in the order in which they are served
  unfoldable pub handle_all : List (Call × Request) → Desk → Desk
  unfolding handle
  handle_all [] d = d
  handle_all ((c, q) ∷ qs) d = handle_all qs (handle c q d).1
