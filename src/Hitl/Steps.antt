-- ===== src/Hitl/Steps.antt =====
-- api/routes/exceptions.py: what each handler does to the record that it is about, and the second reviewer
-- of a high-value override.
use asoe.Prelude.{
  ◌≡◌, ◌≢◌, refl, sym, ◌∙◌, inl, inr, String, Bool, true, false, not, Option, none, some, str_eq,
  eq_iff, Bool-cases, arith, if◌then◌else◌,
}
use asoe.Records.{resolved, rejected_state}
use asoe.Hitl.{
  PendingOverride, Cosign, Reviewed, override_initiated, override_cosigned, override_rejected,
  exception_resolved, exception_escalated, exception_challenge, exception_admin_release, Call, Desk,
  Outcome, HitlPort, invalid_state,
}
use asoe.Hitl.Serving.{check, found, conclude}
use asoe.Hitl.Guards.{
  is_pending_cosign, cosign_materiality_usd, is_high_value, recommended_action_of,
}
use asoe.Hitl.Actions.{
  Request, escalate, challenge, admin_release, disposition, override_cosign, SubType, approve,
  reject, override, sub_type_of, with_escalation, without_key, escalate_exception,
  challenge_exception, admin_release_exception, settled, staged, override_with, dispose_as, dispose,
  disposition_exception, cosigned, refused, decide_pending, cosign_override, handle,
}
use asoe.Hitl.Audited.{
  Same, IsStep, unchanged, changed, check-IsStep, with_review-IsStep, idempotent-IsStep,
  replied-IsStep, conclude-IsStep,
}

-- a second reviewer signed for what the first one proposed
abbrev pub IsCosigned : Reviewed → Type 0
IsCosigned r =
    (k : Cosign) × ((r.cosign ≡ some k)
      × ((r.resolved_by ≡ some k.initiator) × (k.initiator ≢ k.cosigned_by)))

-- an action other than NO_ACTION that deviates from the recommended one, on a record of high value, is
-- cosigned; a rejection, which resolves a record with NO_ACTION, needs no second reviewer
abbrev pub IsFourEyed : Reviewed → Type 0
IsFourEyed r =
    (a : String)
    → r.resolved_action ≡ some a
    → a ≢ "NO_ACTION"
    → recommended_action_of r ≢ some a
    → is_high_value (cosign_materiality_usd r) ≡ true
    → IsCosigned r

abbrev pub KeepsFourEyes : Reviewed → Reviewed → Type 0
KeepsFourEyes r r' = IsFourEyed r → IsFourEyed r'

some-inj : {a b : String} → some a ≡ some b → a ≡ b
some-inj h = cc

sub_type-approve :
    (action : String) (o : Option String) → sub_type_of action o ≡ approve → o ≡ some action
sub_type-approve action none h = absurd (ground (arith, h))
sub_type-approve action (some a) h = ground (arith, h, eq_iff action a)

sub_type-reject :
    (action : String) (o : Option String) → sub_type_of action o ≡ reject → action ≡ "NO_ACTION"
sub_type-reject action none h = ground (arith, h, eq_iff action "NO_ACTION")
sub_type-reject action (some a) h = ground (arith, h, eq_iff action "NO_ACTION")

module _ (p : HitlPort) (c : Call) (d0 : Desk) where
  override_with-IsStep :
      (action notes tag : String) (r : Reviewed) (d : Desk)
      → found c d0 ≡ some r
      → Same d0 d
      → IsStep KeepsFourEyes c d0 (override_with p c action notes tag r d)
  unfolding override_with staged
  override_with-IsStep action notes tag r d there same =
      check-IsStep KeepsFourEyes c d0 _ _ d _ same (λ permitted.
        check-IsStep KeepsFourEyes c d0 _ _ d _ same (λ judged.
          check-IsStep KeepsFourEyes c d0 _ _ d _ same (λ eligible.
            elim (Bool-cases (is_high_value (cosign_materiality_usd r))) [
              | inl high ↦ rw high (
                  replied-IsStep KeepsFourEyes c d0 override_initiated r
                    (staged p c action notes tag r) notes d there same (λ h. h))
              | inr low ↦ rw low (
                  conclude-IsStep KeepsFourEyes c d0 exception_resolved r
                    (settled p c action notes resolved r) notes d there same
                    (λ h a acts deviates other high. absurd (ground (arith, low, high))))
            ])))

  dispose_as-IsStep :
      (action notes tag : String) (r : Reviewed) (d : Desk) (t : SubType)
      → sub_type_of action (recommended_action_of r) ≡ t
      → found c d0 ≡ some r
      → Same d0 d
      → IsStep KeepsFourEyes c d0 (dispose_as p c action notes tag r d t)
  dispose_as-IsStep action notes tag r d override kind there same =
      override_with-IsStep action notes tag r d there same
  dispose_as-IsStep action notes tag r d approve kind there same =
      check-IsStep KeepsFourEyes c d0 _ _ d _ same (λ eligible.
        conclude-IsStep KeepsFourEyes c d0 exception_resolved r
          (settled p c action notes resolved r) notes d there same
          (λ h a acts deviates other high. absurd (other (sub_type-approve action _ kind ∙ acts))))
  dispose_as-IsStep action notes tag r d reject kind there same =
      check-IsStep KeepsFourEyes c d0 _ _ d _ same (λ eligible.
        conclude-IsStep KeepsFourEyes c d0 exception_resolved r
          (settled p c action notes rejected_state r) notes d there same
          (λ h a acts deviates other high.
            absurd (deviates (sym (some-inj acts) ∙ sub_type-reject action _ kind))))

  dispose-IsStep :
      (action notes tag : String) (r : Reviewed) (d : Desk)
      → found c d0 ≡ some r
      → Same d0 d
      → IsStep KeepsFourEyes c d0 (dispose p c action notes tag r d)
  unfolding dispose
  dispose-IsStep action notes tag r d there same =
      check-IsStep KeepsFourEyes c d0 _ _ d _ same (λ known.
        check-IsStep KeepsFourEyes c d0 _ _ d _ same (λ own.
          check-IsStep KeepsFourEyes c d0 _ _ d _ same (λ tagged.
            check-IsStep KeepsFourEyes c d0 _ _ d _ same
              (λ noted. dispose_as-IsStep action notes tag r d _ refl there same))))

  decide_pending-IsStep :
      (yes_vote : Bool) (notes : String) (r : Reviewed) (d : Desk) (o : Option PendingOverride)
      → found c d0 ≡ some r
      → Same d0 d
      → IsStep KeepsFourEyes c d0 (decide_pending p c yes_vote notes r d o)
  unfolding decide_pending cosigned
  decide_pending-IsStep yes_vote notes r d none there same = unchanged same
  decide_pending-IsStep yes_vote notes r d (some o) there same =
      check-IsStep KeepsFourEyes c d0 _ _ d _ same (λ second.
        check-IsStep KeepsFourEyes c d0 _ _ d _ same
          (λ noted. check-IsStep KeepsFourEyes c d0 _ _ d _ same (λ own. voted yes_vote second)))
    where
      voted :
          (b : Bool)
          → not (str_eq o.initiator c.user.sub) ≡ true
          → IsStep KeepsFourEyes c d0 (
              if b
              then conclude c override_cosigned r (cosigned p c notes o r) notes d
              else conclude c override_rejected r (refused p c notes o r) notes d)
      voted true second =
          conclude-IsStep KeepsFourEyes c d0 override_cosigned r (cosigned p c notes o r) notes d
            there same
            (λ h a acts deviates other high.
              (_, (refl, (refl, λ e. ground (arith, second, e, eq_iff o.initiator c.user.sub)))))
      voted false second =
          conclude-IsStep KeepsFourEyes c d0 override_rejected r (refused p c notes o r) notes d
            there same (λ h. h)

  escalate-IsStep :
      (reason : String) (to_role : Option String)
      → IsStep KeepsFourEyes c d0 (escalate_exception p c reason to_role d0)
  unfolding escalate_exception
  escalate-IsStep reason to_role =
      check-IsStep KeepsFourEyes c d0 _ _ d0 _ (refl, refl)
        (λ permitted. with_review-IsStep KeepsFourEyes c d0 _ _ refl (λ r there.
          check-IsStep KeepsFourEyes c d0 _ _ d0 _ (refl, refl)
            (λ eligible. idempotent-IsStep KeepsFourEyes c d0 p _ _ (λ d same.
              conclude-IsStep KeepsFourEyes c d0 exception_escalated r
                (with_escalation p c reason to_role r) reason d there same (λ h. h)))))

  -- a handler that keeps no reply
  keyless-IsStep :
      (o : Outcome) → IsStep KeepsFourEyes (without_key p c) d0 o → IsStep KeepsFourEyes c d0 o
  unfolding found
  keyless-IsStep o (unchanged h) = unchanged h
  keyless-IsStep o (changed h) = changed h

  challenge-IsStep :
      (reason : String) → IsStep KeepsFourEyes c d0 (challenge_exception p c reason d0)
  unfolding challenge_exception found
  challenge-IsStep reason =
      check-IsStep KeepsFourEyes c d0 _ _ d0 _ (refl, refl)
        (λ permitted. with_review-IsStep KeepsFourEyes c d0 _ _ refl (λ r there.
          check-IsStep KeepsFourEyes c d0 _ _ d0 _ (refl, refl)
            (λ eligible. keyless-IsStep _ (
              conclude-IsStep KeepsFourEyes (without_key p c) d0 exception_challenge r _ reason d0
                there (refl, refl) (λ h. h)))))

  admin_release-IsStep :
      (reason : String) (risk : Bool)
      → IsStep KeepsFourEyes c d0 (admin_release_exception p c reason risk d0)
  unfolding admin_release_exception found
  admin_release-IsStep reason risk =
      check-IsStep KeepsFourEyes c d0 _ _ d0 _ (refl, refl)
        (λ permitted. with_review-IsStep KeepsFourEyes c d0 _ _ refl (λ r there.
          check-IsStep KeepsFourEyes c d0 _ _ d0 _ (refl, refl)
            (λ eligible.
              check-IsStep KeepsFourEyes c d0 _ _ d0 _ (refl, refl)
                (λ acknowledged. keyless-IsStep _ (
                  conclude-IsStep KeepsFourEyes (without_key p c) d0 exception_admin_release r _
                    reason d0 there (refl, refl) (λ h. h))))))

  disposition-IsStep :
      (action notes tag : String)
      → IsStep KeepsFourEyes c d0 (disposition_exception p c action notes tag d0)
  unfolding disposition_exception
  disposition-IsStep action notes tag =
      check-IsStep KeepsFourEyes c d0 _ _ d0 _ (refl, refl)
        (λ permitted. with_review-IsStep KeepsFourEyes c d0 _ _ refl (λ r there.
          idempotent-IsStep KeepsFourEyes c d0 p _ _
            (λ d same. dispose-IsStep action notes tag r d there same)))

  cosign-IsStep :
      (yes_vote : Bool) (notes : String)
      → IsStep KeepsFourEyes c d0 (cosign_override p c yes_vote notes d0)
  unfolding cosign_override
  cosign-IsStep yes_vote notes =
      check-IsStep KeepsFourEyes c d0 _ _ d0 _ (refl, refl)
        (λ permitted. with_review-IsStep KeepsFourEyes c d0 _ _ refl (λ r there.
          idempotent-IsStep KeepsFourEyes c d0 p
            (λ d.
              check (is_pending_cosign r.child.lifecycle_state) invalid_state d
                (decide_pending p c yes_vote notes r d r.pending_override))
            c.idempotency_key
            (λ d same.
              check-IsStep KeepsFourEyes c d0 _ _ d _ same
                (λ parked. decide_pending-IsStep yes_vote notes r d _ there same))))

  -- A request, by whomever and however it ends, leaves the records and the audit log as they are; or it
  -- changes the one record of its tenant that it names and logs one event, which says who took the record
  -- from which state to which. A record of high value whose deviating action, other than NO_ACTION, has a
  -- second reviewer still has one.
  pub handle-IsStep : (q : Request) → IsStep KeepsFourEyes c d0 (handle p c q d0)
  unfolding handle
  handle-IsStep (escalate reason to_role) = escalate-IsStep reason to_role
  handle-IsStep (challenge reason) = challenge-IsStep reason
  handle-IsStep (admin_release reason risk) = admin_release-IsStep reason risk
  handle-IsStep (disposition action notes tag) = disposition-IsStep action notes tag
  handle-IsStep (override_cosign yes_vote notes) = cosign-IsStep yes_vote notes
