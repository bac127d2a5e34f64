-- ===== src/Hitl/Audited.antt =====
-- api/routes/exceptions.py: what one request does to the records under review and to the audit log.
use asoe.Prelude.{
  ◌≡◌, refl, ap, ◌∙◌, inl, inr, String, Bool, true, false, Option, none, some, [], ◌∷◌, ◌++◌, ltb,
  ◌-◌, str_eq, Bool-cases, arith,
}
use asoe.Prelude.Dict.{insert}
use asoe.Prelude.Results.{Result, ok, err}
use asoe.Cases.{StoreError}
use asoe.Cases.Resolver.{Rollup}
use asoe.Hitl.{
  Reviewed, PolicyKey, AuditNote, Call, ReplyKey, CachedReply, Desk, HitlError, Outcome, HitlPort,
  idempotency_conflict, malformed_key,
}
use asoe.Hitl.Serving.{
  check, found, with_review, reply_or, idempotent, reply_key_of, keep_reply,
  reaggregate_parent_case, with_roll_up, after_roll_up, replied, note, written, conclude,
}

-- the same records and the same log
abbrev pub Same : Desk → Desk → Type 0
Same d0 d = (d.reviews ≡ d0.reviews) × (d.audit ≡ d0.audit)

-- the event says who took the record from which state to which
abbrev pub IsNoted : Call → Reviewed → Reviewed → AuditNote → Type 0
IsNoted c r r' n =
    (n.tenant_id ≡ c.tenant_id)
    × ((n.exception_id ≡ c.exception_id)
        × ((n.changed_by ≡ c.user.sub)
            × ((n.previous_state ≡ r.child.lifecycle_state)
                × (n.new_state ≡ r'.child.lifecycle_state))))

with_roll_up-Same :
    (d d' : Desk) (o : Result StoreError Rollup) → with_roll_up d o ≡ ok d' → Same d d'
with_roll_up-Same d d' (err e) h = absurd (ground (arith, h))
with_roll_up-Same d d' (ok rolled) h = (ground (arith, h), ground (arith, h))

pub reaggregate-Same :
    (c : Call) (d d' : Desk) (parent : Option String)
    → reaggregate_parent_case c d parent ≡ ok d'
    → Same d d'
unfolding reaggregate_parent_case
reaggregate-Same c d d' none h = (ground (arith, h), ground (arith, h))
reaggregate-Same c d d' (some case_id) h = with_roll_up-Same d d' _ h

module _ (Q : Reviewed → Reviewed → Type 0) (c : Call) (d0 : Desk) where
  abbrev pub IsChange : Desk → Type 0
  IsChange d =
      (r : Reviewed) × (r' : Reviewed) × (n : AuditNote) × ((found c d0 ≡ some r)
        × ((d.reviews ≡ insert c.exception_id r' d0.reviews)
            × ((d.audit ≡ d0.audit ++ (n ∷ [])) × (IsNoted c r r' n × Q r r'))))

  -- nothing is changed, or one record is, and one event is logged
  pub data IsStep (o : Outcome) : Type 0 where
    unchanged : Same d0 o.1 → IsStep o
    changed : IsChange o.1 → IsStep o

  pub check-IsStep :
      (b : Bool) (e : HitlError) (d : Desk) (next : Outcome)
      → Same d0 d
      → (b ≡ true → IsStep next)
      → IsStep (check b e d next)
  unfolding check
  check-IsStep true e d next same h = h refl
  check-IsStep false e d next same h = unchanged same

  pub with_review-IsStep :
      (go : Reviewed → Outcome) (o : Option Reviewed)
      → found c d0 ≡ o
      → ((r : Reviewed) → found c d0 ≡ some r → IsStep (go r))
      → IsStep (with_review d0 go o)
  unfolding with_review
  with_review-IsStep go none there h = unchanged (refl, refl)
  with_review-IsStep go (some r) there h = h r there

  reply_or-IsStep :
      (k : ReplyKey) (go : Desk → Outcome) (o : Option CachedReply)
      → ((d : Desk) → Same d0 d → IsStep (go d))
      → IsStep (reply_or c k d0 go o)
  unfolding reply_or
  reply_or-IsStep k go none h = h d0 (refl, refl)
  reply_or-IsStep k go (some e) h = elim (Bool-cases (ltb 86400 (c.now - e.created_at))) [
    | inl old ↦ rw old (h _ (refl, refl))
    | inr fresh ↦ rw fresh (
        check-IsStep (str_eq e.request_body c.body) idempotency_conflict d0 (ok e.response, d0)
          (refl, refl) (λ same_body. unchanged (refl, refl)))
  ]

  pub idempotent-IsStep :
      (p : HitlPort) (go : Desk → Outcome) (key : Option String)
      → ((d : Desk) → Same d0 d → IsStep (go d))
      → IsStep (idempotent p c d0 go key)
  unfolding idempotent
  idempotent-IsStep p go none h = h d0 (refl, refl)
  idempotent-IsStep p go (some k) h =
      check-IsStep (p.is_key k) malformed_key d0 _ (refl, refl)
        (λ valid. reply_or-IsStep (reply_key_of c k) go _ h)

  keep_reply-IsChange :
      (d : Desk) (r : Reviewed) (key : Option String) → IsChange d → IsChange (keep_reply c r key d)
  unfolding keep_reply
  keep_reply-IsChange d r none h = h
  keep_reply-IsChange d r (some k) h = h

  written-IsChange :
      (key : PolicyKey) (r r' : Reviewed) (reason : String) (d : Desk)
      → found c d0 ≡ some r
      → Same d0 d
      → Q r r'
      → IsChange (written c key r r' reason d)
  unfolding written
  written-IsChange key r r' reason d there (same, log) q =
      let n = note c key r r' reason in
      (
        r,
        r',
        n,
        (
          there,
          (
            ap (insert c.exception_id r') same,
            (ap (λ l. l ++ (n ∷ [])) log, ((refl, (refl, (refl, (refl, refl)))), q)),
          ),
        ),
      )

  pub replied-IsStep :
      (key : PolicyKey) (r r' : Reviewed) (reason : String) (d : Desk)
      → found c d0 ≡ some r
      → Same d0 d
      → Q r r'
      → IsStep (replied c r' (written c key r r' reason d))
  replied-IsStep key r r' reason d there same q =
      changed (
        keep_reply-IsChange _ r' c.idempotency_key
          (written-IsChange key r r' reason d there same q))

  after_roll_up-IsStep :
      (r : Reviewed) (d : Desk) (o : Result StoreError Desk)
      → IsChange d
      → ((d' : Desk) → o ≡ ok d' → Same d d')
      → IsStep (after_roll_up c r d o)
  after_roll_up-IsStep r d (err e) h same = changed h
  after_roll_up-IsStep r d (ok d') (a, b, n, (there, (reviews, (log, rest)))) same =
      let (same_reviews, same_log) = same d' refl in
      changed (
        keep_reply-IsChange d' r c.idempotency_key
          (a, b, n, (there, (same_reviews ∙ reviews, (same_log ∙ log, rest)))))

  pub conclude-IsStep :
      (key : PolicyKey) (r r' : Reviewed) (reason : String) (d : Desk)
      → found c d0 ≡ some r
      → Same d0 d
      → Q r r'
      → IsStep (conclude c key r r' reason d)
  unfolding conclude
  conclude-IsStep key r r' reason d there same q =
      let d' = written c key r r' reason d in
      after_roll_up-IsStep r' d' (reaggregate_parent_case c d' r'.child.parent_case_id)
        (written-IsChange key r r' reason d there same q)
        (λ d''. reaggregate-Same c d' d'' r'.child.parent_case_id)
