-- ===== src/Hitl/Kept.antt =====
-- api/routes/exceptions.py: a disposition that succeeds keeps its reply, and the record is still there.
use asoe.Prelude.{
  ◌≡◌, refl, ◌∙◌, inl, inr, subst, String, Bool, true, false, Option, none, some, str_eq, eq_refl,
  Bool-cases, arith,
}
use asoe.Prelude.Dict.{insert, lookup-insert}
use asoe.Prelude.Results.{Result, ok, err}
use asoe.Records.{resolved, rejected_state}
use asoe.Cases.{StoreError}
use asoe.Hitl.{
  Reviewed, PolicyKey, override_initiated, exception_resolved, Call, CachedReply, ReplyKey, Desk,
  HitlError, malformed_key, Outcome, HitlPort,
}
use asoe.Hitl.Serving.{
  check, of_review_tenant, found, with_review, same_reply_key, reply_key_of, find_reply, reply_or,
  idempotent, keep_reply, reaggregate_parent_case, replied, after_roll_up, written, conclude,
}
use asoe.Hitl.Guards.{cosign_materiality_usd, is_high_value}
use asoe.Hitl.Actions.{
  SubType, approve, reject, override, settled, staged, override_with, dispose_as, dispose,
  disposition_exception,
}
use asoe.Hitl.Audited.{Same, reaggregate-Same}

abbrev pub entry_of : Call → String → Reviewed → CachedReply
entry_of c k r = record {
  reply_key = reply_key_of c k;
  created_at = c.now;
  request_body = c.body;
  response = r;
}

same_reply_key_refl : (k : ReplyKey) → same_reply_key k k ≡ true
same_reply_key_refl k =
    ground (arith, eq_refl k.tenant_id, eq_refl k.exception_id, eq_refl k.user_sub, eq_refl k.key)

pub of_review_tenant-own :
    (tenant : String) (o : Option Reviewed) (r : Reviewed)
    → of_review_tenant tenant o ≡ some r
    → str_eq r.child.tenant_id tenant ≡ true
of_review_tenant-own tenant none r h = absurd (ground (arith, h))
of_review_tenant-own tenant (some b) r h = elim (Bool-cases (str_eq b.child.tenant_id tenant)) [
  | inl own ↦
      let at : some b ≡ some r = rw own at h in
      let same : b ≡ r = cc in subst (λ x. str_eq x.child.tenant_id tenant ≡ true) same own
  | inr foreign ↦ absurd (ground (arith, foreign, h))
]

module _ (c : Call) (k : String) where
  -- the record is still there, and the reply to the call is kept with it
  unfoldable pub IsKept : Outcome → Type 0
  IsKept (err e, d) = Unit
  IsKept (ok r, d) =
      (find_reply (reply_key_of c k) d.replies ≡ some (entry_of c k r))
      × ((b : Reviewed) × (found c d ≡ some b))

  check-IsKept :
      (b : Bool) (e : HitlError) (d : Desk) (next : Outcome)
      → IsKept next
      → IsKept (check b e d next)
  unfolding check IsKept
  check-IsKept true e d next h = h
  check-IsKept false e d next h = tt

  replied-IsKept :
      (r : Reviewed) (d d0 : Desk)
      → c.idempotency_key ≡ some k
      → d.reviews ≡ insert c.exception_id r d0.reviews
      → str_eq r.child.tenant_id c.tenant_id ≡ true
      → IsKept (replied c r d)
  unfolding IsKept keep_reply found
  replied-IsKept r d d0 keyed reviews own =
      rw (keyed, keep_reply)
        (
          rw (same_reply_key_refl (reply_key_of c k)) refl,
          (
            r,
            rw
                (
                  reviews,
                  lookup-insert c.exception_id c.exception_id r d0.reviews,
                  eq_refl c.exception_id,
                  own,
                )
                refl,
          ),
        )

  rolled-IsKept :
      (r : Reviewed) (d d0 : Desk) (o : Result StoreError Desk)
      → c.idempotency_key ≡ some k
      → d.reviews ≡ insert c.exception_id r d0.reviews
      → str_eq r.child.tenant_id c.tenant_id ≡ true
      → ((d' : Desk) → o ≡ ok d' → Same d d')
      → IsKept (after_roll_up c r d o)
  unfolding IsKept
  rolled-IsKept r d d0 (err e) keyed reviews own same = tt
  rolled-IsKept r d d0 (ok d') keyed reviews own same =
      replied-IsKept r d' d0 keyed ((same d' refl).0 ∙ reviews) own

  conclude-IsKept :
      (key : PolicyKey) (r r' : Reviewed) (reason : String) (d : Desk)
      → c.idempotency_key ≡ some k
      → str_eq r'.child.tenant_id c.tenant_id ≡ true
      → IsKept (conclude c key r r' reason d)
  unfolding conclude written
  conclude-IsKept key r r' reason d keyed own =
      let d' = written c key r r' reason d in
      rolled-IsKept r' d' d (reaggregate_parent_case c d' r'.child.parent_case_id) keyed refl own
        (λ d''. reaggregate-Same c d' d'' r'.child.parent_case_id)

module _ (p : HitlPort) (c : Call) (k : String) where
  override_with-IsKept :
      (action notes tag : String) (r : Reviewed) (d : Desk)
      → c.idempotency_key ≡ some k
      → str_eq r.child.tenant_id c.tenant_id ≡ true
      → IsKept c k (override_with p c action notes tag r d)
  unfolding override_with staged written
  override_with-IsKept action notes tag r d keyed own = check-IsKept c k _ _ d _ (
      check-IsKept c k _ _ d _ (
        check-IsKept c k _ _ d _ (elim (Bool-cases (is_high_value (cosign_materiality_usd r))) [
          | inl high ↦ rw high (
              replied-IsKept c k (staged p c action notes tag r)
                (written c override_initiated r (staged p c action notes tag r) notes d) d keyed
                refl own)
          | inr low ↦ rw low (
              conclude-IsKept c k exception_resolved r (settled p c action notes resolved r) notes d
                keyed own)
        ])))

  dispose_as-IsKept :
      (action notes tag : String) (r : Reviewed) (d : Desk) (t : SubType)
      → c.idempotency_key ≡ some k
      → str_eq r.child.tenant_id c.tenant_id ≡ true
      → IsKept c k (dispose_as p c action notes tag r d t)
  dispose_as-IsKept action notes tag r d override keyed own =
      override_with-IsKept action notes tag r d keyed own
  dispose_as-IsKept action notes tag r d approve keyed own = check-IsKept c k _ _ d _ (
      conclude-IsKept c k exception_resolved r (settled p c action notes resolved r) notes d keyed
        own)
  dispose_as-IsKept action notes tag r d reject keyed own = check-IsKept c k _ _ d _ (
      conclude-IsKept c k exception_resolved r (settled p c action notes rejected_state r) notes d
        keyed own)

  dispose-IsKept :
      (action notes tag : String) (r : Reviewed) (d : Desk)
      → c.idempotency_key ≡ some k
      → str_eq r.child.tenant_id c.tenant_id ≡ true
      → IsKept c k (dispose p c action notes tag r d)
  unfolding dispose
  dispose-IsKept action notes tag r d keyed own = check-IsKept c k _ _ d _ (
      check-IsKept c k _ _ d _ (
        check-IsKept c k _ _ d _
          (check-IsKept c k _ _ d _ (dispose_as-IsKept action notes tag r d _ keyed own))))

  -- a first request with its key is served
  first-IsKept :
      (d : Desk) (go : Desk → Outcome) (key : Option String)
      → key ≡ some k
      → find_reply (reply_key_of c k) d.replies ≡ none
      → IsKept c k (go d)
      → IsKept c k (idempotent p c d go key)
  unfolding idempotent reply_or
  first-IsKept d go key keyed first h =
      rw (keyed, idempotent)
        (check-IsKept c k (p.is_key k) malformed_key d
          (reply_or c (reply_key_of c k) d go (find_reply (reply_key_of c k) d.replies))
          (rw (first, reply_or) h))

  of_record-IsKept :
      (action notes tag : String) (d : Desk) (o : Option Reviewed)
      → found c d ≡ o
      → c.idempotency_key ≡ some k
      → find_reply (reply_key_of c k) d.replies ≡ none
      → IsKept c k (
          with_review d
            (λ r. idempotent p c d (dispose p c action notes tag r) c.idempotency_key)
            o)
  unfolding with_review IsKept found
  of_record-IsKept action notes tag d none there keyed first = tt
  of_record-IsKept action notes tag d (some r) there keyed first =
      first-IsKept d (dispose p c action notes tag r) c.idempotency_key keyed first
        (dispose-IsKept action notes tag r d keyed (of_review_tenant-own c.tenant_id _ r there))

  pub disposition-IsKept :
      (action notes tag : String) (d : Desk)
      → c.idempotency_key ≡ some k
      → find_reply (reply_key_of c k) d.replies ≡ none
      → IsKept c k (disposition_exception p c action notes tag d)
  unfolding disposition_exception
  disposition-IsKept action notes tag d keyed first =
      check-IsKept c k _ _ d _ (of_record-IsKept action notes tag d (found c d) refl keyed first)
