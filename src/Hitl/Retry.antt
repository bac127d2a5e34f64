-- ===== src/Hitl/Retry.antt =====
-- api/routes/exceptions.py: a disposition that is sent again with its idempotency key.
use asoe.Prelude.{
  ℕ, ◌-◌, ◌≤◌, ◌≡◌, refl, ap, ◌∙◌, subst, String, Bool, true, false, Option, none, some, str_eq,
  ltb, eq_refl, arith,
}
use asoe.Prelude.Results.{ok}
use asoe.Hitl.{
  Reviewed, Call, Desk, HitlError, malformed_key, permission_denied, idempotency_conflict, Outcome,
  HitlPort,
}
use asoe.Hitl.Serving.{check, found, with_review, reply_key_of, find_reply, reply_or, idempotent}
use asoe.Hitl.Guards.{has_permission}
use asoe.Hitl.Actions.{dispose, disposition_exception}
use asoe.Hitl.Kept.{entry_of, IsKept, disposition-IsKept}

pub check-ok :
    (b : Bool) (e : HitlError) (d d' : Desk) (next : Outcome) (r : Reviewed)
    → check b e d next ≡ (ok r, d')
    → (b ≡ true) × (next ≡ (ok r, d'))
unfolding check
check-ok true e d d' next r h = (refl, h)
check-ok false e d d' next r h = absurd (ground (arith, ap (λ o. o.0) h))

pub with_review-ok :
    (d d' : Desk) (go : Reviewed → Outcome) (o : Option Reviewed) (r : Reviewed)
    → with_review d go o ≡ (ok r, d')
    → (b : Reviewed) × ((o ≡ some b) × (go b ≡ (ok r, d')))
unfolding with_review
with_review-ok d d' go none r h = absurd (ground (arith, ap (λ o. o.0) h))
with_review-ok d d' go (some b) r h = (b, (refl, h))

-- the same call, at another time
abbrev pub at_time : (now : ℕ) → (now_iso : String) → Call → Call
at_time now now_iso c = record c { now = now; now_iso = now_iso }

check-pass :
    (b : Bool) (e : HitlError) (d : Desk) (next : Outcome) → b ≡ true → check b e d next ≡ next
unfolding check
check-pass b e d next h = rw h refl

with_review-pass :
    (d : Desk) (go : Reviewed → Outcome) (o : Option Reviewed) (b : Reviewed)
    → o ≡ some b
    → with_review d go o ≡ go b
unfolding with_review
with_review-pass d go o b h = rw (h, with_review) refl

module _ (p : HitlPort) (c : Call) (k : String) where
  idempotent-valid :
      (d d' : Desk) (go : Desk → Outcome) (key : Option String) (r : Reviewed)
      → key ≡ some k
      → idempotent p c d go key ≡ (ok r, d')
      → p.is_key k ≡ true
  unfolding idempotent
  idempotent-valid d d' go key r keyed h =
      (check-ok (p.is_key k) malformed_key d d' _ r (rw (keyed, idempotent) at h)).0

  replay :
      (now : ℕ) (now_iso : String) (d : Desk) (go : Desk → Outcome) (key : Option String)
      (r : Reviewed)
      → key ≡ some k
      → p.is_key k ≡ true
      → find_reply (reply_key_of c k) d.replies ≡ some (entry_of c k r)
      → now - c.now ≤ 86400
      → idempotent p (at_time now now_iso c) d go key ≡ (ok r, d)
  unfolding idempotent reply_or
  replay now now_iso d go key r keyed valid stored soon =
      let fresh : ltb 86400 (now - c.now) ≡ false = ground (arith, soon) in
      rw (keyed, idempotent)
        (check-pass (p.is_key k) malformed_key d _ valid
          ∙ rw (stored, reply_or, fresh)
              (check-pass (str_eq c.body c.body) idempotency_conflict d _ (eq_refl c.body)))

-- A disposition that succeeds under a key that was not used before, and that is sent again with the same
-- body within 24 hours, is answered with the same record and changes nothing.
pub disposition_exception_again :
    (p : HitlPort) (c : Call) (k action notes tag now_iso : String) (now : ℕ) (d d' : Desk)
    (r : Reviewed)
    → c.idempotency_key ≡ some k
    → find_reply (reply_key_of c k) d.replies ≡ none
    → now - c.now ≤ 86400
    → disposition_exception p c action notes tag d ≡ (ok r, d')
    → disposition_exception p (at_time now now_iso c) action notes tag d' ≡ (ok r, d')
unfolding disposition_exception IsKept found
disposition_exception_again p c k action notes tag now_iso now d d' r keyed first soon e =
    let (stored, (b, there)) =
      subst (IsKept c k) e (disposition-IsKept p c k action notes tag d keyed first) in
    let (permitted, reviewed) = check-ok _ permission_denied d d' _ r e in
    let (b0, (there0, served)) =
      with_review-ok d d' (λ x. idempotent p c d (dispose p c action notes tag x) c.idempotency_key)
        (found c d) r reviewed in
    let valid =
      idempotent-valid p c k d d' (dispose p c action notes tag b0) c.idempotency_key r keyed
        served in
    let c' = at_time now now_iso c in
    check-pass (has_permission "exceptions:approve" c.user) permission_denied d' _ permitted
    ∙ (with_review-pass d'
          (λ x. idempotent p c' d' (dispose p c' action notes tag x) c'.idempotency_key)
          (found c' d') b there
        ∙ replay p c k now now_iso d' (dispose p c' action notes tag b) c.idempotency_key r keyed
            valid stored soon)
