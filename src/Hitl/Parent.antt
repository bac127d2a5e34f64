-- ===== src/Hitl/Parent.antt =====
-- api/routes/exceptions.py and api/case_resolver.py: the parent case of a record that is escalated.
use asoe.Prelude.{
  ◌≤◌, ◌≡◌, refl, sym, ap, ◌∙◌, inl, inr, String, Bool, true, false, ◌&&◌, Option, none, some, List,
  [], ◌∷◌, ◌++◌, map, All, keep_if, str_eq, eq_refl, is_some, arith, Bool-cases, Option-cases,
  if◌then◌else◌, subst,
}
use asoe.Prelude.Dict.{Dict, lookup, insert}
use asoe.Prelude.Results.{Result, ok, err}
use asoe.Records.{ChildCase, escalated, is_child_of, values, list_by_case}
use asoe.Cases.{CaseStatus, OrderCase}
use asoe.Cases.Resolver.{
  case_status_rank, case_status_from_lifecycle, max_of, candidates_of, aggregate_case_status,
}
use asoe.Cases.Rollup.{max_of-le}
use asoe.Cases.Status.{HasStatus, recompute_case_status-HasStatus}
use asoe.Cases.{StoreError}
use asoe.Cases.Resolver.{Rollup}
use asoe.Hitl.{
  Reviewed, Call, Desk, PolicyKey, exception_escalated, HitlPort, invalid_state, permission_denied,
}
use asoe.Hitl.Serving.{
  children, keep_reply, after_roll_up, with_roll_up, written, conclude, reaggregate_parent_case,
  found, with_review, idempotent,
}
use asoe.Hitl.Actions.{with_escalation, escalate_exception}
use asoe.Hitl.Kept.{of_review_tenant-own}
use asoe.Hitl.Retry.{check-ok}

-- the children that the records under review are
abbrev children_of : Dict Reviewed → List ChildCase
children_of d = values (record { records = map (λ (e : String × Reviewed). (e.0, e.1.child)) d })

module _ (P : ChildCase → Type 0) (test : ChildCase → Bool) where
  -- what holds of all that pass a test holds of one that is put among them and passes
  All-put :
      (id : String) (r : Reviewed) (d : Dict Reviewed)
      → test r.child ≡ true
      → All P (keep_if test (children_of (insert id r d)))
      → P r.child
  All-put id r [] passes h = (rw passes at h).0
  All-put id r ((j, b) ∷ d) passes h = elim (Bool-cases (str_eq j id)) [
    | inl hit ↦ (rw (hit, passes) at h).0
    | inr miss ↦ All-put id r d passes (later (test b.child) (rw miss at h))
  ]
    where
      later :
          (t : Bool)
          → All P (
              if t
              then b.child ∷ keep_if test (children_of (insert id r d))
              else keep_if test (children_of (insert id r d)))
          → All P (keep_if test (children_of (insert id r d)))
      later true k = k.1
      later false k = k

All-map-append :
    (Q : CaseStatus → Type 0) (f : ChildCase → CaseStatus) (xs : List ChildCase)
    (ys : List CaseStatus)
    → All Q (map f xs ++ ys)
    → All (λ x. Q (f x)) xs
All-map-append Q f [] ys h = tt
All-map-append Q f (x ∷ xs) ys h = (h.0, All-map-append Q f xs ys h.1)

max_of-none : (cs : List CaseStatus) → max_of cs ≡ none → All (λ c. ⊥) cs
unfolding max_of
max_of-none [] h = tt
max_of-none (c ∷ cs) h = absurd (ground (arith, h))

highest : (m : CaseStatus) → 3 ≤ case_status_rank m → m ≡ CaseStatus.open_awaiting_human
highest m h = ground (arith, h)

aggregate-escalated :
    (tenant case_id id : String) (r : Reviewed) (d : Desk) (reviews : Dict Reviewed)
    → d.reviews ≡ insert id r reviews
    → (str_eq r.child.tenant_id tenant && is_child_of case_id r.child) ≡ true
    → r.child.lifecycle_state ≡ escalated
    → aggregate_case_status tenant case_id none (children d) ≡ some CaseStatus.open_awaiting_human
unfolding aggregate_case_status list_by_case
aggregate-escalated tenant case_id id r d reviews put passes now_escalated =
    elim (Option-cases (max_of (candidates_of tenant case_id none (children d)))) [
      | inl missing ↦ absurd (
          member (λ x. ⊥)
            (All-map-append (λ c. ⊥) of_child (list_by_case tenant case_id (children d)) []
              (max_of-none _ missing)))
      | inr (m, found_max) ↦
          found_max
          ∙ ap some (
              highest m (
                subst (λ l. case_status_rank (case_status_from_lifecycle l) ≤ case_status_rank m)
                  now_escalated
                  (member (λ x. case_status_rank (of_child x) ≤ case_status_rank m)
                    (All-map-append (λ c. case_status_rank c ≤ case_status_rank m) of_child
                      (list_by_case tenant case_id (children d)) [] (max_of-le _ m found_max)))))
    ]
  where
    of_child : ChildCase → CaseStatus
    of_child x = case_status_from_lifecycle x.lifecycle_state

    member : (P : ChildCase → Type 0) → All P (list_by_case tenant case_id (children d)) → P r.child
    member P h =
        All-put P (λ x. str_eq x.tenant_id tenant && is_child_of case_id x) id r reviews passes
          (subst
            (λ l.
              All P
                (keep_if (λ x. str_eq x.tenant_id tenant && is_child_of case_id x) (children_of l)))
            put h)

keep_reply-cases :
    (c : Call) (r : Reviewed) (key : Option String) (d : Desk)
    → (keep_reply c r key d).cases ≡ d.cases
unfolding keep_reply
keep_reply-cases c r none d = refl
keep_reply-cases c r (some k) d = refl

after_roll_up-ok :
    (c : Call) (r r' : Reviewed) (d d' : Desk) (o : Result StoreError Desk)
    → after_roll_up c r d o ≡ (ok r', d')
    → (d1 : Desk) × ((o ≡ ok d1) × (d'.cases ≡ d1.cases))
after_roll_up-ok c r r' d d' (err e) h = absurd (ground (arith, ap (λ x. x.0) h))
after_roll_up-ok c r r' d d' (ok d1) h =
    (d1, (refl, ap (λ x. x.1.cases) (sym h) ∙ keep_reply-cases c r c.idempotency_key d1))

with_roll_up-ok :
    (d d' : Desk) (o : Result StoreError Rollup)
    → with_roll_up d o ≡ ok d'
    → (x : Rollup) × ((o ≡ ok x) × (d'.cases ≡ x.store))
with_roll_up-ok d d' (err e) h = absurd (ground (arith, h))
with_roll_up-ok d d' (ok x) h = (x, (refl, ground (arith, h)))

-- a handler that escalates a record leaves its parent case, unless it is parked, awaiting a human
conclude-HasStatus :
    (c : Call) (key : PolicyKey) (r0 r r' : Reviewed) (reason case_id : String) (d d' : Desk)
    (b : OrderCase)
    → conclude c key r0 r reason d ≡ (ok r', d')
    → r.child.parent_case_id ≡ some case_id
    → str_eq r.child.tenant_id c.tenant_id ≡ true
    → r.child.lifecycle_state ≡ escalated
    → lookup case_id d.cases.cases ≡ some b
    → is_some b.pending_override ≡ false
    → HasStatus case_id CaseStatus.open_awaiting_human d'.cases
unfolding conclude written reaggregate_parent_case
conclude-HasStatus c key r0 r r' reason case_id d d' b e parent own now_escalated there free =
    let d1 = written c key r0 r reason d in
    let (d2, (rolled, same)) = after_roll_up-ok c r r' d1 d' _ e in
    let (x, (computed, stored)) =
      with_roll_up-ok d1 d2 _ (rw (parent, reaggregate_parent_case) at rolled) in
    let child : is_child_of case_id r.child ≡ true = rw parent (eq_refl case_id) in
    let agg =
      aggregate-escalated c.tenant_id case_id c.exception_id r d1 d.reviews refl
        (rw (own, child) refl) now_escalated in
    rw (same, stored)
      (recompute_case_status-HasStatus c.tenant_id case_id c.now_iso none true (children d1)
        d1.cases x b CaseStatus.open_awaiting_human computed there free agg)

-- An escalation without an idempotency key that succeeds, of a record of a case that is in the store and is
-- not parked, leaves that case OPEN_AWAITING_HUMAN, whatever its other children are.
pub escalate_exception-HasStatus :
    (p : HitlPort) (c : Call) (reason : String) (to_role : Option String) (d d' : Desk)
    (r0 r : Reviewed) (case_id : String) (b : OrderCase)
    → c.idempotency_key ≡ none
    → found c d ≡ some r0
    → r0.child.parent_case_id ≡ some case_id
    → lookup case_id d.cases.cases ≡ some b
    → is_some b.pending_override ≡ false
    → escalate_exception p c reason to_role d ≡ (ok r, d')
    → HasStatus case_id CaseStatus.open_awaiting_human d'.cases
unfolding escalate_exception idempotent found
escalate_exception-HasStatus p c reason to_role d d' r0 r case_id b keyless there parent stored free
      e =
    let (permitted, reviewed) = check-ok _ permission_denied d d' _ r e in
    let served = rw (there, with_review) at reviewed in
    let (eligible, handled) = check-ok _ invalid_state d d' _ r served in
    conclude-HasStatus c exception_escalated r0 (with_escalation p c reason to_role r0) r reason
      case_id d d' b (rw (keyless, idempotent) at handled) parent
      (of_review_tenant-own c.tenant_id _ r0 there) refl stored free
