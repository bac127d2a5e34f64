-- ===== src/Hitl/FourEyes.antt =====
-- api/routes/exceptions.py: the second reviewer of a high-value override, over any sequence of requests.
use asoe.Prelude.{
  ◌≡◌, sym, inl, inr, subst, String, Option, none, some, List, [], ◌∷◌, str_eq, Bool-cases, arith,
  All,
}
use asoe.Prelude.Dict.{All-insert, All-lookup}
use asoe.Hitl.{Reviewed, Call, Desk, Outcome, HitlPort}
use asoe.Hitl.Serving.{of_review_tenant, found}
use asoe.Hitl.Actions.{Request, handle, handle_all}
use asoe.Hitl.Steps.{IsFourEyed, KeepsFourEyes, handle-IsStep}
use asoe.Hitl.Audited.{IsStep, unchanged, changed}

abbrev pub AreFourEyed : Desk → Type 0
AreFourEyed d = All (λ e. IsFourEyed e.1) d.reviews

of_review_tenant-some :
    (tenant : String) (o : Option Reviewed) (r : Reviewed)
    → of_review_tenant tenant o ≡ some r
    → o ≡ some r
of_review_tenant-some tenant none r h = h
of_review_tenant-some tenant (some b) r h = elim (Bool-cases (str_eq b.child.tenant_id tenant)) [
  | inl own ↦ rw own at h
  | inr foreign ↦ absurd (ground (arith, foreign, h))
]

found-IsFourEyed :
    (c : Call) (d : Desk) (r : Reviewed) → AreFourEyed d → found c d ≡ some r → IsFourEyed r
unfolding found
found-IsFourEyed c d r h e =
    All-lookup (λ x. IsFourEyed x.1) c.exception_id r d.reviews h
      (of_review_tenant-some c.tenant_id _ r e)

step-AreFourEyed :
    (c : Call) (d : Desk) (o : Outcome)
    → IsStep KeepsFourEyes c d o
    → AreFourEyed d
    → AreFourEyed o.1
step-AreFourEyed c d o (unchanged (same, log)) h =
    subst (λ l. All (λ x. IsFourEyed x.1) l) (sym same) h
step-AreFourEyed c d o (changed (r, r', n, (there, (reviews, (log, (noted, keeps)))))) h =
    subst (λ l. All (λ x. IsFourEyed x.1) l) (sym reviews)
      (All-insert (λ x. IsFourEyed x.1) c.exception_id r' d.reviews
        (keeps (found-IsFourEyed c d r h there)) h)

-- Whatever requests are served, of any users and in any order: where a record of high value is resolved
-- with an action other than NO_ACTION and other than the recommended one, a second reviewer, who is not
-- the one that proposed it, has signed for it; given that this was so at the start. A rejection, which
-- resolves with NO_ACTION, is outside it: one reviewer may reject alone, whatever was recommended.
pub handle_all-AreFourEyed :
    (p : HitlPort) (qs : List (Call × Request)) (d : Desk)
    → AreFourEyed d
    → AreFourEyed (handle_all p qs d)
unfolding handle_all
handle_all-AreFourEyed p [] d h = h
handle_all-AreFourEyed p ((c, q) ∷ qs) d h =
    handle_all-AreFourEyed p qs (handle p c q d).1
      (step-AreFourEyed c d (handle p c q d) (handle-IsStep p c d q) h)
