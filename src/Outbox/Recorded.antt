-- ===== src/Outbox/Recorded.antt =====
-- What recording an effect, and one run of the reconciler, do to the queue of compensations of
-- orchestration/outbox.py.
use asoe.Prelude.{
  ℕ, suc, length, ◌+◌, ◌≡◌, ◌∙◌, refl, ap, String, Bool, Option, some, List, [], ◌∷◌, ◌++◌, arith,
  keep_if, if◌then◌else◌, eq_refl,
}
use asoe.Gateway.{GatewayRequest, GatewayStatus}
use asoe.Outbox.{
  OutboxEntry, Ledger, EffectOutcome, is_success, new_entry, is_pending, record_effect, pending,
  Report, empty_report, Verdict, repaired, given_up, kept, count_verdict, judge, retry_request,
  increment_attempts, attempt, reconcile, reconcile_pending,
}

keep_if-append {ℓ} :
    {A : Type ℓ} (test : A → Bool) (xs ys : List A)
    → keep_if test (xs ++ ys) ≡ keep_if test xs ++ keep_if test ys
keep_if-append test [] ys = refl
keep_if-append test (x ∷ xs) ys = ground (arith, keep_if-append test xs ys)

queued :
    (id now : String) (o : EffectOutcome)
    → pending (some o.tenant_id) (new_entry id now o ∷ [])
      ≡ (if is_success o.status then [] else new_entry id now o ∷ [])
unfolding pending new_entry
queued id now o = ground (arith, eq_refl o.tenant_id)

-- A recorded effect joins the end of the queue of its tenant exactly when its status is not
-- SUCCESS, and every entry that was in the queue stays there, in its order.
pub record_effect-pending :
    (id now : String) (o : EffectOutcome) (l : Ledger)
    → pending (some o.tenant_id) (record_effect id now o l)
      ≡ pending (some o.tenant_id) l
        ++ (if is_success o.status then [] else new_entry id now o ∷ [])
unfolding pending record_effect new_entry
record_effect-pending id now o l =
    keep_if-append (is_pending (some o.tenant_id)) l (new_entry id now o ∷ [])
    ∙ ap (λ x. pending (some o.tenant_id) l ++ x) (queued id now o)

retried-suc : (v : Verdict) (r : Report) → (count_verdict v r).retried ≡ suc r.retried
unfolding count_verdict
retried-suc repaired r = omega arith
retried-suc given_up r = omega arith
retried-suc kept r = omega arith

totals :
    (v : Verdict) (r : Report)
    → r.retried ≡ r.compensated + r.escalated + r.still_pending
    → let r' = count_verdict v r in r'.retried ≡ r'.compensated + r'.escalated + r'.still_pending
unfolding count_verdict
totals repaired r h = omega (arith, h)
totals given_up r h = omega (arith, h)
totals kept r h = omega (arith, h)

module _ {X : Type 0} (executor : GatewayRequest → X → X × Option GatewayStatus)
    (clock : X → String) where
  reconcile-totals :
      (limit : ℕ) (queue : List OutboxEntry) (l : Ledger) (r : Report) (x : X)
      → r.retried ≡ r.compensated + r.escalated + r.still_pending
      → let r' = (reconcile executor clock limit queue l r x).1 in
        (r'.retried ≡ r.retried + length queue)
        × (r'.retried ≡ r'.compensated + r'.escalated + r'.still_pending)
  unfolding reconcile attempt count_verdict
  reconcile-totals limit [] l r x h = (omega arith, h)
  reconcile-totals limit (e ∷ queue) l r x h =
      let (l', r', x') = attempt executor clock limit e l r x in
      let (x'', answer) = executor (retry_request e) x in
      let v = judge limit (increment_attempts e.id l).1 answer in
      let (all, split) = reconcile-totals limit queue l' r' x' (totals v r h) in
      (omega (arith, all, retried-suc v r), split)

  -- The reconciler retries every entry of the queue, once, and its report counts each of them as
  -- compensated, as escalated or as still pending.
  pub reconcile_pending-totals :
      (tenant : Option String) (limit : ℕ) (l : Ledger) (x : X)
      → let r = (reconcile_pending executor clock tenant limit l x).1 in
        (r.retried ≡ length (pending tenant l))
        × (r.retried ≡ r.compensated + r.escalated + r.still_pending)
  unfolding reconcile_pending
  reconcile_pending-totals tenant limit l x =
      let (all, split) = reconcile-totals limit (pending tenant l) l empty_report x refl in
      (omega (arith, all), split)
