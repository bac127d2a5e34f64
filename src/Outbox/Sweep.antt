-- ===== src/Outbox/Sweep.antt =====
-- The reconciler of orchestration/outbox.py, which looks entries up by id, beside a specification that
-- is one pass over the ledger.
use asoe.Prelude.{
  ℕ, ◌+◌, ◌≡◌, ◌≢◌, ◌∙◌, refl, ap, String, Option, some, List, [], ◌∷◌, arith, eq_iff, eq_refl, All,
  if◌then◌else◌, Bool-cases, inl, inr,
}
use asoe.Gateway.{GatewayRequest, GatewayStatus}
use asoe.Outbox.{
  OutboxEntry, Ledger, raise_attempts, compensate, escalate, is_pending, pending, update, find,
  increment_attempts, mark_compensated, mark_escalated, Report, empty_report, retry_request,
  Verdict, repaired, given_up, kept, judge, count_verdict, settle, attempt, reconcile,
  reconcile_pending,
}

-- the entry that a verdict leaves
unfoldable pub settle_entry : Verdict → String → OutboxEntry → OutboxEntry
settle_entry repaired now e = compensate now (raise_attempts e)
settle_entry given_up now e = escalate (raise_attempts e)
settle_entry kept now e = raise_attempts e

abbrev pub DiffersFrom : OutboxEntry → OutboxEntry → Type 0
DiffersFrom d e = d.id ≢ e.id

abbrev pub HasDistinctIds : Ledger → Type 0
HasDistinctIds [] = Unit
HasDistinctIds (e ∷ l) = All (DiffersFrom e) l × HasDistinctIds l

update-head :
    (f : OutboxEntry → OutboxEntry) (e : OutboxEntry) (l : Ledger) → update e.id f (e ∷ l) ≡ f e ∷ l
unfolding update
update-head f e l = ground (arith, eq_refl e.id)

update-other :
    (id : String) (f : OutboxEntry → OutboxEntry) (d : OutboxEntry) (l : Ledger)
    → d.id ≢ id
    → update id f (d ∷ l) ≡ d ∷ update id f l
unfolding update
update-other id f d l h = ground (arith, eq_iff d.id id)

find-other : (id : String) (d : OutboxEntry) (l : Ledger) → d.id ≢ id → find id (d ∷ l) ≡ find id l
unfolding find
find-other id d l h = ground (arith, eq_iff d.id id)

find-head : (e : OutboxEntry) (l : Ledger) → find e.id (e ∷ l) ≡ some e
unfolding find
find-head e l = ground (arith, eq_refl e.id)

increment_attempts-head :
    (e : OutboxEntry) (l : Ledger)
    → increment_attempts e.id (e ∷ l) ≡ (raise_attempts e ∷ l, e.attempts + 1)
unfolding increment_attempts
increment_attempts-head e l = rw (update-head, find-head) refl

increment_attempts-other :
    (id : String) (d : OutboxEntry) (l : Ledger)
    → d.id ≢ id
    → increment_attempts id (d ∷ l) ≡ (d ∷ (increment_attempts id l).0, (increment_attempts id l).1)
unfolding increment_attempts
increment_attempts-other id d l h =
    rw (update-other id raise_attempts d l h, find-other id d l h) refl

settle-head :
    (v : Verdict) (now : String) (e : OutboxEntry) (l : Ledger)
    → settle v e.id now (raise_attempts e ∷ l) ≡ settle_entry v now e ∷ l
unfolding settle mark_compensated mark_escalated settle_entry
settle-head repaired now e l = update-head (compensate now) (raise_attempts e) l
settle-head given_up now e l = update-head escalate (raise_attempts e) l
settle-head kept now e l = refl

settle-other :
    (v : Verdict) (id now : String) (d : OutboxEntry) (l : Ledger)
    → d.id ≢ id
    → settle v id now (d ∷ l) ≡ d ∷ settle v id now l
unfolding settle mark_compensated mark_escalated
settle-other repaired id now d l h = update-other id (compensate now) d l h
settle-other given_up id now d l h = update-other id escalate d l h
settle-other kept id now d l h = refl

module _ {X : Type 0} (executor : GatewayRequest → X → X × Option GatewayStatus)
    (clock : X → String) where
  -- one entry on the pass
  unfoldable pub visit : Option String → ℕ → OutboxEntry → Report → X → OutboxEntry × Report × X
  visit tenant limit e r x =
      let (x', answer) = executor (retry_request e) x in
      let v = judge limit (e.attempts + 1) answer in
      if is_pending tenant e
      then (settle_entry v (clock x') e, count_verdict v r, x')
      else (e, r, x)

  -- the pass over the ledger
  unfoldable pub sweep : Option String → ℕ → Ledger → Report → X → Ledger × Report × X
  unfolding visit
  sweep tenant limit [] r x = ([], r, x)
  sweep tenant limit (e ∷ l) r x =
      let (e', r', x') = visit tenant limit e r x in
      let rest = sweep tenant limit l r' x' in (e' ∷ rest.0, rest.1, rest.2)

  attempt-other :
      (limit : ℕ) (e d : OutboxEntry) (l : Ledger) (r : Report) (x : X)
      → DiffersFrom d e
      → attempt executor clock limit e (d ∷ l) r x
        ≡ (let after = attempt executor clock limit e l r x in (d ∷ after.0, after.1, after.2))
  unfolding attempt
  attempt-other limit e d l r x h =
      let (x', answer) = executor (retry_request e) x in
      let v = λ (n : ℕ). judge limit n answer in
      ap (λ p. (settle (v p.1) e.id (clock x') p.0, count_verdict (v p.1) r, x'))
        (increment_attempts-other e.id d l h)
      ∙ ap (λ k. (k, count_verdict (v (increment_attempts e.id l).1) r, x'))
          (settle-other _ e.id (clock x') d (increment_attempts e.id l).0 h)

  attempt-head :
      (limit : ℕ) (e : OutboxEntry) (l : Ledger) (r : Report) (x : X)
      → attempt executor clock limit e (e ∷ l) r x ≡ (
          let (x', answer) = executor (retry_request e) x in
          let v = judge limit (e.attempts + 1) answer in
          (settle_entry v (clock x') e ∷ l, count_verdict v r, x'))
  unfolding attempt
  attempt-head limit e l r x =
      let (x', answer) = executor (retry_request e) x in
      let v = λ (n : ℕ). judge limit n answer in
      ap (λ p. (settle (v p.1) e.id (clock x') p.0, count_verdict (v p.1) r, x'))
        (increment_attempts-head e l)
      ∙ ap (λ k. (k, count_verdict (v (e.attempts + 1)) r, x')) (settle-head _ (clock x') e l)

  reconcile-other :
      (limit : ℕ) (queue : List OutboxEntry) (d : OutboxEntry) (l : Ledger) (r : Report) (x : X)
      → All (DiffersFrom d) queue
      → reconcile executor clock limit queue (d ∷ l) r x
        ≡ (let rest = reconcile executor clock limit queue l r x in (d ∷ rest.0, rest.1, rest.2))
  unfolding reconcile
  reconcile-other limit [] d l r x h = refl
  reconcile-other limit (e ∷ queue) d l r x (h, hs) =
      ap (λ s. reconcile executor clock limit queue s.0 s.1 s.2) (attempt-other limit e d l r x h)
      ∙ reconcile-other limit queue d _ _ _ hs

  All-pending :
      (tenant : Option String) (d : OutboxEntry) (l : Ledger)
      → All (DiffersFrom d) l
      → All (DiffersFrom d) (pending tenant l)
  unfolding pending
  All-pending tenant d [] h = h
  All-pending tenant d (e ∷ l) (h, hs) = elim (Bool-cases (is_pending tenant e)) [
    | inl waits ↦ rw (waits) (h, All-pending tenant d l hs)
    | inr rests ↦ rw (rests) (All-pending tenant d l hs)
  ]

  settle_entry-DiffersFrom :
      (v : Verdict) (now : String) (e : OutboxEntry) (l : Ledger)
      → All (DiffersFrom e) l
      → All (DiffersFrom (settle_entry v now e)) l
  unfolding settle_entry
  settle_entry-DiffersFrom repaired now e l h = h
  settle_entry-DiffersFrom given_up now e l h = h
  settle_entry-DiffersFrom kept now e l h = h

  reconcile-sweep :
      (tenant : Option String) (limit : ℕ) (l : Ledger) (r : Report) (x : X)
      → HasDistinctIds l
      → reconcile executor clock limit (pending tenant l) l r x ≡ sweep tenant limit l r x
  unfolding sweep reconcile pending visit
  reconcile-sweep tenant limit [] r x h = refl
  reconcile-sweep tenant limit (e ∷ l) r x (h, hs) = elim (Bool-cases (is_pending tenant e)) [
    | inl waits ↦ rw (waits) (
        let (x', answer) = executor (retry_request e) x in
        let visited = settle_entry (judge limit (e.attempts + 1) answer) (clock x') e in
        ap (λ s. reconcile executor clock limit (pending tenant l) s.0 s.1 s.2)
          (attempt-head limit e l r x)
        ∙ reconcile-other limit (pending tenant l) _ l _ _
            (settle_entry-DiffersFrom _ _ e (pending tenant l) (All-pending tenant e l h))
        ∙ ap (λ s. (visited ∷ s.0, s.1, s.2)) (reconcile-sweep tenant limit l _ _ hs))
    | inr rests ↦ rw (rests) (
        reconcile-other limit (pending tenant l) e l r x (All-pending tenant e l h)
        ∙ ap (λ s. (e ∷ s.0, s.1, s.2)) (reconcile-sweep tenant limit l r x hs))
  ]

  -- With distinct ids, the reconciler that looks entries up by id is one pass over the ledger:
  -- each pending entry is retried once, in order, and settled where it stands, and every other
  -- entry is left as it is.
  pub reconcile_pending-sweep :
      (tenant : Option String) (limit : ℕ) (l : Ledger) (x : X)
      → HasDistinctIds l
      → reconcile_pending executor clock tenant limit l x ≡ sweep tenant limit l empty_report x
  unfolding reconcile_pending
  reconcile_pending-sweep tenant limit l x h = reconcile-sweep tenant limit l empty_report x h
