-- ===== src/Outbox/Drain.antt =====
-- Repeated runs of the reconciler of orchestration/outbox.py, and the queue that they leave.
use asoe.Prelude.{
  ℕ, zero, suc, ◌≤◌, ◌<◌, ◌≡◌, ◌∙◌, refl, sym, String, true, Option, [], ◌∷◌, arith, All,
}
use asoe.Gateway.{GatewayRequest, GatewayStatus}
use asoe.Outbox.{
  OutboxEntry, Ledger, is_pending, pending, Report, empty_report, judge, reconcile_pending,
}
use asoe.Outbox.Sweep.{
  settle_entry, DiffersFrom, HasDistinctIds, visit, sweep, reconcile_pending-sweep,
}

-- what a pass number `n` leaves: a pending entry has been tried at each of the passes, and has
-- tries left
abbrev HasTriesLeft : Option String → (limit n : ℕ) → OutboxEntry → Type 0
HasTriesLeft tenant limit zero e = Unit
HasTriesLeft tenant limit (suc n) e =
    is_pending tenant e ≡ true → (suc n ≤ e.attempts) × (e.attempts < limit)

All-HasTriesLeft :
    (tenant : Option String) (limit : ℕ) (l : Ledger) → All (HasTriesLeft tenant limit 0) l
All-HasTriesLeft tenant limit [] = tt
All-HasTriesLeft tenant limit (e ∷ l) = (tt, All-HasTriesLeft tenant limit l)

pending-none :
    (tenant : Option String) (limit n : ℕ)
    → limit ≤ suc n
    → (l : Ledger) → All (HasTriesLeft tenant limit (suc n)) l
    → pending tenant l ≡ []
unfolding pending
pending-none tenant limit n enough [] h = refl
pending-none tenant limit n enough (e ∷ l) (h, hs) =
    ground (arith, h, pending-none tenant limit n enough l hs)

module _ {X : Type 0} (executor : GatewayRequest → X → X × Option GatewayStatus)
    (clock : X → String) where
  visit-HasTriesLeft :
      (tenant : Option String) (limit n : ℕ) (e : OutboxEntry) (r : Report) (x : X)
      → HasTriesLeft tenant limit n e
      → HasTriesLeft tenant limit (suc n) (visit executor clock tenant limit e r x).0
  unfolding visit judge settle_entry
  visit-HasTriesLeft tenant limit zero e r x h = λ w. ground arith
  visit-HasTriesLeft tenant limit (suc n) e r x h = λ w. ground (arith, h)

  sweep-HasTriesLeft :
      (tenant : Option String) (limit n : ℕ) (l : Ledger) (r : Report) (x : X)
      → All (HasTriesLeft tenant limit n) l
      → All (HasTriesLeft tenant limit (suc n)) (sweep executor clock tenant limit l r x).0
  unfolding sweep
  sweep-HasTriesLeft tenant limit n [] r x h = h
  sweep-HasTriesLeft tenant limit n (e ∷ l) r x (h, hs) =
      (visit-HasTriesLeft tenant limit n e r x h, sweep-HasTriesLeft tenant limit n l _ _ hs)

  visit-id :
      (tenant : Option String) (limit : ℕ) (e : OutboxEntry) (r : Report) (x : X)
      → (visit executor clock tenant limit e r x).0.id ≡ e.id
  unfolding visit settle_entry judge
  visit-id tenant limit e r x = ground arith

  sweep-DiffersFrom :
      (tenant : Option String) (limit : ℕ) (d : OutboxEntry) (l : Ledger) (r : Report) (x : X)
      → All (DiffersFrom d) l
      → All (DiffersFrom d) (sweep executor clock tenant limit l r x).0
  unfolding sweep
  sweep-DiffersFrom tenant limit d [] r x h = h
  sweep-DiffersFrom tenant limit d (e ∷ l) r x (h, hs) =
      (λ same. h (same ∙ visit-id tenant limit e r x), sweep-DiffersFrom tenant limit d l _ _ hs)

  All-DiffersFrom-visit :
      (tenant : Option String) (limit : ℕ) (e : OutboxEntry) (r : Report) (x : X) (l : Ledger)
      → All (DiffersFrom e) l
      → All (DiffersFrom (visit executor clock tenant limit e r x).0) l
  All-DiffersFrom-visit tenant limit e r x [] h = h
  All-DiffersFrom-visit tenant limit e r x (d ∷ l) (h, hs) = (
    λ same. h (sym (visit-id tenant limit e r x) ∙ same),
    All-DiffersFrom-visit tenant limit e r x l hs,
  )

  sweep-HasDistinctIds :
      (tenant : Option String) (limit : ℕ) (l : Ledger) (r : Report) (x : X)
      → HasDistinctIds l
      → HasDistinctIds (sweep executor clock tenant limit l r x).0
  unfolding sweep
  sweep-HasDistinctIds tenant limit [] r x h = h
  sweep-HasDistinctIds tenant limit (e ∷ l) r x (h, hs) = (
    All-DiffersFrom-visit tenant limit e r x _ (sweep-DiffersFrom tenant limit e l _ _ h),
    sweep-HasDistinctIds tenant limit l _ _ hs,
  )

  -- what `n` runs of the reconciler, one after the other, leave of the ledger
  unfoldable pub passes : ℕ → Option String → (limit : ℕ) → Ledger → X → Ledger × X
  unfolding reconcile_pending
  passes zero tenant limit l x = (l, x)
  passes (suc n) tenant limit l x =
      let (l', x') = passes n tenant limit l x in
      let (l'', r, x'') = reconcile_pending executor clock tenant limit l' x' in (l'', x'')

  passes-HasTriesLeft :
      (n : ℕ) (tenant : Option String) (limit : ℕ) (l : Ledger) (x : X)
      → HasDistinctIds l
      → let l' = (passes n tenant limit l x).0 in
        All (HasTriesLeft tenant limit n) l' × HasDistinctIds l'
  unfolding passes
  passes-HasTriesLeft zero tenant limit l x h = (All-HasTriesLeft tenant limit l, h)
  passes-HasTriesLeft (suc n) tenant limit l x h =
      let (l', x') = passes n tenant limit l x in
      let (tries, distinct) = passes-HasTriesLeft n tenant limit l x h in
      rw (passes, reconcile_pending-sweep executor clock tenant limit l' x' distinct)
        (
          sweep-HasTriesLeft tenant limit n l' empty_report x' tries,
          sweep-HasDistinctIds tenant limit l' empty_report x' distinct,
        )

  -- Where ids are distinct, as many runs of the reconciler as it allows attempts, and at least
  -- one, leave no entry waiting: each is compensated or escalated, whatever the gateways answer.
  pub passes-drain :
      (n : ℕ) (tenant : Option String) (limit : ℕ) (l : Ledger) (x : X)
      → HasDistinctIds l
      → limit ≤ suc n
      → pending tenant (passes (suc n) tenant limit l x).0 ≡ []
  passes-drain n tenant limit l x distinct enough =
      pending-none tenant limit n enough (passes (suc n) tenant limit l x).0
        (passes-HasTriesLeft (suc n) tenant limit l x distinct).0
