-- ===== src/Cases/Status.antt =====
-- api/case_resolver.py: the status of a case after its roll-up.
use asoe.Prelude.{
  ◌≡◌, refl, sym, inl, inr, String, Bool, true, false, Option, some, arith, Bool-cases, eq_refl,
  is_some,
}
use asoe.Prelude.Dict.{lookup, lookup-insert}
use asoe.Prelude.Results.{ok}
use asoe.Pipeline.{TerminalStatus}
use asoe.Records.{ExceptionStore}
use asoe.Cases.{CaseStatus, OrderCase, CaseStore}
use asoe.Cases.Update.{copied, commit, trail_of, update_at, update, put_case}
use asoe.Cases.Resolver.{
  same_status, aggregate_case_status, rolled_up, Rollup, roll_up_to, recompute_found,
  recompute_case_status,
}

same_status-eq : (a b : CaseStatus) → same_status a b ≡ true → a ≡ b
same_status-eq a b h = ground (arith, h)

-- the stored case has a status
abbrev pub HasStatus : String → CaseStatus → CaseStore → Type 0
HasStatus case_id m s = (c : OrderCase) × ((lookup case_id s.cases ≡ some c) × (c.status ≡ m))

roll_up_to-HasStatus :
    (case_id now : String) (emit : Bool) (c : OrderCase) (s : CaseStore) (m : CaseStatus)
    (r : Rollup)
    → lookup case_id s.cases ≡ some c
    → roll_up_to case_id now emit c s (some m) ≡ ok r
    → HasStatus case_id m r.store
unfolding roll_up_to update update_at commit trail_of
roll_up_to-HasStatus case_id now emit c s m r found e = elim (Bool-cases (same_status m c.status)) [
  | inl same ↦
      let stored : r.store ≡ s = ground (arith, e, same) in
      (c, (rw stored found, sym (same_status-eq m c.status same)))
  | inr other ↦
      let w = copied now (rolled_up now m c) c in
      let stored : r.store ≡ put_case case_id w s = ground (arith, e, other, found) in
      (w, (rw stored (rw (lookup-insert case_id case_id w s.cases, eq_refl case_id) refl), refl))
]

-- After a roll-up that succeeds, a case that is not parked has the status that its children add up to.
pub recompute_case_status-HasStatus :
    (tenant case_id now : String) (incoming : Option (Option TerminalStatus)) (emit : Bool)
    (xs : ExceptionStore) (s : CaseStore) (r : Rollup) (c : OrderCase) (m : CaseStatus)
    → recompute_case_status tenant case_id now incoming emit xs s ≡ ok r
    → lookup case_id s.cases ≡ some c
    → is_some c.pending_override ≡ false
    → aggregate_case_status tenant case_id incoming xs ≡ some m
    → HasStatus case_id m r.store
unfolding recompute_case_status recompute_found
recompute_case_status-HasStatus tenant case_id now incoming emit xs s r c m e found free agg =
    roll_up_to-HasStatus case_id now emit c s m r found
      (rw (found, recompute_found, free, agg) at e)
