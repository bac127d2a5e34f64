-- ===== src/Cases/Rollup.antt =====
-- api/case_resolver.py: what the roll-up of a case's status says of its children.
use asoe.Prelude.{
  ◌≤◌, ◌≡◌, refl, sym, ap, ◌∙◌, inl, inr, String, Bool, true, false, Option, none, some, List, [],
  ◌∷◌, ◌++◌, map, ltb, is_some, All, arith, Bool-cases, if◌then◌else◌, eq_refl,
}
use asoe.Prelude.Dict.{lookup, lookup-insert}
use asoe.Prelude.Results.{ok}
use asoe.Pipeline.{TerminalStatus}
use asoe.Records.{
  LifecycleState, resolved, closed, rejected_state, ChildCase, ExceptionStore, list_by_case,
}
use asoe.Cases.{CaseStatus, OrderCase, CaseStore}
use asoe.Cases.Update.{copied, commit, trail_of, update_at, update, put_case, updated}
use asoe.Cases.Resolver.{
  case_status_rank, case_status_from_lifecycle, max_status, max_of, incoming_candidate,
  candidates_of, aggregate_case_status, is_terminal, closing, rolled_up, Rollup, roll_up_to,
  recompute_found, recompute_case_status,
}

-- the states in which a child owes no decision, and did not fail
abbrev pub settled_states : LifecycleState → Bool
settled_states resolved = true
settled_states closed = true
settled_states rejected_state = true
settled_states _ = false

abbrev pub IsSettled : ChildCase → Type 0
IsSettled r = settled_states r.lifecycle_state ≡ true

max_status-le :
    (best m : CaseStatus) (cs : List CaseStatus)
    → max_status best cs ≡ m
    → (case_status_rank best ≤ case_status_rank m)
      × All (λ c. case_status_rank c ≤ case_status_rank m) cs
unfolding max_status
max_status-le best m [] h = (rw h (omega arith), tt)
max_status-le best m (c ∷ cs) h =
    let (above, rest) =
      max_status-le (if ltb (case_status_rank best) (case_status_rank c) then c else best) m cs h in
    (ground (arith, above), (ground (arith, above), rest))

pub max_of-le :
    (cs : List CaseStatus) (m : CaseStatus)
    → max_of cs ≡ some m
    → All (λ c. case_status_rank c ≤ case_status_rank m) cs
unfolding max_of
max_of-le [] m h = tt
max_of-le (c ∷ cs) m h =
    let same : max_status c cs ≡ m = cc in let le = max_status-le c m cs same in (le.0, le.1)

rank-settled :
    (l : LifecycleState)
    → case_status_rank (case_status_from_lifecycle l) ≤ 0
    → settled_states l ≡ true
rank-settled l h = ground (arith, h)

All-IsSettled :
    (rs : List ChildCase) (cs : List CaseStatus)
    → All
        (λ c. case_status_rank c ≤ 0)
        (map (λ r. case_status_from_lifecycle r.lifecycle_state) rs ++ cs)
    → All IsSettled rs
All-IsSettled [] cs h = tt
All-IsSettled (r ∷ rs) cs h = (rank-settled r.lifecycle_state h.0, All-IsSettled rs cs h.1)

-- The roll-up says RESOLVED only where every child of the case is settled.
aggregate-IsSettled :
    (tenant case_id : String) (incoming : Option (Option TerminalStatus)) (xs : ExceptionStore)
    → aggregate_case_status tenant case_id incoming xs ≡ some CaseStatus.resolved
    → All IsSettled (list_by_case tenant case_id xs)
unfolding aggregate_case_status
aggregate-IsSettled tenant case_id incoming xs h =
    All-IsSettled (list_by_case tenant case_id xs) (incoming_candidate incoming)
      (max_of-le (candidates_of tenant case_id incoming xs) CaseStatus.resolved h)

closing-terminal :
    (now : String) (new : CaseStatus) (at : Option String)
    → is_terminal new ≡ is_some (updated (closing now new at) at)
closing-terminal now new none = ground arith
closing-terminal now new (some at) = ground arith

-- the case that a roll-up writes
abbrev written : String → CaseStatus → OrderCase → OrderCase
written now new c = copied now (rolled_up now new c) c

roll_up_to-changed :
    (case_id now : String) (emit : Bool) (c c' : OrderCase) (s : CaseStore) (new : CaseStatus)
    (r : Rollup)
    → lookup case_id s.cases ≡ some c
    → roll_up_to case_id now emit c s (some new) ≡ ok r
    → r.changed ≡ true
    → r.case ≡ some c'
    → (c' ≡ written now new c) × (r.store ≡ put_case case_id (written now new c) s)
unfolding roll_up_to update update_at commit trail_of
roll_up_to-changed case_id now emit c c' s new r found e changed at =
    (ground (arith, e, changed, at, found), ground (arith, e, changed, at, found))

roll_up_to-none :
    (case_id now : String) (emit : Bool) (c : OrderCase) (s : CaseStore) (r : Rollup)
    → roll_up_to case_id now emit c s none ≡ ok r
    → r.changed ≡ false
unfolding roll_up_to
roll_up_to-none case_id now emit c s r e = ground (arith, e)

-- A roll-up that changes the status of a case writes the case that it returns, gives it a closing time
-- exactly where its new status is terminal, and says RESOLVED only where every child of the case is
-- settled.
pub recompute_case_status-closes :
    (tenant case_id now : String) (incoming : Option (Option TerminalStatus)) (emit : Bool)
    (xs : ExceptionStore) (s : CaseStore) (r : Rollup) (c : OrderCase)
    → recompute_case_status tenant case_id now incoming emit xs s ≡ ok r
    → r.changed ≡ true
    → r.case ≡ some c
    → (lookup case_id r.store.cases ≡ some c)
      × (is_terminal c.status ≡ is_some c.closed_at)
      × (c.status ≡ CaseStatus.resolved → All IsSettled (list_by_case tenant case_id xs))
unfolding recompute_case_status recompute_found
recompute_case_status-closes tenant case_id now incoming emit xs s r c e changed at =
    found_one (lookup case_id s.cases) refl e
  where
    rolled_one :
        (b : OrderCase) (new : Option CaseStatus)
        → lookup case_id s.cases ≡ some b
        → aggregate_case_status tenant case_id incoming xs ≡ new
        → roll_up_to case_id now emit b s new ≡ ok r
        → (lookup case_id r.store.cases ≡ some c)
          × (is_terminal c.status ≡ is_some c.closed_at)
          × (c.status ≡ CaseStatus.resolved → All IsSettled (list_by_case tenant case_id xs))
    rolled_one b none found agg f =
        absurd (ground (arith, roll_up_to-none case_id now emit b s r f, changed))
    rolled_one b (some new) found agg f =
        let (same, stored) = roll_up_to-changed case_id now emit b c s new r found f changed at in
        (
          rw (stored, same)
              (rw (lookup-insert case_id case_id (written now new b) s.cases, eq_refl case_id)
                refl),
          rw same (closing-terminal now new b.closed_at),
          λ is_resolved.
              aggregate-IsSettled tenant case_id incoming xs
                (agg ∙ ap some (sym (ap (λ x. x.status) same) ∙ is_resolved)),
        )

    found_one :
        (o : Option OrderCase)
        → lookup case_id s.cases ≡ o
        → recompute_found tenant case_id now incoming emit xs s o ≡ ok r
        → (lookup case_id r.store.cases ≡ some c)
          × (is_terminal c.status ≡ is_some c.closed_at)
          × (c.status ≡ CaseStatus.resolved → All IsSettled (list_by_case tenant case_id xs))
    found_one none found f = absurd (ground (arith, f, changed))
    found_one (some b) found f = elim (Bool-cases (is_some b.pending_override)) [
      | inl parked ↦ absurd (ground (arith, rw parked at f, changed))
      | inr free ↦
          rolled_one b (aggregate_case_status tenant case_id incoming xs) found refl (rw free at f)
    ]
