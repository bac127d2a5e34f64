-- ===== src/Cases/Examples.antt =====
-- The case store and the roll-up at concrete events.
use asoe.Prelude.{
  String, List, inl, inr, eq_iff, ◌≡◌, refl, true, false, some, none, [], ◌∷◌, is_some, All,
}
use asoe.Prelude.Dict.{lookup}
use asoe.Prelude.Results.{ok}
use asoe.Records.{ExceptionStore, list_by_case, new_child}
use asoe.Pipeline.{complete}
use asoe.Cases.{Intake, find_by_correlation, CaseStatus, OrderCase, CaseStore, lookup_or_create}
use asoe.Cases.Update.{update, update_at, commit, trail_of}
use asoe.Cases.Sound.{IsSound}
use asoe.Cases.Steps.{here, next, resolved_event, Reach-IsSound}
use asoe.Cases.Recurrence.{resolve_all, AllSpare, lookup_or_create_again}
use asoe.Cases.Resolver.{
  Rollup, case_close, recompute_case_status, recompute_found, roll_up_to, aggregate_case_status,
  max_of, max_status, is_terminal,
}
use asoe.Cases.Rollup.{IsSettled, recompute_case_status-closes}
use asoe.Cases.Fixtures.{po_keys, no_cases, po_intake, po_case}

no_cases-IsSound : IsSound no_cases
no_cases-IsSound = record { linked = tt; named = tt; triaged = tt }

abbrev one_case : CaseStore
one_case = (lookup_or_create "case-1" "2026-01-01" po_intake no_cases).1

Reach-IsSound_example : IsSound one_case
Reach-IsSound_example =
    Reach-IsSound no_cases-IsSound (next here (resolved_event "case-1" "2026-01-01" po_intake refl))

-- an event of another order, an event that names the first order and a sales order, and one that names
-- the sales order alone
abbrev other_order : Intake
other_order = record po_intake { keys = record po_keys { customer_po_number = some "PO-2" } }

abbrev both_orders : Intake
both_orders = record po_intake { keys = record po_keys { sales_order_id = some "SO-1" } }

abbrev sales_order_only : Intake
sales_order_only = record po_intake {
  keys = record po_keys { sales_order_id = some "SO-1"; customer_po_number = none };
}

abbrev between : List (String × String × Intake)
between =
    ("case-2", "2026-01-02", other_order)
    ∷ ("case-3", "2026-01-03", both_orders)
    ∷ ("case-4", "2026-01-04", sales_order_only)
    ∷ []

lookup_or_create_again_example :
    (lookup_or_create "case-5" "2026-01-05" po_intake (resolve_all between one_case)).0
    ≡ ((lookup_or_create "case-1" "2026-01-01" po_intake no_cases).0.0, false)
unfolding lookup_or_create
lookup_or_create_again_example =
    lookup_or_create_again "case-1" "2026-01-01" "case-5" "2026-01-05" po_intake between no_cases
      no_cases-IsSound refl spared
  where
    spared : AllSpare po_intake po_case between one_case
    spared =
        unfold AllSpare in
        unfold find_by_correlation in
        (inr (refl, λ e. cc ((eq_iff "case-2" "case-1").1 e)), (inl refl, (inl refl, tt)))

-- The sales order was first known to another case: the event that names both orders moves the first
-- order's key there, so that the first event then leads there too.
keys_move :
    (lookup_or_create "case-5" "2026-01-05" po_intake (
      resolve_all
        (("case-2", "2026-01-02", sales_order_only) ∷ ("case-3", "2026-01-03", both_orders) ∷ [])
        one_case)).0.0.case_id
    ≡ "case-2"
unfolding lookup_or_create resolve_all
keys_move = refl

abbrev held_case : CaseStore
held_case = record no_cases { cases = ("case-1", po_case) ∷ [] }

abbrev settled_child : ExceptionStore
settled_child = record {
  records =
      (
        "record-1",
        new_child "record-1" "2026-01-01" (record {
          tenant_id = "acme";
          order_id = "PO-1";
          event_type = "EDI_850_PRICE_MISMATCH";
          trace_id = "trace-1";
          intent = none;
          shadow_verdict = none;
          final_status = some complete;
          parent_case_id = some "case-1";
          supergroup_code = none;
          intent_code = none;
        }),
      )
      ∷ [];
}

abbrev closed_case : OrderCase
closed_case = record po_case {
  status = CaseStatus.resolved;
  closed_at = some "2026-01-02";
  updated_at = "2026-01-02";
}

abbrev closed_rollup : Rollup
closed_rollup = record {
  case = some closed_case;
  changed = true;
  store = record no_cases { cases = ("case-1", closed_case) ∷ [] };
  published = case_close closed_case ∷ [];
}

recompute_runs :
    recompute_case_status "acme" "case-1" "2026-01-02" none true settled_child held_case
    ≡ ok closed_rollup
unfolding recompute_case_status recompute_found roll_up_to aggregate_case_status max_of max_status
    list_by_case update update_at commit trail_of
recompute_runs = refl

recompute_case_status-closes_example :
    (lookup "case-1" closed_rollup.store.cases ≡ some closed_case)
    × (is_terminal closed_case.status ≡ is_some closed_case.closed_at)
    × (closed_case.status ≡ CaseStatus.resolved
        → All IsSettled (list_by_case "acme" "case-1" settled_child))
recompute_case_status-closes_example =
    recompute_case_status-closes "acme" "case-1" "2026-01-02" none true settled_child held_case
      closed_rollup closed_case recompute_runs refl refl
