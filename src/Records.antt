-- ===== src/Records.antt =====
-- api/store.py: a child case (a row of `exceptions`) and the in-memory `ExceptionStore`, with the
-- lifecycle of contracts/models.py. The resolution data, the trace data, the original event and the
-- texts of a record are not kept. Ids and times are arguments of the calls that draw them.
pub mod Chain
use asoe.Prelude.{
  ℕ, zero, suc, ◌+◌, String, Bool, true, false, ◌&&◌, ◌||◌, not, Option, none, some, List, [], ◌∷◌,
  ◌++◌, map, str_eq, keep_if, length, count_if, is_some, if◌then◌else◌,
}
use asoe.Prelude.Dict.{Dict, lookup, insert}
use asoe.Pipeline.{
  TerminalStatus, complete, fail_to_human, manual_review_required, blocked, rejected,
  complete_with_children, audit_context_missing,
}

pub data LifecycleState : Type 0 where
  ingested classifying auditing pending_review escalated pending_admin_review pending_cosign
        resolved failed blocked_state rejected_state closed :
      LifecycleState

-- `STATUS_TO_LIFECYCLE.get(final_status or "", "INGESTED")`
abbrev pub status_to_lifecycle : Option TerminalStatus → LifecycleState
status_to_lifecycle none = ingested
status_to_lifecycle (some complete) = resolved
status_to_lifecycle (some fail_to_human) = failed
status_to_lifecycle (some manual_review_required) = pending_review
status_to_lifecycle (some blocked) = blocked_state
status_to_lifecycle (some rejected) = rejected_state
status_to_lifecycle (some complete_with_children) = resolved
status_to_lifecycle (some audit_context_missing) = failed

pub record ChildCase : Type 0 where
  pub id : String
  pub tenant_id : String
  pub order_id : String
  pub event_type : String
  pub trace_id : String
  pub intent : Option String
  pub lifecycle_state : LifecycleState
  pub shadow_verdict : Option String
  pub final_status : Option TerminalStatus
  pub parent_case_id : Option String
  pub supergroup_code : Option String
  pub intent_code : Option String
  pub reanalysis_history : List String
  pub created_at : String
  pub updated_at : String

pub record ExceptionStore : Type 0 where
  pub records : Dict ChildCase

-- what the persistence path gives `create`
pub record NewRecord : Type 0 where
  pub tenant_id : String
  pub order_id : String
  pub event_type : String
  pub trace_id : String
  pub intent : Option String
  pub shadow_verdict : Option String
  pub final_status : Option TerminalStatus
  pub parent_case_id : Option String
  pub supergroup_code : Option String
  pub intent_code : Option String

abbrev pub new_child : (id now : String) → NewRecord → ChildCase
new_child id now n = record {
  id = id;
  tenant_id = n.tenant_id;
  order_id = n.order_id;
  event_type = n.event_type;
  trace_id = n.trace_id;
  intent = n.intent;
  lifecycle_state = status_to_lifecycle n.final_status;
  shadow_verdict = n.shadow_verdict;
  final_status = n.final_status;
  parent_case_id = n.parent_case_id;
  supergroup_code = n.supergroup_code;
  intent_code = n.intent_code;
  reanalysis_history = [];
  created_at = now;
  updated_at = now;
}

unfoldable pub create : (id now : String) → NewRecord → ExceptionStore → ChildCase × ExceptionStore
create id now n s =
    (new_child id now n, record s { records = insert id (new_child id now n) s.records })

abbrev pub of_tenant : String → Option ChildCase → Option ChildCase
of_tenant tenant none = none
of_tenant tenant (some r) = if str_eq r.tenant_id tenant then some r else none

unfoldable pub get : String → String → ExceptionStore → Option ChildCase
get id tenant s = of_tenant tenant (lookup id s.records)

-- `self._records.values()`
abbrev pub values : ExceptionStore → List ChildCase
values s = map (λ e. e.1) s.records

abbrev pub is_child_of : String → ChildCase → Bool
is_child_of case_id r = elim r.parent_case_id [ none ↦ false | some p ↦ str_eq p case_id ]

unfoldable pub list_by_case : String → String → ExceptionStore → List ChildCase
list_by_case tenant case_id s =
    keep_if (λ r. str_eq r.tenant_id tenant && is_child_of case_id r) (values s)

unfoldable pub list_orphans : String → ExceptionStore → List ChildCase
list_orphans tenant s =
    keep_if (λ r. str_eq r.tenant_id tenant && not (is_some r.parent_case_id)) (values s)

unfoldable pub append_reanalysis :
    (id tenant now entry : String) → ExceptionStore → Option ChildCase × ExceptionStore
unfolding get
append_reanalysis id tenant now entry s = elim (get id tenant s) [
  | none ↦ (none, s)
  | some r ↦
      let r' = record r {
        reanalysis_history = r.reanalysis_history ++ (entry ∷ []);
        updated_at = now;
      } in
      (some r', record s { records = insert id r' s.records })
]

pub data StatClass : Type 0 where
  open_class auto_resolved_class manual_review_class blocked_class failed_class no_class : StatClass

-- the chain of tests in `stats`
abbrev pub stat_class : LifecycleState → StatClass
stat_class ingested = open_class
stat_class classifying = open_class
stat_class auditing = open_class
stat_class resolved = auto_resolved_class
stat_class pending_review = manual_review_class
stat_class blocked_state = blocked_class
stat_class failed = failed_class
stat_class _ = no_class
