-- ===== src/Cases.antt =====
-- contracts/models.py and api/store.py: the parent case of an order, its correlation keys, and the
-- audit trail of its classifications, in the in-memory `CaseStore`. Ids and times come from `uuid4()`
-- and the clock, so each call that draws them takes them as arguments. Of the fields that
-- `CaseStore.update` may be given, those that the code gives it are kept.
pub mod Update
pub mod Sound
mod Invariant
pub mod Steps
pub mod Correlate
pub mod Recurrence
pub mod Resolver
pub mod Rollup
pub mod Status
pub mod Fixtures
mod Examples
use asoe.Prelude.{
  ℕ, String, Bool, true, false, ◌&&◌, not, Option, none, some, List, [], ◌∷◌, ◌++◌, str_eq, or_else,
  is_some, if◌then◌else◌, keep_if,
}
use asoe.Prelude.Assoc.{get_key, put_key}
use asoe.Prelude.Dict.{Dict, lookup, insert}
use asoe.Prelude.Results.{Result, ok, err}

pub data CaseStatus : Type 0 where
  open_agent_processing open_awaiting_human open_awaiting_buyer open_awaiting_erp resolved failed
        blocked :
      CaseStatus

pub data ClassifierType : Type 0 where
  human model rule : ClassifierType

pub record ClassificationEvent : Type 0 where
  pub case_id : String
  pub child_case_id : Option String
  pub supergroup_code : String
  pub intent_code : Option String
  pub classified_by : String
  pub classifier_type : ClassifierType
  pub reason_text : Option String

pub record CasePendingOverride : Type 0 where
  pub initiator : String
  pub initiated_at : String
  pub pending_action : String
  pub aggregate_financial_impact_usd : ℕ
  pub child_exception_ids : List String

-- the identifiers of an event that tie it to a case
pub record CorrelationKeys : Type 0 where
  pub sales_order_id : Option String
  pub customer_po_number : Option String
  pub edi_transaction_id : Option String
  pub source_email_id : Option String

pub record OrderCase : Type 0 where
  pub case_id : String
  pub tenant_id : String
  pub customer_id : Option String
  pub origin : String
  pub source_channel : String
  pub supergroup_code : Option String
  pub keys : CorrelationKeys
  pub opened_at : String
  pub closed_at : Option String
  pub updated_at : String
  pub status : CaseStatus
  pub sla_deadline : Option String
  pub tier : ℕ
  pub working_memory_summary : Option String
  pub last_compaction_at : Option String
  pub bundle_version_at_open : Option String
  pub pending_override : Option CasePendingOverride

pub data KeyType : Type 0 where
  sales_order customer_po edi_transaction source_email : KeyType

abbrev pub same_type : KeyType → KeyType → Bool
same_type sales_order sales_order = true
same_type customer_po customer_po = true
same_type edi_transaction edi_transaction = true
same_type source_email source_email = true
same_type _ _ = false

pub record CorrelationKey : Type 0 where
  pub tenant_id : String
  pub key_type : KeyType
  pub key_value : String

abbrev pub same_key : CorrelationKey → CorrelationKey → Bool
same_key j k =
    str_eq j.tenant_id k.tenant_id
    && same_type j.key_type k.key_type
    && str_eq j.key_value k.key_value

pub record CaseStore : Type 0 where
  pub cases : Dict OrderCase
  pub correlation : List (CorrelationKey × String)
  pub history : Dict (List ClassificationEvent)

pub data StoreError : Type 0 where
  unknown_case unattributed needs_triage_close_blocked already_pending : StoreError

-- the keys in the order of their priority
abbrev pub priority : CorrelationKeys → List (KeyType × Option String)
priority k =
    (sales_order, k.sales_order_id)
    ∷ (customer_po, k.customer_po_number)
    ∷ (edi_transaction, k.edi_transaction_id)
    ∷ (source_email, k.source_email_id)
    ∷ []

-- `if not key_value: continue`
abbrev pub given : Option String → Option String
given none = none
given (some v) = if str_eq v "" then none else some v

abbrev pub case_at :
    String → KeyType → Option String → List (CorrelationKey × String) → Option String
case_at tenant t none d = none
case_at tenant t (some v) d =
    get_key same_key (record { tenant_id = tenant; key_type = t; key_value = v }) d

abbrev pub first_of {ℓ} : {A : Type ℓ} → Option A → Option A → Option A
first_of none b = b
first_of (some a) b = some a

-- the case id of the first key that is known
unfoldable pub first_match :
    String → List (KeyType × Option String) → List (CorrelationKey × String) → Option String
first_match tenant [] d = none
first_match tenant ((t, v) ∷ ks) d =
    first_of (case_at tenant t (given v) d) (first_match tenant ks d)

abbrev pub case_of : CaseStore → Option String → Option OrderCase
case_of s none = none
case_of s (some id) = lookup id s.cases

unfoldable pub find_by_correlation : String → CorrelationKeys → CaseStore → Option OrderCase
unfolding first_match
find_by_correlation tenant keys s = case_of s (first_match tenant (priority keys) s.correlation)

abbrev pub register :
    String
    → String
    → KeyType
    → Option String
    → List (CorrelationKey × String)
    → List (CorrelationKey × String)
register tenant id t none d = d
register tenant id t (some v) d =
    put_key same_key (record { tenant_id = tenant; key_type = t; key_value = v }) id d

-- the loop of `_register_correlations_locked`
unfoldable pub register_correlations :
    String
    → String
    → List (KeyType × Option String)
    → List (CorrelationKey × String)
    → List (CorrelationKey × String)
register_correlations tenant id [] d = d
register_correlations tenant id ((t, v) ∷ ks) d =
    register_correlations tenant id ks (register tenant id t (given v) d)

-- `self._history.setdefault(case_id, []).append(event)`
unfoldable pub record_classification_locked : ClassificationEvent → CaseStore → CaseStore
record_classification_locked e s = record s {
  history = insert e.case_id (or_else (lookup e.case_id s.history) [] ++ (e ∷ [])) s.history;
}

pub record Intake : Type 0 where
  pub tenant_id : String
  pub origin : String
  pub source_channel : String
  pub customer_id : Option String
  pub keys : CorrelationKeys
  pub sla_deadline : Option String
  pub bundle_version_at_open : Option String
  pub supergroup_code : Option String
  pub intent_code : Option String
  pub classified_by : String
  pub classifier_type : ClassifierType

abbrev pub new_case : (id now : String) → Intake → OrderCase
new_case id now i = record {
  case_id = id;
  tenant_id = i.tenant_id;
  customer_id = i.customer_id;
  origin = i.origin;
  source_channel = i.source_channel;
  supergroup_code = i.supergroup_code;
  keys = i.keys;
  opened_at = now;
  closed_at = none;
  updated_at = now;
  status = open_agent_processing;
  sla_deadline = i.sla_deadline;
  tier = 2;
  working_memory_summary = none;
  last_compaction_at = none;
  bundle_version_at_open = i.bundle_version_at_open;
  pending_override = none;
}

-- the first classification of a new case, where it has one
unfoldable pub log_intake : String → Intake → Option String → CaseStore → CaseStore
unfolding record_classification_locked
log_intake id i none s = s
log_intake id i (some sg) s =
    record_classification_locked
      (record {
        case_id = id;
        child_case_id = none;
        supergroup_code = sg;
        intent_code = i.intent_code;
        classified_by = i.classified_by;
        classifier_type = i.classifier_type;
        reason_text = none;
      })
      s

unfoldable pub open_case : (id now : String) → Intake → CaseStore → CaseStore
unfolding register_correlations log_intake
open_case id now i s = log_intake id i i.supergroup_code (record s {
  cases = insert id (new_case id now i) s.cases;
  correlation = register_correlations i.tenant_id id (priority i.keys) s.correlation;
})

unfoldable pub attach : OrderCase → Intake → CaseStore → CaseStore
unfolding register_correlations
attach c i s = record s {
  correlation = register_correlations i.tenant_id c.case_id (priority i.keys) s.correlation;
}

-- the case, whether it was opened now, and the store; `existing` is what `find_by_correlation` found
unfoldable pub open_or_attach :
    (id now : String) → Intake → CaseStore → Option OrderCase → (OrderCase × Bool) × CaseStore
unfolding open_case attach
open_or_attach id now i s none = ((new_case id now i, true), open_case id now i s)
open_or_attach id now i s (some c) = ((c, false), attach c i s)

unfoldable pub lookup_or_create :
    (id now : String) → Intake → CaseStore → (OrderCase × Bool) × CaseStore
unfolding find_by_correlation open_or_attach
lookup_or_create id now i s = open_or_attach id now i s (find_by_correlation i.tenant_id i.keys s)
