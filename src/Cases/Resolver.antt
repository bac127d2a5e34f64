-- ===== src/Cases/Resolver.antt =====
-- api/case_resolver.py: the roll-up of a case's status from its child records, and the entry of the
-- persistence path. The taxonomy (contracts/taxonomy.py), the classifier of customer emails and
-- `str.upper` are arguments. The published events are returned in their order; the identifiers in an
-- event's metadata are texts.
use asoe.Prelude.{
  ℕ, String, Bool, true, false, ◌||◌, not, Option, none, some, List, [], ◌∷◌, ◌++◌, map, ltb,
  str_eq, is_some, or_else, if◌then◌else◌,
}
use asoe.Prelude.Dict.{lookup}
use asoe.Prelude.Results.{Result, ok, ◌>>=◌}
use asoe.Value.{str}
use asoe.Pipeline.{OrderEvent, TerminalStatus}
use asoe.Records.{
  LifecycleState, resolved, closed, rejected_state, blocked_state, failed, status_to_lifecycle,
  ExceptionStore, list_by_case,
}
use asoe.Cases.{
  CaseStatus, ClassifierType, model, rule, OrderCase, CaseStore, StoreError, Intake,
  lookup_or_create, given, first_of,
}
use asoe.Cases.Update.{CaseFields, no_fields, Attribution, update}

abbrev pub case_status_rank : CaseStatus → ℕ
case_status_rank CaseStatus.open_awaiting_human = 3
case_status_rank CaseStatus.blocked = 2
case_status_rank CaseStatus.failed = 1
case_status_rank _ = 0

abbrev pub case_status_from_lifecycle : LifecycleState → CaseStatus
case_status_from_lifecycle resolved = CaseStatus.resolved
case_status_from_lifecycle closed = CaseStatus.resolved
case_status_from_lifecycle rejected_state = CaseStatus.resolved
case_status_from_lifecycle blocked_state = CaseStatus.blocked
case_status_from_lifecycle failed = CaseStatus.failed
case_status_from_lifecycle _ = CaseStatus.open_awaiting_human

-- `max(candidates, key=...)`: the first of those with the highest rank
unfoldable pub max_status : CaseStatus → List CaseStatus → CaseStatus
max_status best [] = best
max_status best (c ∷ cs) =
    max_status (if ltb (case_status_rank best) (case_status_rank c) then c else best) cs

-- the incoming record, where there is one: its terminal status may be absent
abbrev pub incoming_candidate : Option (Option TerminalStatus) → List CaseStatus
incoming_candidate none = []
incoming_candidate (some t) = case_status_from_lifecycle (status_to_lifecycle t) ∷ []

abbrev pub candidates_of :
    String → String → Option (Option TerminalStatus) → ExceptionStore → List CaseStatus
candidates_of tenant case_id incoming xs =
    map (λ r. case_status_from_lifecycle r.lifecycle_state) (list_by_case tenant case_id xs)
    ++ incoming_candidate incoming

unfoldable pub max_of : List CaseStatus → Option CaseStatus
unfolding max_status
max_of [] = none
max_of (c ∷ cs) = some (max_status c cs)

unfoldable pub aggregate_case_status :
    String → String → Option (Option TerminalStatus) → ExceptionStore → Option CaseStatus
unfolding max_of list_by_case
aggregate_case_status tenant case_id incoming xs = max_of (candidates_of tenant case_id incoming xs)

-- `is_terminal_status`
abbrev pub is_terminal : CaseStatus → Bool
is_terminal CaseStatus.resolved = true
is_terminal CaseStatus.failed = true
is_terminal CaseStatus.blocked = true
is_terminal _ = false

abbrev pub same_status : CaseStatus → CaseStatus → Bool
same_status CaseStatus.open_agent_processing CaseStatus.open_agent_processing = true
same_status CaseStatus.open_awaiting_human CaseStatus.open_awaiting_human = true
same_status CaseStatus.open_awaiting_buyer CaseStatus.open_awaiting_buyer = true
same_status CaseStatus.open_awaiting_erp CaseStatus.open_awaiting_erp = true
same_status CaseStatus.resolved CaseStatus.resolved = true
same_status CaseStatus.failed CaseStatus.failed = true
same_status CaseStatus.blocked CaseStatus.blocked = true
same_status _ _ = false

pub data WsEvent : Type 0 where
  case_open case_close case_update case_summary_changed : OrderCase → WsEvent

-- the new `closed_at`, where the roll-up writes it
abbrev pub closing : String → CaseStatus → Option String → Option (Option String)
closing now new none = if is_terminal new then some (some now) else none
closing now new (some at) = if is_terminal new then none else some none

abbrev pub rolled_up : String → CaseStatus → OrderCase → CaseFields
rolled_up now new c = record no_fields {
  status = some new;
  closed_at = closing now new c.closed_at;
}

abbrev pub unattributed_update : Attribution
unattributed_update = record {
  classified_by = none;
  classifier_type = none;
  intent_code_classification = none;
  reason_text = none;
}

abbrev pub closing_event : Bool → OrderCase → List WsEvent
closing_event emit c =
    if emit then (if is_terminal c.status then case_close c else case_update c) ∷ [] else []

-- the case, whether its status changed, the store, and what is published
pub record Rollup : Type 0 where
  pub case : Option OrderCase
  pub changed : Bool
  pub store : CaseStore
  pub published : List WsEvent

abbrev pub untouched : Option OrderCase → CaseStore → Rollup
untouched c s = record { case = c; changed = false; store = s; published = [] }

unfoldable pub roll_up_to :
    (case_id now : String)
    → Bool
    → OrderCase
    → CaseStore
    → Option CaseStatus
    → Result StoreError Rollup
unfolding update
roll_up_to case_id now emit c s none = ok (untouched (some c) s)
roll_up_to case_id now emit c s (some new) =
    let written = update case_id now unattributed_update (rolled_up now new c) s >>= λ (c', s').
    ok (record { case = some c'; changed = true; store = s'; published = closing_event emit c' }) in
    if same_status new c.status then ok (untouched (some c) s) else written

unfoldable pub recompute_found :
    (tenant case_id now : String)
    → Option (Option TerminalStatus)
    → Bool
    → ExceptionStore
    → CaseStore
    → Option OrderCase
    → Result StoreError Rollup
unfolding roll_up_to aggregate_case_status
recompute_found tenant case_id now incoming emit xs s none = ok (untouched none s)
recompute_found tenant case_id now incoming emit xs s (some c) =
    let rolled =
      roll_up_to case_id now emit c s (aggregate_case_status tenant case_id incoming xs) in
    if is_some c.pending_override then ok (untouched (some c) s) else rolled

unfoldable pub recompute_case_status :
    (tenant case_id now : String)
    → Option (Option TerminalStatus)
    → (emit : Bool) → ExceptionStore
    → CaseStore
    → Result StoreError Rollup
unfolding recompute_found
recompute_case_status tenant case_id now incoming emit xs s =
    recompute_found tenant case_id now incoming emit xs s (lookup case_id s.cases)

-- what the resolver calls: the governed taxonomy, the classifier of customer emails, `str.upper`
pub record Taxonomy : Type 0 where
  pub supergroup_for_intent : Option String → Option String
  pub intent_code_for : String → String
  pub classify_email_supergroup : OrderEvent → String → Option String
  pub upper : String → String

abbrev pub text_at : String → OrderEvent → Option String
text_at k e = elim (lookup k e.metadata) [ some (str t) ↦ some t | _ ↦ none ]

abbrev pub is_manual_type : String → Bool
is_manual_type t =
    str_eq t "MANUAL_ORDER_INTAKE" || str_eq t "EMAIL_ORDER_ENTRY_REQUEST" || str_eq t "EMAIL_ORDER"

-- an explicit origin with its channel, or the one of the event's type
abbrev pub origin_or : Taxonomy → OrderEvent → Option String → Option String → String × String
origin_or v e (some origin) (some channel) = (origin, channel)
origin_or v e _ _ =
    if is_manual_type (v.upper e.event_type) then ("CUSTOMER", "email") else ("API", "edi_x12_850")

unfoldable pub derive_origin_and_channel : Taxonomy → OrderEvent → String × String
derive_origin_and_channel v e = origin_or v e (text_at "origin" e) (text_at "source_channel" e)

pub record CaseClass : Type 0 where
  pub supergroup_code : Option String
  pub intent_code : Option String
  pub classified_by : String
  pub classifier_type : ClassifierType

-- the classification by the taxonomy alone
abbrev pub rule_class : Taxonomy → Option String → CaseClass
rule_class v intent = record {
  supergroup_code = v.supergroup_for_intent intent;
  intent_code = elim (v.supergroup_for_intent intent) [
    | none ↦ none
    | some sg ↦ elim (given intent) [ none ↦ none | some i ↦ some (v.intent_code_for i) ]
  ];
  classified_by = "system:case_intake";
  classifier_type = rule;
}

-- a confident classification of a customer's email takes its place
abbrev pub email_class : Option String → CaseClass → CaseClass
email_class none c = c
email_class (some sg) c = if str_eq sg "SG_NEEDS_TRIAGE" then c else record {
  supergroup_code = some sg;
  intent_code = none;
  classified_by = "system:email_supergroup_classifier";
  classifier_type = model;
}

unfoldable pub classify_case :
    Taxonomy → (tenant origin : String) → OrderEvent → Option String → CaseClass
classify_case v tenant origin e intent =
    if str_eq origin "CUSTOMER"
    then email_class (v.classify_email_supergroup e tenant) (rule_class v intent)
    else rule_class v intent

unfoldable pub intake_of : Taxonomy → String → OrderEvent → Option String → Option String → Intake
unfolding derive_origin_and_channel classify_case
intake_of v tenant e bundle_version intent =
    let (origin, channel) = derive_origin_and_channel v e in
    let c = classify_case v tenant origin e intent in
    record {
      tenant_id = tenant;
      origin = origin;
      source_channel = channel;
      customer_id = e.retailer_id;
      keys = record {
        sales_order_id = text_at "sales_order_id" e;
        customer_po_number = first_of (given (text_at "customer_po_number" e)) (some e.order_id);
        edi_transaction_id = text_at "edi_transaction_id" e;
        source_email_id = text_at "source_email_id" e;
      };
      sla_deadline = none;
      bundle_version_at_open = bundle_version;
      supergroup_code = c.supergroup_code;
      intent_code = c.intent_code;
      classified_by = c.classified_by;
      classifier_type = c.classifier_type;
    }

unfoldable pub resolve_or_open_case :
    Taxonomy
    → (id now tenant : String) → OrderEvent
    → Option String
    → Option String
    → CaseStore
    → (OrderCase × Bool) × CaseStore
unfolding intake_of lookup_or_create
resolve_or_open_case v id now tenant e bundle_version intent s =
    lookup_or_create id now (intake_of v tenant e bundle_version intent) s

-- what is published once the case is rolled up
abbrev pub announce : Bool → OrderCase → Rollup → Rollup
announce opened_now c r =
    let c' = or_else r.case c in
    record r {
      case = some c';
      published =
          r.published
          ++ (if opened_now
              then case_open c' ∷ []
              else if r.changed
              then []
              else case_summary_changed c' ∷ []);
    }

unfoldable pub materialise_for_event :
    Taxonomy
    → (id now tenant : String) → OrderEvent
    → Option TerminalStatus
    → Option String
    → Option String
    → ExceptionStore
    → CaseStore
    → Result StoreError Rollup
unfolding resolve_or_open_case recompute_case_status
materialise_for_event v id now tenant e final_status bundle_version intent xs s =
    let ((c, opened_now), s') = resolve_or_open_case v id now tenant e bundle_version intent s in
    recompute_case_status tenant c.case_id now (some final_status) (not opened_now) xs s' >>= λ r.
    ok (announce opened_now c r)
