-- ===== src/Cases/Update.antt =====
-- api/store.py: the calls of the in-memory `CaseStore` that change a case or its trail.
use asoe.Prelude.{
  ℕ, String, Bool, true, false, ◌&&◌, not, Option, none, some, List, [], str_eq, or_else, is_some,
  if◌then◌else◌, keep_if,
}
use asoe.Prelude.Dict.{lookup, insert}
use asoe.Prelude.Results.{Result, ok, err, ◌>>=◌}
use asoe.Cases.{
  CaseStatus, resolved, open_awaiting_human, ClassifierType, ClassificationEvent,
  CasePendingOverride, OrderCase, KeyType, CaseStore, StoreError, unknown_case, unattributed,
  needs_triage_close_blocked, already_pending, first_of, register, record_classification_locked,
}

-- the new value of a field, or the old one where the call does not give it
abbrev pub updated {ℓ} : {A : Type ℓ} → Option A → A → A
updated none a = a
updated (some b) a = b

pub record CaseFields : Type 0 where
  pub status : Option CaseStatus
  pub supergroup_code : Option (Option String)
  pub closed_at : Option (Option String)
  pub tier : Option ℕ
  pub working_memory_summary : Option String
  pub last_compaction_at : Option String

abbrev pub no_fields : CaseFields
no_fields = record {
  status = none;
  supergroup_code = none;
  closed_at = none;
  tier = none;
  working_memory_summary = none;
  last_compaction_at = none;
}

-- who classified, and how
pub record Attribution : Type 0 where
  pub classified_by : Option String
  pub classifier_type : Option ClassifierType
  pub intent_code_classification : Option String
  pub reason_text : Option String

abbrev pub same_code : Option String → Option String → Bool
same_code none none = true
same_code (some a) (some b) = str_eq a b
same_code _ _ = false

abbrev pub is_resolved_like : CaseStatus → Bool
is_resolved_like resolved = true
is_resolved_like _ = false

abbrev pub is_needs_triage : Option String → Bool
is_needs_triage none = false
is_needs_triage (some sg) = str_eq sg "SG_NEEDS_TRIAGE"

-- a case that must not be, since it is closed without a classification
abbrev pub is_closed_untriaged : OrderCase → Bool
is_closed_untriaged c = is_resolved_like c.status && is_needs_triage c.supergroup_code

-- `existing.model_copy(update=fields)`
abbrev pub copied : String → CaseFields → OrderCase → OrderCase
copied now f c = record c {
  status = updated f.status c.status;
  supergroup_code = updated f.supergroup_code c.supergroup_code;
  closed_at = updated f.closed_at c.closed_at;
  tier = updated f.tier c.tier;
  working_memory_summary = first_of f.working_memory_summary c.working_memory_summary;
  last_compaction_at = first_of f.last_compaction_at c.last_compaction_at;
  updated_at = now;
}

-- what a reclassification adds to the trail, with its `assert`s as the guards before it
unfoldable pub log_reclassified :
    String → Option String → Attribution → String → ClassifierType → CaseStore → CaseStore
unfolding record_classification_locked
log_reclassified id sg a by type s =
    record_classification_locked
      (record {
        case_id = id;
        child_case_id = none;
        supergroup_code = or_else sg "";
        intent_code = a.intent_code_classification;
        classified_by = by;
        classifier_type = type;
        reason_text = a.reason_text;
      })
      s

-- `if not classified_by or not classifier_type`
abbrev pub attributed : Attribution → Option (String × ClassifierType)
attributed a = elim a.classified_by [
  | none ↦ none
  | some by ↦ elim a.classifier_type [
    | none ↦ none
    | some type ↦ if str_eq by "" then none else some (by, type)
  ]
]

abbrev pub is_reclassified : CaseFields → OrderCase → Bool
is_reclassified f c = elim f.supergroup_code [
  | none ↦ false
  | some sg ↦ not (same_code sg c.supergroup_code)
]

abbrev pub put_case : String → OrderCase → CaseStore → CaseStore
put_case id c s = record s { cases = insert id c s.cases }

-- the trail of a reclassification by whoever it is attributed to
unfoldable pub trail_by :
    String
    → OrderCase
    → Attribution
    → Option (String × ClassifierType)
    → Option (CaseStore → CaseStore)
unfolding log_reclassified
trail_by id c a none = none
trail_by id c a (some (by, type)) = some (log_reclassified id c.supergroup_code a by type)

-- the trail of an update: `none` where a reclassification is not attributed
unfoldable pub trail_of :
    String → OrderCase → Attribution → (reclassified : Bool) → Option (CaseStore → CaseStore)
unfolding trail_by
trail_of id c a false = some (λ s. s)
trail_of id c a true = trail_by id c a (attributed a)

-- the guards of an update and its writes
unfoldable pub commit :
    String
    → OrderCase
    → CaseStore
    → Option (CaseStore → CaseStore)
    → Result StoreError (OrderCase × CaseStore)
commit id c s none = err unattributed
commit id c s (some log) =
    if is_closed_untriaged c then err needs_triage_close_blocked else ok (c, log (put_case id c s))

unfoldable pub update_at :
    String
    → String
    → Attribution
    → CaseFields
    → CaseStore
    → Option OrderCase
    → Result StoreError (OrderCase × CaseStore)
unfolding commit trail_of
update_at id now a f s none = err unknown_case
update_at id now a f s (some c) =
    commit id (copied now f c) s (trail_of id (copied now f c) a (is_reclassified f c))

unfoldable pub update :
    String
    → String
    → Attribution
    → CaseFields
    → CaseStore
    → Result StoreError (OrderCase × CaseStore)
unfolding update_at
update id now a f s = update_at id now a f s (lookup id s.cases)

unfoldable pub register_correlation :
    String → String → KeyType → String → CaseStore → Result StoreError CaseStore
register_correlation tenant id t v s =
    if is_some (lookup id s.cases)
    then ok (record s { correlation = register tenant id t (some v) s.correlation })
    else err unknown_case

unfoldable pub record_classification : ClassificationEvent → CaseStore → Result StoreError CaseStore
unfolding record_classification_locked
record_classification e s =
    if is_some (lookup e.case_id s.cases)
    then ok (record_classification_locked e s)
    else err unknown_case

unfoldable pub get_classification_history : String → CaseStore → List ClassificationEvent
get_classification_history id s = or_else (lookup id s.history) []

-- `model_copy` of a case that is there
unfoldable pub rewrite_at :
    String
    → (OrderCase → Result StoreError OrderCase)
    → CaseStore
    → Option OrderCase
    → Result StoreError (OrderCase × CaseStore)
rewrite_at id change s none = err unknown_case
rewrite_at id change s (some c) = change c >>= λ c'. ok (c', put_case id c' s)

abbrev pub with_override : String → CasePendingOverride → OrderCase → Result StoreError OrderCase
with_override now o c =
    if is_some c.pending_override
    then err already_pending
    else ok (record c { pending_override = some o; status = open_awaiting_human; updated_at = now })

abbrev pub without_override : String → OrderCase → Result StoreError OrderCase
without_override now c = ok (record c { pending_override = none; updated_at = now })

unfoldable pub set_pending_override :
    String → String → CasePendingOverride → CaseStore → Result StoreError (OrderCase × CaseStore)
unfolding rewrite_at
set_pending_override id now o s = rewrite_at id (with_override now o) s (lookup id s.cases)

unfoldable pub clear_pending_override :
    String → String → CaseStore → Result StoreError (OrderCase × CaseStore)
unfolding rewrite_at
clear_pending_override id now s = rewrite_at id (without_override now) s (lookup id s.cases)

unfoldable pub delete : String → CaseStore → CaseStore
delete id s = record s {
  cases = keep_if (λ e. not (str_eq e.0 id)) s.cases;
  correlation = keep_if (λ e. not (str_eq e.1 id)) s.correlation;
}
