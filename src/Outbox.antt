-- ===== src/Outbox.antt =====
-- orchestration/outbox.py: the ledger of gateway effects, its queue of compensations and the
-- reconciler, over the in-memory backend. An entry's id (uuid4) and its times are given from
-- outside. The executor is the argument that the source takes: it acts on a world of any type,
-- and answers a status, or `none` where it raises.
pub mod Recorded
pub mod Sweep
pub mod Drain
mod Examples
use asoe.Prelude.{
  ℕ, suc, ◌+◌, String, Bool, true, false, not, ◌&&◌, Option, none, some, List, [], ◌∷◌, ◌++◌, leb,
  str_eq, keep_if, if◌then◌else◌, or_else,
}
use asoe.Prelude.Dict.{Dict}
use asoe.Value.{Value}
use asoe.Gateway.{GatewayRequest, GatewayStatus, GatewayError, success}

pub record OutboxEntry : Type 0 where
  pub id : String
  pub tenant_id : String
  pub trace_id : Option String
  pub recipe : Option String
  pub gateway : String
  pub operation : String
  pub status : GatewayStatus
  pub recipe_status : Option String
  pub committed : Bool
  pub needs_compensation : Bool
  pub error : Option GatewayError
  pub created_at : String
  pub params : Dict Value
  pub attempts : ℕ
  pub escalated : Bool
  pub compensated : Bool
  pub compensated_at : Option String

abbrev pub Ledger : Type 0
Ledger = List OutboxEntry

-- the arguments of `record_effect`
pub record EffectOutcome : Type 0 where
  pub tenant_id : String
  pub gateway : String
  pub operation : String
  pub status : GatewayStatus
  pub recipe : Option String
  pub recipe_status : Option String
  pub trace_id : Option String
  pub error : Option GatewayError
  pub params : Dict Value

-- `response.status == "SUCCESS"`
abbrev pub is_success : GatewayStatus → Bool
is_success success = true
is_success _ = false

unfoldable pub new_entry : (id now : String) → EffectOutcome → OutboxEntry
new_entry id now o = record {
  id = id;
  tenant_id = o.tenant_id;
  trace_id = o.trace_id;
  recipe = o.recipe;
  gateway = o.gateway;
  operation = o.operation;
  status = o.status;
  recipe_status = o.recipe_status;
  committed = is_success o.status;
  needs_compensation = not (is_success o.status);
  error = o.error;
  created_at = now;
  params = o.params;
  attempts = 0;
  escalated = false;
  compensated = false;
  compensated_at = none;
}

unfoldable pub record_effect : (id now : String) → EffectOutcome → Ledger → Ledger
unfolding new_entry
record_effect id now o l = l ++ new_entry id now o ∷ []

abbrev of_tenant : Option String → OutboxEntry → Bool
of_tenant none e = true
of_tenant (some t) e = str_eq e.tenant_id t

abbrev pub is_pending : Option String → OutboxEntry → Bool
is_pending tenant e =
    e.needs_compensation && (not e.compensated && (not e.escalated && of_tenant tenant e))

-- `_InMemoryBackend.pending`, which `pending_compensation` returns
unfoldable pub pending : Option String → Ledger → List OutboxEntry
pending tenant l = keep_if (is_pending tenant) l

-- `_InMemoryBackend.all`
unfoldable pub all_entries : Option String → Ledger → List OutboxEntry
all_entries tenant l = keep_if (of_tenant tenant) l

-- `_find`, and the write to what it found
unfoldable pub update : String → (OutboxEntry → OutboxEntry) → Ledger → Ledger
update id f [] = []
update id f (e ∷ l) = if str_eq e.id id then f e ∷ l else e ∷ update id f l

unfoldable pub find : String → Ledger → Option OutboxEntry
find id [] = none
find id (e ∷ l) = if str_eq e.id id then some e else find id l

abbrev pub raise_attempts : OutboxEntry → OutboxEntry
raise_attempts e = record e { attempts = e.attempts + 1 }

abbrev pub compensate : String → OutboxEntry → OutboxEntry
compensate now e = record e { compensated = true; compensated_at = some now }

abbrev pub escalate : OutboxEntry → OutboxEntry
escalate e = record e { escalated = true }

-- the new count of attempts, 0 where there is no such entry
abbrev attempts_of : Option OutboxEntry → ℕ
attempts_of none = 0
attempts_of (some e) = e.attempts + 1

unfoldable pub increment_attempts : String → Ledger → Ledger × ℕ
unfolding update find
increment_attempts id l = (update id raise_attempts l, attempts_of (find id l))

abbrev found : Option OutboxEntry → Bool
found none = false
found (some e) = true

unfoldable pub mark_compensated : (id now : String) → Ledger → Ledger × Bool
unfolding update find
mark_compensated id now l = (update id (compensate now) l, found (find id l))

unfoldable pub mark_escalated : String → Ledger → Ledger × Bool
unfolding update find
mark_escalated id l = (update id escalate l, found (find id l))

pub record Report : Type 0 where
  pub retried : ℕ
  pub compensated : ℕ
  pub escalated : ℕ
  pub still_pending : ℕ

abbrev pub empty_report : Report
empty_report = record { retried = 0; compensated = 0; escalated = 0; still_pending = 0 }

-- the request that repeats an entry's effect; 5000 is the default of `timeout_ms`
-- `entry.trace_id or …`: the empty text counts as none
abbrev text_or : Option String → String → String
text_or none d = d
text_or (some text) d = if str_eq text "" then d else text

unfoldable pub retry_request : OutboxEntry → GatewayRequest
retry_request e = record {
  gateway_name = e.gateway;
  operation = e.operation;
  params = e.params;
  trace_id = text_or e.trace_id "outbox-reconcile";
  timeout_ms = 5000;
}

-- the outcome of a retry, by its answer and the attempts made
pub data Verdict : Type 0 where
  repaired given_up kept : Verdict

unfoldable pub judge : (max_attempts attempts : ℕ) → Option GatewayStatus → Verdict
judge limit n none = if leb limit n then given_up else kept
judge limit n (some s) = if is_success s then repaired else if leb limit n then given_up else kept

unfoldable pub count_verdict : Verdict → Report → Report
count_verdict repaired r = record r { retried = r.retried + 1; compensated = r.compensated + 1 }
count_verdict given_up r = record r { retried = r.retried + 1; escalated = r.escalated + 1 }
count_verdict kept r = record r { retried = r.retried + 1; still_pending = r.still_pending + 1 }

unfoldable pub settle : Verdict → (id now : String) → Ledger → Ledger
unfolding mark_compensated mark_escalated
settle repaired id now l = (mark_compensated id now l).0
settle given_up id now l = (mark_escalated id l).0
settle kept id now l = l

module _ {X : Type 0} (executor : GatewayRequest → X → X × Option GatewayStatus)
    (clock : X → String) where
  -- one round of the loop of `reconcile_pending`
  unfoldable pub attempt : ℕ → OutboxEntry → Ledger → Report → X → Ledger × Report × X
  unfolding increment_attempts retry_request judge count_verdict settle
  attempt limit e l r x =
      let (l', n) = increment_attempts e.id l in
      let (x', answer) = executor (retry_request e) x in
      let v = judge limit n answer in (settle v e.id (clock x') l', count_verdict v r, x')

  -- the loop, over the entries that were pending when it began
  unfoldable pub reconcile : ℕ → List OutboxEntry → Ledger → Report → X → Ledger × Report × X
  unfolding attempt
  reconcile limit [] l r x = (l, r, x)
  reconcile limit (e ∷ queue) l r x =
      let (l', r', x') = attempt limit e l r x in reconcile limit queue l' r' x'

  unfoldable pub reconcile_pending : Option String → ℕ → Ledger → X → Ledger × Report × X
  unfolding reconcile pending
  reconcile_pending tenant limit l x = reconcile limit (pending tenant l) l empty_report x
