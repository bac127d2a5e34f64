-- ===== src/Records/Chain.antt =====
-- api/store.py: the hash-chained audit log of the `ExceptionStore`. `sha256` and the canonical JSON of an
-- event are arguments; an event's id and time are drawn, and its values are JSON texts.
pub mod Tamper
mod Examples
use asoe.Prelude.{
  ℕ, zero, suc, ◌+◌, ◌≡◌, refl, sym, ap, ◌∙◌, ◌⊎◌, inl, inr, String, Bool, true, false, not, Option,
  none, some, List, [], ◌∷◌, ◌++◌, str_eq, eq_iff, eq_refl, keep_if, length, arith, if◌then◌else◌,
  Bool-cases,
}

-- an event without its hash
pub record AuditBody : Type 0 where
  pub id : String
  pub tenant_id : String
  pub policy_key : String
  pub previous_value : String
  pub new_value : String
  pub changed_by : String
  pub change_reason : Option String
  pub created_at : String
  pub prev_hash : String

pub record AuditEvent : Type 0 where
  pub body : AuditBody
  pub event_hash : String

abbrev pub of_log_tenant : String → AuditEvent → Bool
of_log_tenant tenant e = str_eq e.body.tenant_id tenant

unfoldable pub get_audit_log : String → List AuditEvent → List AuditEvent
get_audit_log tenant log = keep_if (of_log_tenant tenant) log

-- the hash of the tenant's last event, or `prev`; the source looks for it from the end
unfoldable pub last_hash : String → String → List AuditEvent → String
last_hash tenant prev [] = prev
last_hash tenant prev (e ∷ log) =
    last_hash tenant (if of_log_tenant tenant e then e.event_hash else prev) log

-- what `log_audit_event` is given, and what it draws
pub record AuditEntry : Type 0 where
  pub id : String
  pub policy_key : String
  pub previous_value : String
  pub new_value : String
  pub changed_by : String
  pub change_reason : Option String
  pub created_at : String

-- `digest prev body` is sha256 of `prev`, a bar and the canonical JSON of `body`
module _ (digest : String → AuditBody → String) where
  abbrev pub event_of : String → AuditEntry → String → AuditEvent
  event_of tenant a prev =
      let body : AuditBody = record {
        id = a.id;
        tenant_id = tenant;
        policy_key = a.policy_key;
        previous_value = a.previous_value;
        new_value = a.new_value;
        changed_by = a.changed_by;
        change_reason = a.change_reason;
        created_at = a.created_at;
        prev_hash = prev;
      } in
      record { body = body; event_hash = digest prev body }

  unfoldable pub log_audit_event : String → AuditEntry → List AuditEvent → List AuditEvent
  unfolding last_hash
  log_audit_event tenant a log = log ++ (event_of tenant a (last_hash tenant "GENESIS" log) ∷ [])

  -- the loop of `verify_audit_chain` from an event on: where the chain breaks first
  unfoldable pub verify_from : String → ℕ → List AuditEvent → Option ℕ
  verify_from expected i [] = none
  verify_from expected i (e ∷ es) =
      let rest = verify_from e.event_hash (i + 1) es in
      if not (str_eq e.body.prev_hash expected)
      then some i
      else if not (str_eq e.event_hash (digest e.body.prev_hash e.body))
      then some i
      else rest

  unfoldable pub verify_audit_chain : String → List AuditEvent → Option ℕ
  unfolding verify_from get_audit_log
  verify_audit_chain tenant log = verify_from "GENESIS" 0 (get_audit_log tenant log)

  pub verify_from-append :
      (tenant expected : String) (i : ℕ) (log : List AuditEvent) (a : AuditEntry)
      → verify_from expected i (get_audit_log tenant log) ≡ none
      → verify_from expected i
          (get_audit_log tenant (log ++ (event_of tenant a (last_hash tenant expected log) ∷ [])))
        ≡ none
  unfolding verify_from last_hash get_audit_log
  verify_from-append tenant expected i [] a h =
      rw (eq_refl tenant, eq_refl expected)
        (rw (eq_refl (digest expected (event_of tenant a expected).body)) refl)
  verify_from-append tenant expected i (e ∷ log) a h = elim (Bool-cases (of_log_tenant tenant e)) [
    | inl mine ↦
        rw mine (ground (arith, rw mine at h, verify_from-append tenant e.event_hash (i + 1) log a))
    | inr other ↦ rw other (verify_from-append tenant expected i log a (rw other at h))
  ]

  pub verify_from-other :
      (tenant expected : String) (i : ℕ) (log : List AuditEvent) (e : AuditEvent)
      → of_log_tenant tenant e ≡ false
      → verify_from expected i (get_audit_log tenant (log ++ (e ∷ [])))
        ≡ verify_from expected i (get_audit_log tenant log)
  unfolding verify_from get_audit_log
  verify_from-other tenant expected i [] e h = rw h refl
  verify_from-other tenant expected i (d ∷ log) e h = ground (
    arith,
    h,
    verify_from-other tenant d.event_hash (i + 1) log e,
    verify_from-other tenant expected i log e,
  )
