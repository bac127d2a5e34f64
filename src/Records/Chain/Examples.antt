-- ===== src/Records/Chain/Examples.antt =====
-- The audit chain at concrete events.
use asoe.Prelude.{String, ◌≡◌, refl, none, [], ◌∷◌}
use asoe.Records.Chain.{
  AuditBody, AuditEntry, AuditEvent, event_of, last_hash, verify_audit_chain, verify_from,
  get_audit_log,
}
use asoe.Records.Chain.Tamper.{log_all, log_all-verifies, verify_audit_chain-tamper}

-- a digest that names the event
abbrev by_id : String → AuditBody → String
by_id prev b = b.id

abbrev entry : String → AuditEntry
entry id = record {
  id = id;
  policy_key = "EXCEPTION_RESOLVED";
  previous_value = "null";
  new_value = "\"RESOLVED\"";
  changed_by = "user-1";
  change_reason = none;
  created_at = "2026-01-01";
}

log_all-verifies_example :
    verify_audit_chain by_id "acme"
      (log_all by_id (("acme", entry "e1") ∷ ("other", entry "e2") ∷ ("acme", entry "e3") ∷ []) [])
    ≡ none
log_all-verifies_example =
    log_all-verifies by_id "acme"
      (("acme", entry "e1") ∷ ("other", entry "e2") ∷ ("acme", entry "e3") ∷ []) [] empty
  where
    empty : verify_audit_chain by_id "acme" [] ≡ none
    empty = unfold verify_audit_chain in (unfold verify_from in (unfold get_audit_log in refl))

-- a log of one event, and one with an event of another tenant before it
abbrev first : AuditEvent
first = event_of by_id "acme" (entry "e1") "GENESIS"

abbrev foreign : AuditEvent
foreign = event_of by_id "other" (entry "e2") "GENESIS"

verify_audit_chain-tamper_example :
    get_audit_log "acme" (first ∷ []) ≡ get_audit_log "acme" (foreign ∷ first ∷ [])
unfolding verify_audit_chain verify_from get_audit_log last_hash
verify_audit_chain-tamper_example =
    verify_audit_chain-tamper by_id "acme" (first ∷ []) (foreign ∷ first ∷ [])
      (((λ h. refl), tt), tt) refl refl refl refl
