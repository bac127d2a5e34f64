-- ===== src/Records/Chain/Tamper.antt =====
-- api/store.py: what a verified audit chain says of the log.
use asoe.Prelude.{
  ℕ, ◌+◌, ◌≡◌, refl, sym, ap, subst, ◌∙◌, inl, inr, String, none, List, [], ◌∷◌, ◌++◌, str_eq,
  eq_iff, length, arith, Bool-cases, All,
}
use asoe.Prelude.Assoc.{All-mono}
use asoe.Records.Chain.{
  AuditBody, AuditEvent, AuditEntry, of_log_tenant, get_audit_log, last_hash, log_audit_event,
  event_of, verify_from, verify_audit_chain, verify_from-append, verify_from-other,
}

-- the digest tells the bodies of two events apart, whatever hashes the events store
abbrev pub IsApart : (String → AuditBody → String) → AuditEvent → AuditEvent → Type 0
IsApart digest e e' =
    digest e.body.prev_hash e.body ≡ digest e'.body.prev_hash e'.body → e.body ≡ e'.body

-- the digest has no collision between the bodies of one log and those of the other
abbrev pub IsCollisionFree :
    (String → AuditBody → String) → List AuditEvent → List AuditEvent → Type 0
IsCollisionFree digest log log' = All (λ e. All (IsApart digest e) log') log

-- the hash that the next event has to name
abbrev end_of : String → List AuditEvent → String
end_of expected [] = expected
end_of expected (e ∷ es) = end_of e.event_hash es

end_of-last_hash :
    (tenant expected : String) (log : List AuditEvent)
    → end_of expected (get_audit_log tenant log) ≡ last_hash tenant expected log
unfolding get_audit_log last_hash
end_of-last_hash tenant expected [] = refl
end_of-last_hash tenant expected (e ∷ log) = elim (Bool-cases (of_log_tenant tenant e)) [
  | inl mine ↦ rw mine (end_of-last_hash tenant e.event_hash log)
  | inr other ↦ rw other (end_of-last_hash tenant expected log)
]

event_eq : (e e' : AuditEvent) → e.body ≡ e'.body → e.event_hash ≡ e'.event_hash → e ≡ e'
event_eq e e' b h = cc

module _ (digest : String → AuditBody → String) where
  All-tails :
      (e' : AuditEvent) (es' : List AuditEvent) (es : List AuditEvent)
      → All (λ e. All (IsApart digest e) (e' ∷ es')) es
      → All (λ e. All (IsApart digest e) es') es
  All-tails e' es' es h =
      All-mono (λ e. All (IsApart digest e) (e' ∷ es')) (λ e. All (IsApart digest e) es') es
        (λ e a. a.1) h

  verify_from-head :
      (x : String) (i : ℕ) (e : AuditEvent) (es : List AuditEvent)
      → verify_from digest x i (e ∷ es) ≡ none
      → (e.body.prev_hash ≡ x)
        × (e.event_hash ≡ digest e.body.prev_hash e.body)
        × (verify_from digest e.event_hash (i + 1) es ≡ none)
  unfolding verify_from
  verify_from-head x i e es h =
      ground
        (arith, h, eq_iff e.body.prev_hash x, eq_iff e.event_hash (digest e.body.prev_hash e.body))

  chains_eq :
      (x x' : String) (i i' : ℕ) (es es' : List AuditEvent)
      → IsCollisionFree digest es es'
      → verify_from digest x i es ≡ none
      → verify_from digest x' i' es' ≡ none
      → length es ≡ length es'
      → end_of x es ≡ end_of x' es'
      → (es ≡ es') × (x ≡ x')
  chains_eq x x' i i' [] [] free v v' l h = (refl, h)
  chains_eq x x' i i' [] (e' ∷ es') free v v' l h = absurd (omega arith)
  chains_eq x x' i i' (e ∷ es) [] free v v' l h = absurd (omega arith)
  chains_eq x x' i i' (e ∷ es) (e' ∷ es') free v v' l h =
      let (p, made, w) = verify_from-head x i e es v in
      let (p', made', w') = verify_from-head x' i' e' es' v' in
      let (tails, hashes) =
        chains_eq e.event_hash e'.event_hash (i + 1) (i' + 1) es es' (All-tails e' es' es free.1) w
          w' (omega arith) h in
      let bodies : e.body ≡ e'.body = free.0.0 (sym made ∙ hashes ∙ made') in
      let heads : e ≡ e' = event_eq e e' bodies hashes in
      (cc, sym p ∙ ap (λ b. b.prev_hash) bodies ∙ p')

  -- Where the digest has no collision between the bodies of two logs, and whatever hashes their events
  -- store, two logs that both verify for a tenant, that hold as many events of it, and that end in the
  -- same hash, hold the same events of it: none was changed, exchanged or put in the place of another.
  pub verify_audit_chain-tamper :
      (tenant : String) (log log' : List AuditEvent)
      → IsCollisionFree digest (get_audit_log tenant log) (get_audit_log tenant log')
      → verify_audit_chain digest tenant log ≡ none
      → verify_audit_chain digest tenant log' ≡ none
      → length (get_audit_log tenant log) ≡ length (get_audit_log tenant log')
      → last_hash tenant "GENESIS" log ≡ last_hash tenant "GENESIS" log'
      → get_audit_log tenant log ≡ get_audit_log tenant log'
  unfolding verify_audit_chain
  verify_audit_chain-tamper tenant log log' free v v' l h =
      (chains_eq "GENESIS" "GENESIS" 0 0 (get_audit_log tenant log) (get_audit_log tenant log') free
        v v' l
        (end_of-last_hash tenant "GENESIS" log
          ∙ h
          ∙ sym (end_of-last_hash tenant "GENESIS" log'))).0

  -- the calls of `log_audit_event`, in their order
  pub log_all : List (String × AuditEntry) → List AuditEvent → List AuditEvent
  log_all [] log = log
  log_all ((tenant, a) ∷ es) log = log_all es (log_audit_event digest tenant a log)

  log_audit_event-verifies :
      (t tenant : String) (a : AuditEntry) (log : List AuditEvent)
      → verify_audit_chain digest t log ≡ none
      → verify_audit_chain digest t (log_audit_event digest tenant a log) ≡ none
  unfolding verify_audit_chain log_audit_event
  log_audit_event-verifies t tenant a log h = elim (Bool-cases (str_eq tenant t)) [
    | inl mine ↦
        let same : tenant ≡ t = (eq_iff tenant t).0 mine in
        subst
          (λ x.
            verify_from digest "GENESIS" 0
              (get_audit_log t (log ++ (event_of digest x a (last_hash x "GENESIS" log) ∷ [])))
            ≡ none)
          (sym same) (verify_from-append digest t "GENESIS" 0 log a h)
    | inr other ↦ verify_from-other digest t "GENESIS" 0 log _ other ∙ h
  ]

  -- Whatever is logged, for whichever tenants and in whatever order, a chain that verified for a tenant
  -- before verifies for it afterwards.
  pub log_all-verifies :
      (t : String) (es : List (String × AuditEntry)) (log : List AuditEvent)
      → verify_audit_chain digest t log ≡ none
      → verify_audit_chain digest t (log_all es log) ≡ none
  unfolding log_all
  log_all-verifies t [] log h = h
  log_all-verifies t ((tenant, a) ∷ es) log h =
      log_all-verifies t es (log_audit_event digest tenant a log)
        (log_audit_event-verifies t tenant a log h)
