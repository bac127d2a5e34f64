-- ===== src/Cases/Steps.antt =====
-- api/store.py: sequences of calls of the `CaseStore`, of which any may come next.
use asoe.Prelude.{
  String, false, ◌≡◌, refl, none, some, arith, Bool-cases, inl, inr, is_some, ap, subst, sym, ◌∙◌,
}
use asoe.Prelude.Assoc.{All-put_key}
use asoe.Prelude.Dict.{lookup}
use asoe.Prelude.Results.{Result, ok}
use asoe.Cases.{
  StoreError, ClassificationEvent, CasePendingOverride, OrderCase, KeyType, same_key, CaseStore,
  Intake, lookup_or_create, record_classification_locked, register,
}
use asoe.Cases.Update.{
  is_closed_untriaged, CaseFields, Attribution, update, register_correlation, record_classification,
  set_pending_override, clear_pending_override, delete, with_override, without_override,
}
use asoe.Cases.Sound.{IsSound, IsLinked, IsLinked-move}
use asoe.Cases.Invariant.{
  lookup_or_create-IsSound, update_at-IsSound, rewrite_at-IsSound, delete-IsSound,
}

-- One call that does not raise. A new id is one that `uuid4()` has not given before, and a key is
-- registered by the tenant of the case.
pub data Step (s : CaseStore) : CaseStore → Type 0 where
  resolved_event :
      (id now : String) (i : Intake)
      → lookup id s.cases ≡ none
      → Step s (lookup_or_create id now i s).1
  updated_case :
      {t : CaseStore} (id now : String) (a : Attribution) (f : CaseFields) (c : OrderCase)
      → update id now a f s ≡ ok (c, t)
      → Step s t
  registered :
      {t : CaseStore} (id : String) (k : KeyType) (v : String) (c : OrderCase)
      → lookup id s.cases ≡ some c
      → register_correlation c.tenant_id id k v s ≡ ok t
      → Step s t
  classified :
      {t : CaseStore} (e : ClassificationEvent) → record_classification e s ≡ ok t → Step s t
  overridden :
      {t : CaseStore} (id now : String) (o : CasePendingOverride) (c : OrderCase)
      → set_pending_override id now o s ≡ ok (c, t)
      → Step s t
  cleared :
      {t : CaseStore} (id now : String) (c : OrderCase)
      → clear_pending_override id now s ≡ ok (c, t)
      → Step s t
  deleted : (id : String) → Step s (delete id s)

pub data Reach (s : CaseStore) : CaseStore → Type 0 where
  here : Reach s s
  next : {t u : CaseStore} → Reach s t → Step t u → Reach s u

override-keeps :
    (now : String) (o : CasePendingOverride) (b c : OrderCase)
    → with_override now o b ≡ ok c
    → (c.tenant_id ≡ b.tenant_id) × (c.case_id ≡ b.case_id) × (is_closed_untriaged c ≡ false)
override-keeps now o b c e = (ground (arith, e), ground (arith, e), ground (arith, e))

clear-keeps :
    (now : String) (b c : OrderCase)
    → is_closed_untriaged b ≡ false
    → without_override now b ≡ ok c
    → (c.tenant_id ≡ b.tenant_id) × (c.case_id ≡ b.case_id) × (is_closed_untriaged c ≡ false)
clear-keeps now b c h e =
    let same : record b { pending_override = none; updated_at = now } ≡ c = cc in
    (
      sym (ap (λ x. x.tenant_id) same),
      sym (ap (λ x. x.case_id) same),
      ap is_closed_untriaged (sym same) ∙ h,
    )

registered-IsSound :
    (id : String) (k : KeyType) (v : String) (c : OrderCase) (s t : CaseStore)
    → lookup id s.cases ≡ some c
    → register_correlation c.tenant_id id k v s ≡ ok t
    → IsSound s
    → IsSound t
unfolding register_correlation
registered-IsSound id k v c s t found e h =
    let made : ◌≡◌ {A = Result StoreError CaseStore}
        (ok (record s { correlation = register c.tenant_id id k (some v) s.correlation })) (ok t) =
      (rw (found) at e) in
    let same : record s { correlation = register c.tenant_id id k (some v) s.correlation } ≡ t =
      cc in
    subst IsSound same (record {
      linked =
          All-put_key (IsLinked s.cases) same_key (λ a b j. IsLinked-move s.cases a b j) _ id
            s.correlation (c, found, refl) h.linked;
      named = h.named;
      triaged = h.triaged;
    })

classified-IsSound :
    (e : ClassificationEvent) (s t : CaseStore)
    → record_classification e s ≡ ok t
    → IsSound s
    → IsSound t
unfolding record_classification record_classification_locked
classified-IsSound e s t r h = elim (Bool-cases (is_some (lookup e.case_id s.cases))) [
  | inl there ↦
      let made : ◌≡◌ {A = Result StoreError CaseStore} (ok (record_classification_locked e s))
          (ok t) =
        rw there at r in
      let same : record_classification_locked e s ≡ t = cc in
      subst IsSound same (record { linked = h.linked; named = h.named; triaged = h.triaged })
  | inr missing ↦ absurd (none_of missing)
]
  where
    none_of : is_some (lookup e.case_id s.cases) ≡ false → ⊥
    none_of missing = ground (arith, missing, r)

Step-IsSound : {s t : CaseStore} → Step s t → IsSound s → IsSound t
unfolding update set_pending_override clear_pending_override
Step-IsSound {s} (resolved_event id now i fresh) h = lookup_or_create-IsSound id now i s fresh h
Step-IsSound {s} {t} (updated_case id now a f c e) h =
    update_at-IsSound id now a f (lookup id s.cases) c s t refl e h
Step-IsSound {s} {t} (registered id k v c found e) h = registered-IsSound id k v c s t found e h
Step-IsSound {s} {t} (classified e r) h = classified-IsSound e s t r h
Step-IsSound {s} {t} (overridden id now o c e) h =
    rewrite_at-IsSound id _ (lookup id s.cases) c s t (λ b d _ r. override-keeps now o b d r) refl e
      h
Step-IsSound {s} {t} (cleared id now c e) h =
    rewrite_at-IsSound id _ (lookup id s.cases) c s t (λ b d q r. clear-keeps now b d q r) refl e h
Step-IsSound {s} (deleted id) h = delete-IsSound id s h

-- Every sequence of calls of the case store, in which new ids are unused and keys are registered by the
-- tenant of their case, keeps a sound store sound: a key leads to a case of its own tenant, a case stands
-- under its own id, and no case is RESOLVED while it waits in SG_NEEDS_TRIAGE.
pub Reach-IsSound : {s t : CaseStore} → IsSound s → Reach s t → IsSound t
Reach-IsSound h here = h
Reach-IsSound h (next r st) = Step-IsSound st (Reach-IsSound h r)
