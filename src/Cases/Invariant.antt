-- ===== src/Cases/Invariant.antt =====
-- api/store.py: sequences of calls of the `CaseStore`, of which each may come at any time.
use asoe.Prelude.{
  String, Bool, true, false, not, ◌≡◌, inl, inr, refl, sym, ap, subst, ◌∙◌, Option, none, some,
  List, str_eq, eq_refl, Bool-cases, Option-cases, All, arith, keep_if,
}
use asoe.Prelude.Assoc.{keep_if-All, All-keep_if, All-mono}
use asoe.Prelude.Dict.{Dict, lookup, insert, lookup-insert, lookup-keep_if, All-insert, All-lookup}
use asoe.Prelude.Results.{Result, ok, err, ◌>>=◌}
use asoe.Cases.{
  ClassifierType, OrderCase, CorrelationKey, CaseStore, Intake, priority, find_by_correlation,
  new_case, log_intake, open_case, attach, open_or_attach, lookup_or_create, StoreError,
}
use asoe.Cases.Update.{
  is_closed_untriaged, CaseFields, Attribution, copied, trail_of, log_reclassified, is_reclassified,
  attributed, trail_by, commit, update_at, put_case, rewrite_at, delete,
}
use asoe.Cases.Sound.{
  IsLinked, IsNamed, IsTriaged, IsSound, IsLinked-insert, register_correlations-IsLinked,
  find_by_correlation-linked,
}

-- Replacing a case by one of the same id and tenant that is not closed untriaged.
put_case-IsSound :
    (id : String) (b c : OrderCase) (s : CaseStore)
    → lookup id s.cases ≡ some b
    → c.tenant_id ≡ b.tenant_id
    → c.case_id ≡ b.case_id
    → is_closed_untriaged c ≡ false
    → IsSound s
    → IsSound (put_case id c s)
put_case-IsSound id b c s found t n safe h = record {
  linked =
      IsLinked-insert id c s.cases s.correlation
        (λ x f. let same : x ≡ b = cc in ap (λ y. y.tenant_id) same ∙ sym t) h.linked;
  named =
      All-insert IsNamed id c s.cases (n ∙ All-lookup IsNamed id b s.cases h.named found) h.named;
  triaged = All-insert IsTriaged id c s.cases safe h.triaged;
}

log_intake-IsSound :
    (id : String) (i : Intake) (sg : Option String) (s : CaseStore)
    → IsSound s
    → IsSound (log_intake id i sg s)
unfolding log_intake
log_intake-IsSound id i none s h = h
log_intake-IsSound id i (some sg) s h = record {
  linked = h.linked;
  named = h.named;
  triaged = h.triaged;
}

open_case-IsSound :
    (id now : String) (i : Intake) (s : CaseStore)
    → lookup id s.cases ≡ none
    → IsSound s
    → IsSound (open_case id now i s)
unfolding open_case
open_case-IsSound id now i s fresh h =
    let c = new_case id now i in
    let cases = insert id c s.cases in
    let links = IsLinked-insert id c s.cases s.correlation (λ b f. absurd (no_case b f)) h.linked in
    log_intake-IsSound id i i.supergroup_code _ (record {
      linked =
          register_correlations-IsLinked cases i.tenant_id id c
            (rw (lookup-insert id id c s.cases, eq_refl id) refl) refl (priority i.keys)
            s.correlation links;
      named = All-insert IsNamed id c s.cases refl h.named;
      triaged = All-insert IsTriaged id c s.cases refl h.triaged;
    })
  where
    no_case : (b : OrderCase) → lookup id s.cases ≡ some b → ⊥
    no_case b f = cc

attach-IsSound :
    (c : OrderCase) (i : Intake) (s : CaseStore)
    → lookup c.case_id s.cases ≡ some c
    → c.tenant_id ≡ i.tenant_id
    → IsSound s
    → IsSound (attach c i s)
unfolding attach
attach-IsSound c i s found t h = record {
  linked =
      register_correlations-IsLinked s.cases i.tenant_id c.case_id c found t (priority i.keys)
        s.correlation h.linked;
  named = h.named;
  triaged = h.triaged;
}

pub lookup_or_create-IsSound :
    (id now : String) (i : Intake) (s : CaseStore)
    → lookup id s.cases ≡ none
    → IsSound s
    → IsSound (lookup_or_create id now i s).1
unfolding lookup_or_create open_or_attach
lookup_or_create-IsSound id now i s fresh h =
    elim (Option-cases (find_by_correlation i.tenant_id i.keys s)) [
      | inl missing ↦ rw missing (open_case-IsSound id now i s fresh h)
      | inr (c, found) ↦
          let (at, t) = find_by_correlation-linked s i c h found in
          rw found (attach-IsSound c i s at t h)
    ]

log-IsSound :
    (id : String) (sg : Option String) (a : Attribution) (by : String) (type : ClassifierType)
    (s : CaseStore)
    → IsSound s
    → IsSound (log_reclassified id sg a by type s)
unfolding log_reclassified
log-IsSound id sg a by type s h = record { linked = h.linked; named = h.named; triaged = h.triaged }

trail_by-IsSound :
    (id : String) (c : OrderCase) (a : Attribution) (o : Option (String × ClassifierType))
    (log : CaseStore → CaseStore) (s : CaseStore)
    → trail_by id c a o ≡ some log
    → IsSound s
    → IsSound (log s)
unfolding trail_by
trail_by-IsSound id c a none log s e h = cc
trail_by-IsSound id c a (some (by, type)) log s e h =
    let same : log_reclassified id c.supergroup_code a by type ≡ log = cc in
    subst (λ g. IsSound (g s)) same (log-IsSound id c.supergroup_code a by type s h)

trail_of-IsSound :
    (id : String) (c : OrderCase) (a : Attribution) (r : Bool) (log : CaseStore → CaseStore)
    (s : CaseStore)
    → trail_of id c a r ≡ some log
    → IsSound s
    → IsSound (log s)
unfolding trail_of
trail_of-IsSound id c a false log s e h =
    let same : (λ (x : CaseStore). x) ≡ log = cc in subst (λ f. IsSound (f s)) same h
trail_of-IsSound id c a true log s e h = trail_by-IsSound id c a (attributed a) log s e h

commit-IsSound :
    (id : String) (b c d : OrderCase) (s s' : CaseStore) (a : Attribution) (r : Bool)
    (o : Option (CaseStore → CaseStore))
    → trail_of id c a r ≡ o
    → lookup id s.cases ≡ some b
    → c.tenant_id ≡ b.tenant_id
    → c.case_id ≡ b.case_id
    → commit id c s o ≡ ok (d, s')
    → IsSound s
    → IsSound s'
unfolding commit
commit-IsSound id b c d s s' a r none p found t n e h = cc
commit-IsSound id b c d s s' a r (some log) p found t n e h =
    elim (Bool-cases (is_closed_untriaged c)) [
      | inl closed ↦ absurd (no closed)
      | inr safe ↦
          let done : ◌≡◌ {A = Result StoreError (OrderCase × CaseStore)}
              (ok (c, log (put_case id c s))) (ok (d, s')) =
            rw safe at e in
          let same : log (put_case id c s) ≡ s' = cc in
          subst IsSound same
            (trail_of-IsSound id c a r log _ p (put_case-IsSound id b c s found t n safe h))
    ]
  where
    no : is_closed_untriaged c ≡ true → ⊥
    no closed = ground (arith, closed, e)

pub update_at-IsSound :
    (id now : String) (a : Attribution) (f : CaseFields) (o : Option OrderCase) (d : OrderCase)
    (s s' : CaseStore)
    → lookup id s.cases ≡ o
    → update_at id now a f s o ≡ ok (d, s')
    → IsSound s
    → IsSound s'
unfolding update_at
update_at-IsSound id now a f none d s s' found e h = cc
update_at-IsSound id now a f (some c) d s s' found e h =
    commit-IsSound id c (copied now f c) d s s' a (is_reclassified f c) _ refl found refl refl e h

pub rewrite_at-IsSound :
    (id : String) (change : OrderCase → Result StoreError OrderCase) (o : Option OrderCase)
    (d : OrderCase) (s s' : CaseStore)
    → ((b c : OrderCase)
        → is_closed_untriaged b ≡ false
        → change b ≡ ok c
        → (c.tenant_id ≡ b.tenant_id) × (c.case_id ≡ b.case_id) × (is_closed_untriaged c ≡ false))
    → lookup id s.cases ≡ o
    → rewrite_at id change s o ≡ ok (d, s')
    → IsSound s
    → IsSound s'
unfolding rewrite_at
rewrite_at-IsSound id change none d s s' keep found e h = cc
rewrite_at-IsSound id change (some b) d s s' keep found e h = one (change b) refl e
  where
    one :
        (r : Result StoreError OrderCase)
        → change b ≡ r
        → ◌>>=◌ {B = OrderCase × CaseStore} r (λ c. ok (c, put_case id c s)) ≡ ok (d, s')
        → IsSound s'
    one (err x) p q = cc
    one (ok c) p q =
        let same : put_case id c s ≡ s' = cc in
        let (t, n, safe) = keep b c (All-lookup IsTriaged id b s.cases h.triaged found) p in
        subst IsSound same (put_case-IsSound id b c s found t n safe h)

delete-IsLinked :
    (id : String) (cases : Dict OrderCase) (d : List (CorrelationKey × String))
    → All (IsLinked cases) d
    → All
        (IsLinked (keep_if (λ e. not (str_eq e.0 id)) cases))
        (keep_if (λ e. not (str_eq e.1 id)) d)
delete-IsLinked id cases d h =
    keep_if-All _ (λ e. not (str_eq e.1 id)) d
      (All-mono (IsLinked cases) _ d
        (λ e link. elim (Bool-cases (str_eq e.1 id)) [
          | inl gone ↦ inr (rw gone refl)
          | inr stays ↦ inl (link.0, lookup-keep_if id e.1 cases stays ∙ link.1, link.2)
        ])
        h)

pub delete-IsSound : (id : String) (s : CaseStore) → IsSound s → IsSound (delete id s)
unfolding delete
delete-IsSound id s h = record {
  linked = delete-IsLinked id s.cases s.correlation h.linked;
  named = All-keep_if IsNamed (λ e. not (str_eq e.0 id)) s.cases h.named;
  triaged = All-keep_if IsTriaged (λ e. not (str_eq e.0 id)) s.cases h.triaged;
}
