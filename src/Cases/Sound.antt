-- ===== src/Cases/Sound.antt =====
-- api/store.py: what every call of the `CaseStore` keeps. A key leads to a case of its own tenant, a
-- case stands under its own id, and no case is closed while it waits for triage.
use asoe.Prelude.{
  String, true, false, ◌≡◌, inl, inr, refl, sym, ap, ◌∙◌, Option, none, some, List, [], ◌∷◌, str_eq,
  eq_iff, Bool-cases, All, arith,
}
use asoe.Prelude.Assoc.{All-put_key, All-get_key, All-mono}
use asoe.Prelude.Dict.{Dict, lookup, insert, lookup-insert, All-lookup}
use asoe.Cases.{
  OrderCase, KeyType, CorrelationKey, same_key, CaseStore, Intake, priority, given, case_at,
  first_of, first_match, case_of, find_by_correlation, register, register_correlations,
}
use asoe.Cases.Update.{is_closed_untriaged}

abbrev pub IsLinked : Dict OrderCase → CorrelationKey × String → Type 0
IsLinked cases e = (c : OrderCase) × (lookup e.1 cases ≡ some c) × (c.tenant_id ≡ e.0.tenant_id)

abbrev pub IsNamed : String × OrderCase → Type 0
IsNamed e = e.1.case_id ≡ e.0

abbrev pub IsTriaged : String × OrderCase → Type 0
IsTriaged e = is_closed_untriaged e.1 ≡ false

pub record IsSound (s : CaseStore) : Type 0 where
  pub linked : All (IsLinked s.cases) s.correlation
  pub named : All IsNamed s.cases
  pub triaged : All IsTriaged s.cases

pub same_key-tenant : (j k : CorrelationKey) → same_key j k ≡ true → j.tenant_id ≡ k.tenant_id
same_key-tenant j k h = (eq_iff j.tenant_id k.tenant_id).0 (ground (arith, h))

pub IsLinked-move :
    (cases : Dict OrderCase) (j k : CorrelationKey) (id : String)
    → same_key j k ≡ true
    → IsLinked cases (k, id)
    → IsLinked cases (j, id)
IsLinked-move cases j k id h (c, found, t) = (c, found, t ∙ sym (same_key-tenant j k h))

-- A case that takes the place of one of the same tenant keeps the links.
pub IsLinked-insert :
    (id : String) (c : OrderCase) (cases : Dict OrderCase) (d : List (CorrelationKey × String))
    → ((b : OrderCase) → lookup id cases ≡ some b → b.tenant_id ≡ c.tenant_id)
    → All (IsLinked cases) d
    → All (IsLinked (insert id c cases)) d
IsLinked-insert id c cases d h =
    All-mono (IsLinked cases) (IsLinked (insert id c cases)) d λ e link.
      elim (Bool-cases (str_eq id e.1)) [
        | inl hit ↦
            let same : id ≡ e.1 = (eq_iff id e.1).0 hit in
            (
              c,
              rw (lookup-insert id e.1 c cases, hit) refl,
              sym (h link.0 (ap (λ x. lookup x cases) same ∙ link.1)) ∙ link.2,
            )
        | inr miss ↦ (link.0, rw (lookup-insert id e.1 c cases, miss) link.1, link.2)
      ]

pub register_correlations-IsLinked :
    (cases : Dict OrderCase) (tenant id : String) (c : OrderCase)
    → lookup id cases ≡ some c
    → c.tenant_id ≡ tenant
    → (ks : List (KeyType × Option String)) (d : List (CorrelationKey × String))
    → All (IsLinked cases) d
    → All (IsLinked cases) (register_correlations tenant id ks d)
unfolding register_correlations
register_correlations-IsLinked cases tenant id c found t [] d h = h
register_correlations-IsLinked cases tenant id c found t ((k, v) ∷ ks) d h =
    register_correlations-IsLinked cases tenant id c found t ks (register tenant id k (given v) d)
      (one (given v))
  where
    one : (w : Option String) → All (IsLinked cases) (register tenant id k w d)
    one none = h
    one (some w) =
        All-put_key (IsLinked cases) same_key (λ a b j. IsLinked-move cases a b j)
          (record { tenant_id = tenant; key_type = k; key_value = w }) id d (c, found, t) h

-- A key that is known leads to a case of its tenant.
first_match-linked :
    (cases : Dict OrderCase) (tenant id : String) (ks : List (KeyType × Option String))
    (d : List (CorrelationKey × String))
    → All (IsLinked cases) d
    → first_match tenant ks d ≡ some id
    → (c : OrderCase) × (lookup id cases ≡ some c) × (c.tenant_id ≡ tenant)
unfolding first_match
first_match-linked cases tenant id [] d h e = cc
first_match-linked cases tenant id ((k, v) ∷ ks) d h e =
    one (first_match-linked cases tenant id ks d h) (given v) (case_at tenant k (given v) d) refl e
  where
    one :
        (first_match tenant ks d ≡ some id
          → (c : OrderCase) × (lookup id cases ≡ some c) × (c.tenant_id ≡ tenant))
        → (w : Option String) (at : Option String) → case_at tenant k w d ≡ at
        → first_of at (first_match tenant ks d) ≡ some id
        → (c : OrderCase) × (lookup id cases ≡ some c) × (c.tenant_id ≡ tenant)
    one ih w none f g = ih g
    one ih none (some j) f g = cc
    one ih (some w) (some j) f g =
        let same : j ≡ id = cc in
        All-get_key (IsLinked cases) same_key
          (record { tenant_id = tenant; key_type = k; key_value = w }) id d
          (λ a hit (c, found, t). (c, found, t ∙ same_key-tenant a _ hit)) h (f ∙ ap some same)

pub find_by_correlation-linked :
    (s : CaseStore) (i : Intake) (c : OrderCase)
    → IsSound s
    → find_by_correlation i.tenant_id i.keys s ≡ some c
    → (lookup c.case_id s.cases ≡ some c) × (c.tenant_id ≡ i.tenant_id)
unfolding find_by_correlation
find_by_correlation-linked s i c h e =
    one (first_match i.tenant_id (priority i.keys) s.correlation) refl e
  where
    one :
        (at : Option String)
        → first_match i.tenant_id (priority i.keys) s.correlation ≡ at
        → case_of s at ≡ some c
        → (lookup c.case_id s.cases ≡ some c) × (c.tenant_id ≡ i.tenant_id)
    one none f g = cc
    one (some id) f g =
        let (b, found, t) =
          first_match-linked s.cases i.tenant_id id (priority i.keys) s.correlation h.linked f in
        let same : b ≡ c = cc in
        let name : c.case_id ≡ id = All-lookup IsNamed id c s.cases h.named g in
        (ap (λ x. lookup x s.cases) name ∙ g, ap (λ x. x.tenant_id) (sym same) ∙ t)
