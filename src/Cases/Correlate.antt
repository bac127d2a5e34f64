-- ===== src/Cases/Correlate.antt =====
-- api/store.py: `_register_correlations_locked` and the lookup by the keys of one event.
use asoe.Prelude.{
  String, Bool, true, false, ◌≡◌, ◌↔◌, refl, ◌∙◌, Option, none, some, List, [], ◌∷◌, ◌||◌, subst,
  eq_iff, eq_refl, arith, any_of, is_some, if◌then◌else◌,
}
use asoe.Prelude.Assoc.{get_key, get_key-put_key, get_key-put_key_self}
use asoe.Cases.{
  KeyType, sales_order, customer_po, edi_transaction, source_email, same_type, CorrelationKey,
  CorrelationKeys, same_key, priority, given, case_at, first_of, first_match, register,
  register_correlations,
}

same_type-eq : (j k : KeyType) → same_type j k ≡ true → j ≡ k
same_type-eq sales_order sales_order h = refl
same_type-eq customer_po customer_po h = refl
same_type-eq edi_transaction edi_transaction h = refl
same_type-eq source_email source_email h = refl
same_type-eq j k h = ground (arith, h)

same_type_refl : (k : KeyType) → same_type k k ≡ true
same_type_refl sales_order = refl
same_type_refl customer_po = refl
same_type_refl edi_transaction = refl
same_type_refl source_email = refl

same_key-eq : (j k : CorrelationKey) → same_key j k ≡ true → j ≡ k
same_key-eq j k h = ground (
  arith,
  h,
  eq_iff j.tenant_id k.tenant_id,
  eq_iff j.key_value k.key_value,
  same_type-eq j.key_type k.key_type,
)

same_key_refl : (k : CorrelationKey) → same_key k k ≡ true
same_key_refl k =
    ground (arith, eq_refl k.tenant_id, eq_refl k.key_value, same_type_refl k.key_type)

pub same_key_iff : (j k : CorrelationKey) → (same_key j k ≡ true) ↔ (j ≡ k)
same_key_iff j k = (same_key-eq j k, λ e. subst (λ x. same_key j x ≡ true) e (same_key_refl j))

-- whether an event carries a key
abbrev pub has_key : CorrelationKeys → Bool
has_key keys = any_of (λ e. is_some (given e.1)) (priority keys)

register-stays :
    (tenant id : String) (k : CorrelationKey) (t : KeyType) (v : Option String)
    (d : List (CorrelationKey × String))
    → get_key same_key k d ≡ some id
    → get_key same_key k (register tenant id t v d) ≡ some id
register-stays tenant id k t none d h = h
register-stays tenant id k t (some v) d h =
    let j : CorrelationKey = record { tenant_id = tenant; key_type = t; key_value = v } in
    get_key-put_key same_key same_key_iff j k id d ∙ one (same_key j k)
  where
    one : (b : Bool) → (if b then some id else get_key same_key k d) ≡ some id
    one true = refl
    one false = h

register_correlations-stays :
    (tenant id : String) (k : CorrelationKey) (ks : List (KeyType × Option String))
    (d : List (CorrelationKey × String))
    → get_key same_key k d ≡ some id
    → get_key same_key k (register_correlations tenant id ks d) ≡ some id
unfolding register_correlations
register_correlations-stays tenant id k [] d h = h
register_correlations-stays tenant id k ((t, v) ∷ ks) d h =
    register_correlations-stays tenant id k ks _ (register-stays tenant id k t (given v) d h)

registered-found :
    (tenant id : String) (t : KeyType) (w : String) (ks : List (KeyType × Option String))
    (d : List (CorrelationKey × String))
    → case_at tenant t
        (some w)
        (register_correlations tenant id ks (register tenant id t (some w) d))
      ≡ some id
registered-found tenant id t w ks d =
    register_correlations-stays tenant id _ ks _ (get_key-put_key_self same_key same_key_iff _ id d)

pub first_match-register :
    (tenant id : String) (ks : List (KeyType × Option String)) (d : List (CorrelationKey × String))
    → any_of (λ e. is_some (given e.1)) ks ≡ true
    → first_match tenant ks (register_correlations tenant id ks d) ≡ some id
unfolding first_match register_correlations
first_match-register tenant id [] d h = cc
first_match-register tenant id ((t, v) ∷ ks) d h =
    one (given v) h (λ d' h'. first_match-register tenant id ks d' h')
  where
    one :
        (w : Option String)
        → (is_some w || any_of (λ e. is_some (given e.1)) ks) ≡ true
        → ((d' : List (CorrelationKey × String))
            → any_of (λ e. is_some (given e.1)) ks ≡ true
            → first_match tenant ks (register_correlations tenant id ks d') ≡ some id)
        → first_of
            (case_at tenant t w (register_correlations tenant id ks (register tenant id t w d)))
            (first_match tenant ks (register_correlations tenant id ks (register tenant id t w d)))
          ≡ some id
    one none g ih = ih d g
    one (some w) g ih = rw (registered-found tenant id t w ks d) refl
