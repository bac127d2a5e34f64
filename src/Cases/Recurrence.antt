-- ===== src/Cases/Recurrence.antt =====
-- api/store.py: an event that `lookup_or_create` resolves again, after other events were resolved.
use asoe.Prelude.{
  String, Bool, true, false, ◌≡◌, ◌≢◌, ◌⊎◌, refl, ◌∙◌, Option, none, some, List, [], ◌∷◌, inl, inr,
  arith, any_of, Option-cases, eq_iff,
}
use asoe.Prelude.Assoc.{put_key, get_key-put_key}
use asoe.Prelude.Dict.{lookup, lookup-insert}
use asoe.Cases.{
  KeyType, CorrelationKey, same_key, CaseStore, OrderCase, Intake, priority, given, case_at,
  first_of, first_match, find_by_correlation, register, register_correlations, new_case, log_intake,
  open_case, attach, open_or_attach, lookup_or_create,
}
use asoe.Cases.Sound.{IsSound, find_by_correlation-linked}
use asoe.Cases.Correlate.{same_key_iff, has_key, first_match-register}

abbrev add_key : String → KeyType → Option String → List CorrelationKey → List CorrelationKey
add_key tenant t none ks = ks
add_key tenant t (some v) ks = record { tenant_id = tenant; key_type = t; key_value = v } ∷ ks

-- the keys under which an event is looked up and registered
abbrev keys_of : String → List (KeyType × Option String) → List CorrelationKey
keys_of tenant [] = []
keys_of tenant ((t, v) ∷ ks) = add_key tenant t (given v) (keys_of tenant ks)

abbrev is_among : List CorrelationKey → CorrelationKey → Bool
is_among ks k = any_of (same_key k) ks

-- whether two events share a key
abbrev pub share_key : Intake → Intake → Bool
share_key i j =
    any_of (is_among (keys_of i.tenant_id (priority i.keys)))
      (keys_of j.tenant_id (priority j.keys))

first_match-put_key :
    (tenant id : String) (k : CorrelationKey) (ks : List (KeyType × Option String))
    (d : List (CorrelationKey × String))
    → is_among (keys_of tenant ks) k ≡ false
    → first_match tenant ks (put_key same_key k id d) ≡ first_match tenant ks d
unfolding first_match
first_match-put_key tenant id k [] d h = refl
first_match-put_key tenant id k ((t, v) ∷ ks) d h =
    one (given v) h (first_match-put_key tenant id k ks d)
  where
    one :
        (w : Option String)
        → is_among (add_key tenant t w (keys_of tenant ks)) k ≡ false
        → (is_among (keys_of tenant ks) k ≡ false
            → first_match tenant ks (put_key same_key k id d) ≡ first_match tenant ks d)
        → first_of
            (case_at tenant t w (put_key same_key k id d))
            (first_match tenant ks (put_key same_key k id d))
          ≡ first_of (case_at tenant t w d) (first_match tenant ks d)
    one none g ih = ih g
    one (some w) g ih =
        let key : CorrelationKey = record { tenant_id = tenant; key_type = t; key_value = w } in
        ground (arith, g, ih, get_key-put_key same_key same_key_iff k key id d)

first_match-register_correlations :
    (tenant other id : String) (ks js : List (KeyType × Option String))
    (d : List (CorrelationKey × String))
    → any_of (is_among (keys_of tenant ks)) (keys_of other js) ≡ false
    → first_match tenant ks (register_correlations other id js d) ≡ first_match tenant ks d
unfolding register_correlations
first_match-register_correlations tenant other id ks [] d h = refl
first_match-register_correlations tenant other id ks ((t, v) ∷ js) d h =
    one (given v) h (λ d'. first_match-register_correlations tenant other id ks js d')
  where
    one :
        (w : Option String)
        → any_of (is_among (keys_of tenant ks)) (add_key other t w (keys_of other js)) ≡ false
        → ((d' : List (CorrelationKey × String))
            → any_of (is_among (keys_of tenant ks)) (keys_of other js) ≡ false
            → first_match tenant ks (register_correlations other id js d')
              ≡ first_match tenant ks d')
        → first_match tenant ks (register_correlations other id js (register other id t w d))
          ≡ first_match tenant ks d
    one none g ih = ih d g
    one (some w) g ih =
        let key : CorrelationKey = record { tenant_id = other; key_type = t; key_value = w } in
        ih _ (ground (arith, g)) ∙ first_match-put_key tenant id key ks d (ground (arith, g))

-- registering more keys under the case that is found does not change that it is found
first_match-put_key_same :
    (tenant id : String) (k : CorrelationKey) (ks : List (KeyType × Option String))
    (d : List (CorrelationKey × String))
    → first_match tenant ks d ≡ some id
    → first_match tenant ks (put_key same_key k id d) ≡ some id
unfolding first_match
first_match-put_key_same tenant id k [] d h = h
first_match-put_key_same tenant id k ((t, v) ∷ ks) d h =
    one (given v) h (first_match-put_key_same tenant id k ks d)
  where
    one :
        (w : Option String)
        → first_of (case_at tenant t w d) (first_match tenant ks d) ≡ some id
        → (first_match tenant ks d ≡ some id
            → first_match tenant ks (put_key same_key k id d) ≡ some id)
        → first_of
            (case_at tenant t w (put_key same_key k id d))
            (first_match tenant ks (put_key same_key k id d))
          ≡ some id
    one none g ih = ih g
    one (some w) g ih =
        let key : CorrelationKey = record { tenant_id = tenant; key_type = t; key_value = w } in
        ground (arith, g, ih, get_key-put_key same_key same_key_iff k key id d)

first_match-register_same :
    (tenant other id : String) (ks js : List (KeyType × Option String))
    (d : List (CorrelationKey × String))
    → first_match tenant ks d ≡ some id
    → first_match tenant ks (register_correlations other id js d) ≡ some id
unfolding register_correlations
first_match-register_same tenant other id ks [] d h = h
first_match-register_same tenant other id ks ((t, v) ∷ js) d h =
    first_match-register_same tenant other id ks js _ (one (given v))
  where
    one : (w : Option String) → first_match tenant ks (register other id t w d) ≡ some id
    one none = h
    one (some w) = first_match-put_key_same tenant id _ ks d h

-- an event's keys lead to the case, which is in the store
record IsFiled (i : Intake) (c : OrderCase) (s : CaseStore) : Type 0 where
  matched : first_match i.tenant_id (priority i.keys) s.correlation ≡ some c.case_id
  stored : lookup c.case_id s.cases ≡ some c

log_intake-IsFiled :
    (i j : Intake) (c : OrderCase) (id : String) (sg : Option String) (s : CaseStore)
    → IsFiled i c s
    → IsFiled i c (log_intake id j sg s)
unfolding log_intake
log_intake-IsFiled i j c id none s h = h
log_intake-IsFiled i j c id (some sg) s h = record { matched = h.matched; stored = h.stored }

IsFiled-find :
    (i : Intake) (c : OrderCase) (s : CaseStore)
    → IsFiled i c s
    → find_by_correlation i.tenant_id i.keys s ≡ some c
unfolding find_by_correlation
IsFiled-find i c s h = rw (h.matched) h.stored

lookup_or_create-IsFiled :
    (id now : String) (i : Intake) (s : CaseStore)
    → IsSound s
    → has_key i.keys ≡ true
    → let ((c, fresh), s') = lookup_or_create id now i s in IsFiled i c s'
unfolding lookup_or_create open_or_attach open_case attach
lookup_or_create-IsFiled id now i s sound h =
    elim (Option-cases (find_by_correlation i.tenant_id i.keys s)) [
      | inl missing ↦ rw missing (
          log_intake-IsFiled i i (new_case id now i) id i.supergroup_code _ (record {
            matched = first_match-register i.tenant_id id (priority i.keys) s.correlation h;
            stored =
                rw (lookup-insert id id (new_case id now i) s.cases, (eq_iff id id).1 refl) refl;
          }))
      | inr (c, found) ↦ rw found (record {
        matched = first_match-register i.tenant_id c.case_id (priority i.keys) s.correlation h;
        stored = (find_by_correlation-linked s i c sound found).0;
      })
    ]

-- The event `j` is resolved to the case `c` too, or it shares no key with `i` and, should it open a
-- case, opens it under another id than that of `c`.
abbrev pub SparesCase : Intake → OrderCase → String → Intake → CaseStore → Type 0
SparesCase i c id j s =
    (find_by_correlation j.tenant_id j.keys s ≡ some c)
    ⊎ ((share_key i j ≡ false) × (id ≢ c.case_id))

lookup_or_create-spares :
    (i : Intake) (c : OrderCase) (id now : String) (j : Intake) (s : CaseStore)
    → SparesCase i c id j s
    → IsFiled i c s
    → IsFiled i c (lookup_or_create id now j s).1
unfolding lookup_or_create open_or_attach open_case attach
lookup_or_create-spares i c id now j s (inl same) h = rw same (record {
  matched =
      first_match-register_same i.tenant_id j.tenant_id c.case_id (priority i.keys)
        (priority j.keys) s.correlation h.matched;
  stored = h.stored;
})
lookup_or_create-spares i c id now j s (inr (apart, other)) h =
    elim (Option-cases (find_by_correlation j.tenant_id j.keys s)) [
      | inl missing ↦ rw missing (
          log_intake-IsFiled i j c id j.supergroup_code _ (record {
            matched =
                first_match-register_correlations i.tenant_id j.tenant_id id (priority i.keys)
                  (priority j.keys) s.correlation apart
                ∙ h.matched;
            stored = ground (
              arith,
              h.stored,
              lookup-insert id c.case_id (new_case id now j) s.cases,
              eq_iff id c.case_id,
            );
          }))
      | inr (d, found) ↦ rw found (record {
        matched =
            first_match-register_correlations i.tenant_id j.tenant_id d.case_id (priority i.keys)
              (priority j.keys) s.correlation apart
            ∙ h.matched;
        stored = h.stored;
      })
    ]

-- the events resolved one after the other, each with the id and the time drawn for it
unfoldable pub resolve_all : List (String × String × Intake) → CaseStore → CaseStore
resolve_all [] s = s
resolve_all ((id, now, j) ∷ js) s = resolve_all js (lookup_or_create id now j s).1

-- each of the events spares the case, in the store that it meets
unfoldable pub AllSpare : Intake → OrderCase → List (String × String × Intake) → CaseStore → Type 0
AllSpare i c [] s = Unit
AllSpare i c ((id, now, j) ∷ js) s =
    SparesCase i c id j s × AllSpare i c js (lookup_or_create id now j s).1

resolve_all-IsFiled :
    (i : Intake) (c : OrderCase) (js : List (String × String × Intake)) (s : CaseStore)
    → AllSpare i c js s
    → IsFiled i c s
    → IsFiled i c (resolve_all js s)
unfolding resolve_all AllSpare
resolve_all-IsFiled i c [] s a h = h
resolve_all-IsFiled i c ((id, now, j) ∷ js) s a h =
    resolve_all-IsFiled i c js (lookup_or_create id now j s).1 a.1
      (lookup_or_create-spares i c id now j s a.0 h)

-- In a sound store, an event that carries a key and comes again, after any other events were resolved, is
-- attached to the case that it was resolved to first, and opens no second one; given that each of the
-- events in between was resolved to that case too, or shared no key with it and drew another id than the
-- case's. (An event that carries keys of two cases can move a key from one to the other.)
pub lookup_or_create_again :
    (id now id' now' : String) (i : Intake) (js : List (String × String × Intake)) (s : CaseStore)
    → IsSound s
    → has_key i.keys ≡ true
    → let ((c, fresh), s') = lookup_or_create id now i s in
      AllSpare i c js s' → (lookup_or_create id' now' i (resolve_all js s')).0 ≡ (c, false)
unfolding open_or_attach
lookup_or_create_again id now id' now' i js s sound h spared =
    let ((c, fresh), s') = lookup_or_create id now i s in
    let found =
      IsFiled-find i c (resolve_all js s')
        (resolve_all-IsFiled i c js s' spared (lookup_or_create-IsFiled id now i s sound h)) in
    unfold lookup_or_create in (rw found refl)
