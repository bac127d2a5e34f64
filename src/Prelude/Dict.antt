-- ===== src/Prelude/Dict.antt =====
-- A Python dict with text keys: an association list in insertion order.
use asoe.Prelude.{
  String, ◌≡◌, refl, Option, none, some, List, [], ◌∷◌, arith, str_eq, eq_iff, if◌then◌else◌, false,
  not, inl, inr, Bool-cases, All, subst, sym, keep_if,
}

abbrev pub Dict {ℓ} : Type ℓ → Type ℓ
Dict V = List (String × V)

module _ {ℓ} {V : Type ℓ} where
  -- `d.get(k)`
  abbrev pub lookup : String → Dict V → Option V
  lookup k [] = none
  lookup k ((j, v) ∷ d) = if str_eq j k then some v else lookup k d

  -- `d[k] = v`
  abbrev pub insert : String → V → Dict V → Dict V
  insert k v [] = (k, v) ∷ []
  insert k v ((j, w) ∷ d) = if str_eq j k then (j, v) ∷ d else (j, w) ∷ insert k v d

  pub lookup-insert :
      (k j : String) (v : V) (d : Dict V)
      → lookup j (insert k v d) ≡ (if str_eq k j then some v else lookup j d)
  lookup-insert k j v [] = refl
  lookup-insert k j v ((i, w) ∷ d) =
      ground (arith, eq_iff k j, eq_iff i k, eq_iff i j, lookup-insert k j v d)

  -- `d.pop(k, None)` leaves every other key alone
  pub lookup-keep_if :
      (k j : String) (d : Dict V)
      → str_eq j k ≡ false
      → lookup j (keep_if (λ e. not (str_eq e.0 k)) d) ≡ lookup j d
  lookup-keep_if k j [] h = refl
  lookup-keep_if k j ((i, w) ∷ d) h =
      ground (arith, eq_iff i k, eq_iff i j, eq_iff j k, lookup-keep_if k j d h)

module _ {ℓ μ} {V : Type ℓ} (P : String × V → Type μ) where
  pub All-insert : (k : String) (v : V) (d : Dict V) → P (k, v) → All P d → All P (insert k v d)
  All-insert k v [] p h = (p, tt)
  All-insert k v ((j, w) ∷ d) p h = elim (Bool-cases (str_eq j k)) [
    | inl hit ↦ rw hit (subst (λ x. P (x, v)) (sym ((eq_iff j k).0 hit)) p, h.1)
    | inr miss ↦ rw miss (h.0, All-insert k v d p h.1)
  ]

  pub All-lookup : (k : String) (v : V) (d : Dict V) → All P d → lookup k d ≡ some v → P (k, v)
  All-lookup k v [] h e = cc
  All-lookup k v ((j, w) ∷ d) h e = elim (Bool-cases (str_eq j k)) [
    | inl hit ↦
        let found : some w ≡ some v = rw hit at e in
        let same : w ≡ v = cc in
        subst (λ x. P (x, v)) ((eq_iff j k).0 hit) (subst (λ x. P (j, x)) same h.0)
    | inr miss ↦ All-lookup k v d h.1 (rw miss at e)
  ]
