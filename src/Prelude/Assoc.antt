-- ===== src/Prelude/Assoc.antt =====
-- A dict whose keys are compared by a test of the program's own, as an association list.
use asoe.Prelude.{
  ◌≡◌, refl, ◌↔◌, Bool, true, false, ◌⊎◌, Option, none, some, List, [], ◌∷◌, arith, if◌then◌else◌,
  Bool-cases, inl, inr, All, subst, keep_if,
}

module _ {ℓ κ} {K : Type ℓ} {V : Type κ} (same : K → K → Bool) where
  -- `d.get(k)`
  abbrev pub get_key : K → List (K × V) → Option V
  get_key k [] = none
  get_key k ((j, v) ∷ d) = if same j k then some v else get_key k d

  -- `d[k] = v`
  abbrev pub put_key : K → V → List (K × V) → List (K × V)
  put_key k v [] = (k, v) ∷ []
  put_key k v ((j, w) ∷ d) = if same j k then (j, v) ∷ d else (j, w) ∷ put_key k v d

  module _ (same_iff : (j k : K) → (same j k ≡ true) ↔ (j ≡ k)) where
    pub get_key-put_key :
        (k j : K) (v : V) (d : List (K × V))
        → get_key j (put_key k v d) ≡ (if same k j then some v else get_key j d)
    get_key-put_key k j v [] = refl
    get_key-put_key k j v ((i, w) ∷ d) =
        ground (arith, same_iff k j, same_iff i k, same_iff i j, get_key-put_key k j v d)

    pub get_key-put_key_self :
        (k : K) (v : V) (d : List (K × V)) → get_key k (put_key k v d) ≡ some v
    get_key-put_key_self k v d = rw (get_key-put_key k k v d, (same_iff k k).1 refl) refl

module _ {ℓ κ μ} {K : Type ℓ} {V : Type κ} (P : K × V → Type μ) where
  pub All-put_key :
      (same : K → K → Bool)
      → ((j k : K) (v : V) → same j k ≡ true → P (k, v) → P (j, v))
      → (k : K) (v : V) (d : List (K × V)) → P (k, v)
      → All P d
      → All P (put_key same k v d)
  All-put_key same move k v [] p h = (p, tt)
  All-put_key same move k v ((j, w) ∷ d) p h = elim (Bool-cases (same j k)) [
    | inl hit ↦ rw hit (move j k v hit p, h.1)
    | inr miss ↦ rw miss (h.0, All-put_key same move k v d p h.1)
  ]

  pub All-get_key :
      (same : K → K → Bool) (k : K) (v : V) (d : List (K × V))
      → ((j : K) → same j k ≡ true → P (j, v) → P (k, v))
      → All P d
      → get_key same k d ≡ some v
      → P (k, v)
  All-get_key same k v ((j, w) ∷ d) move h e = elim (Bool-cases (same j k)) [
    | inl hit ↦
        let found : some w ≡ some v = rw hit at e in
        let eq : w ≡ v = cc in move j hit (subst (λ x. P (j, x)) eq h.0)
    | inr miss ↦ All-get_key same k v d move h.1 (rw miss at e)
  ]
  All-get_key same k v [] move h e = cc

module _ {ℓ μ} {A : Type ℓ} (P : A → Type μ) where
  pub All-keep_if : (test : A → Bool) (l : List A) → All P l → All P (keep_if test l)
  All-keep_if test [] h = h
  All-keep_if test (x ∷ l) h = elim (Bool-cases (test x)) [
    | inl kept ↦ rw kept (h.0, All-keep_if test l h.1)
    | inr gone ↦ rw gone (All-keep_if test l h.1)
  ]

  pub keep_if-All :
      (test : A → Bool) (l : List A) → All (λ x. P x ⊎ (test x ≡ false)) l → All P (keep_if test l)
  keep_if-All test [] h = tt
  keep_if-All test (x ∷ l) h = elim (Bool-cases (test x)) [
    | inl kept ↦ rw kept (elim h.0 [ inl p ↦ p | inr n ↦ absurd (cc) ], keep_if-All test l h.1)
    | inr gone ↦ rw gone (keep_if-All test l h.1)
  ]

pub All-mono {ℓ μ ν} :
    {A : Type ℓ} (P : A → Type μ) (Q : A → Type ν) (l : List A)
    → ((x : A) → P x → Q x)
    → All P l
    → All Q l
All-mono P Q [] f h = tt
All-mono P Q (x ∷ l) f h = (f x h.0, All-mono P Q l f h.1)
