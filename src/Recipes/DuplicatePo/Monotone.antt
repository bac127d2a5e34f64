-- ===== src/Recipes/DuplicatePo/Monotone.antt =====
-- recipes/DuplicatePORecipe.py: the composite score and the class, as functions of the signals' scores.
use asoe.Prelude.{
  ℕ, ◌≤◌, ◌≡◌, refl, inl, inr, arith, String, true, Option, none, some, [], ◌∷◌, All, Bool-cases,
  Option-cases, leb,
}
use asoe.Prelude.Int.{ℤ, pos, negsuc, ◌+ℤ◌, ◌-ℤ◌, ◌≤ℤ◌, abs_ℤ}
use asoe.Prelude.Dict.{Dict}
use asoe.Prelude.Results.{ok, err}
use asoe.Recipes.DuplicatePo.{
  is_weight, first_outside, check_range, check_sum, sum_of, same_keys, assert_weight_contract,
  contribution, score_of, breakdown_of, DuplicateClass, auto_block, review_required, soft_flag,
  pass, Thresholds, classify_score, DuplicateInput, DuplicateOutcome, effective_weights, outcome_of,
  detect_duplicate_po,
}
use asoe.Recipes.DuplicatePo.Score.{contribution_bounds, contribution_mono}

abbrev pub AreWeights : Dict ℤ → Type 0
AreWeights w = All (λ e. is_weight e.1 ≡ true) w

-- no signal scores less in the one than in the other
abbrev pub ScoresLess : Dict ℤ → Dict ℤ → Type 0
ScoresLess s s' = (k : String) → score_of s k ≤ℤ score_of s' k

abbrev pub IsScore : ℤ → Type 0
IsScore x = (pos 0 ≤ℤ x) × (x ≤ℤ pos 1000000)

abbrev pub severity : DuplicateClass → ℕ
severity auto_block = 3
severity review_required = 2
severity soft_flag = 1
severity pass = 0

add_mono : (a a' b b' : ℤ) → a ≤ℤ a' → b ≤ℤ b' → (a +ℤ b) ≤ℤ (a' +ℤ b')
unfolding ◌+ℤ◌
add_mono a a' b b' h k = ground (arith, h, k)

first_outside-AreWeights : (w : Dict ℤ) → first_outside w ≡ none → AreWeights w
first_outside-AreWeights [] h = tt
first_outside-AreWeights ((k, x) ∷ w) h = elim (Bool-cases (is_weight x)) [
  | inl yes_now ↦ (yes_now, first_outside-AreWeights w (rw yes_now at h))
  | inr no_now ↦ absurd (ground (arith, no_now, h))
]

near-one : (z : ℤ) → leb (abs_ℤ (z -ℤ pos 1000000)) 100 ≡ true → z ≤ℤ pos 1000100
unfolding ◌-ℤ◌
near-one z h = ground (arith, h)

check_sum-le : (w : Dict ℤ) → check_sum w ≡ none → sum_of w ≤ℤ pos 1000100
check_sum-le w h = elim (Bool-cases (leb (abs_ℤ (sum_of w -ℤ pos 1000000)) 100)) [
  | inl near ↦ near-one (sum_of w) near
  | inr far ↦ absurd (ground (arith, far, h))
]

check_range-clean :
    (w : Dict ℤ) (o : Option String)
    → check_range w o ≡ none
    → (o ≡ none) × (sum_of w ≤ℤ pos 1000100)
check_range-clean w none h = (refl, check_sum-le w h)
check_range-clean w (some k) h = absurd (ground (arith, h))

contract-AreWeights :
    (w : Dict ℤ) → assert_weight_contract w ≡ none → AreWeights w × (sum_of w ≤ℤ pos 1000100)
unfolding assert_weight_contract
contract-AreWeights w h = elim (Bool-cases (same_keys w)) [
  | inl same ↦
      let (clean, below) = check_range-clean w (first_outside w) (rw same at h) in
      (first_outside-AreWeights w clean, below)
  | inr other ↦ absurd (ground (arith, other, h))
]

contribution_weight_mono :
    (x s s' : ℤ) → is_weight x ≡ true → s ≤ℤ s' → contribution x s ≤ℤ contribution x s'
contribution_weight_mono (pos n) s s' w h = contribution_mono n s s' h
contribution_weight_mono (negsuc n) s s' w h = absurd (ground (arith, w))

contribution_weight_bounds :
    (x s : ℤ)
    → is_weight x ≡ true
    → IsScore s
    → (pos 0 ≤ℤ contribution x s) × (contribution x s ≤ℤ x)
contribution_weight_bounds (pos n) (pos a) w h = contribution_bounds n a (omega (arith, h.1))
contribution_weight_bounds (pos n) (negsuc a) w h = absurd (omega (arith, h.0))
contribution_weight_bounds (negsuc n) s w h = absurd (ground (arith, w))

breakdown_mono :
    (w s s' : Dict ℤ)
    → AreWeights w
    → ScoresLess s s'
    → sum_of (breakdown_of w s) ≤ℤ sum_of (breakdown_of w s')
unfolding breakdown_of sum_of
breakdown_mono [] s s' a h = omega arith
breakdown_mono ((k, x) ∷ w) s s' a h =
    add_mono _ _ _ _ (contribution_weight_mono x (score_of s k) (score_of s' k) a.0 (h k))
      (breakdown_mono w s s' a.1 h)

breakdown_bounds :
    (w s : Dict ℤ)
    → AreWeights w
    → ((k : String) → IsScore (score_of s k))
    → (pos 0 ≤ℤ sum_of (breakdown_of w s)) × (sum_of (breakdown_of w s) ≤ℤ sum_of w)
unfolding breakdown_of sum_of ◌+ℤ◌
breakdown_bounds [] s a h = (omega arith, omega arith)
breakdown_bounds ((k, x) ∷ w) s a h =
    let one = contribution_weight_bounds x (score_of s k) a.0 (h k) in
    let rest = breakdown_bounds w s a.1 h in
    (add_mono (pos 0) _ (pos 0) _ one.0 rest.0, add_mono _ _ _ _ one.1 rest.1)

classify_score_mono :
    (t : Thresholds) (a b : ℤ)
    → a ≤ℤ b
    → severity (classify_score t a) ≤ severity (classify_score t b)
unfolding classify_score
classify_score_mono t a b h = ground (arith, h)

-- a detection that does not fail
detected :
    (i : DuplicateInput) (s : Dict ℤ) (r : DuplicateOutcome)
    → detect_duplicate_po i s ≡ ok r
    → (assert_weight_contract (effective_weights i) ≡ none)
      × (r ≡ outcome_of i (breakdown_of (effective_weights i) s))
unfolding detect_duplicate_po
detected i s r e = elim (Option-cases (assert_weight_contract (effective_weights i))) [
  | inl held ↦
      let at : ok (outcome_of i (breakdown_of (effective_weights i) s)) ≡ ok r =
        rw (held, detect_duplicate_po) at e in
      (held, cc)
  | inr (v, broken) ↦
      let at : err v ≡ ok r = rw (broken, detect_duplicate_po) at e in absurd (ground (arith, at))
]

-- Where the weights are within the contract, raising the scores of signals never lowers the composite score
-- and never makes the class milder, and the detection does not fail.
pub detect_duplicate_po_mono :
    (i : DuplicateInput) (s s' : Dict ℤ) (r : DuplicateOutcome)
    → ScoresLess s s'
    → detect_duplicate_po i s ≡ ok r
    → (r' : DuplicateOutcome) × ((detect_duplicate_po i s' ≡ ok r')
        × ((r.composite_score ≤ℤ r'.composite_score)
            × (severity r.classification ≤ severity r'.classification)))
unfolding detect_duplicate_po outcome_of
detect_duplicate_po_mono i s s' r h e =
    let (held, same) = detected i s r e in
    let w = effective_weights i in
    let le = breakdown_mono w s s' (contract-AreWeights w held).0 h in
    rw (held, detect_duplicate_po, same)
      (outcome_of i (breakdown_of w s'), (refl, (le, classify_score_mono i.thresholds _ _ le)))

-- Where every signal scores between 0 and 1, the composite score of a detection that does not fail lies
-- between 0 and 1.0001.
pub detect_duplicate_po_bounds :
    (i : DuplicateInput) (s : Dict ℤ) (r : DuplicateOutcome)
    → ((k : String) → IsScore (score_of s k))
    → detect_duplicate_po i s ≡ ok r
    → (pos 0 ≤ℤ r.composite_score) × (r.composite_score ≤ℤ pos 1000100)
unfolding outcome_of
detect_duplicate_po_bounds i s r h e =
    let (held, same) = detected i s r e in
    let w = effective_weights i in
    let (weights, below) = contract-AreWeights w held in
    let (lo, hi) = breakdown_bounds w s weights h in rw same (lo, omega (arith, hi, below))
