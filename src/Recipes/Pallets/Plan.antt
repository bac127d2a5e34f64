-- ===== src/Recipes/Pallets/Plan.antt =====
-- The plans of recipes/PalletAlignmentRecipe.py, applied to the lines that they are for.
use asoe.Prelude.{
  ℕ, ◌+◌, ◌*◌, ◌/◌, ◌%◌, ◌≤◌, ◌<◌, ◌≡◌, ◌⊎◌, inl, inr, refl, ap, ◌∙◌, Option, none, some, arith,
  Bool, true, false, ◌||◌, ◌==◌, List, ◌∷◌, [], map, Bool-cases,
}
use asoe.Recipes.Pallets.{
  PalletLine, Violation, broken_layer, partial_pallet, residual, layers_of, loose, violation_of,
  target_qty, align_line, invalid_pallet_spec, is_broken, is_partial, PalletScan, scan_line,
  scan_lines, no_violation, start, outcome_of, align_pallets,
}
use asoe.Recipes.{complete}
use native.Mathlib.Nat.{
  div-add-mod', div-mul-le_self, mod-lt, mul-mod_left, add-mul-mod_self_right, mod-eq_of_lt,
  add_comm,
}

-- the plan of a line with a pallet and a layer above zero
abbrev replan : ℕ → PalletLine → PalletLine
replan min_fill l = record l { ordered_qty = target_qty l (violation_of min_fill l) }

residual-mod : (l : PalletLine) → residual l ≡ l.ordered_qty % l.pallet_qty
residual-mod l = omega (arith, div-add-mod' l.ordered_qty l.pallet_qty)

loose-mod : (l : PalletLine) → loose l ≡ residual l % l.layer_qty
loose-mod l = omega (arith, div-add-mod' (residual l) l.layer_qty)

violation_of-cases :
    (m : ℕ) (l : PalletLine)
    → (violation_of m l ≡ none)
      ⊎ ((violation_of m l ≡ some partial_pallet) ⊎ (violation_of m l ≡ some broken_layer))
unfolding violation_of
violation_of-cases m l = ground arith

whole-none : (m : ℕ) (l : PalletLine) → residual l ≡ 0 → violation_of m l ≡ none
unfolding violation_of
whole-none m l h = ground (arith, h)

tight-cases :
    (m : ℕ) (l : PalletLine)
    → loose l ≡ 0
    → (violation_of m l ≡ none) ⊎ (violation_of m l ≡ some partial_pallet)
unfolding violation_of
tight-cases m l h = ground (arith, h)

-- whole pallets leave no residual
whole-residual :
    (l : PalletLine) (a : ℕ) → residual (record l { ordered_qty = a * l.pallet_qty }) ≡ 0
whole-residual l a =
    residual-mod (record l { ordered_qty = a * l.pallet_qty }) ∙ mul-mod_left a l.pallet_qty

-- whole layers that fill no pallet are the residual on top of whole pallets
layers-residual :
    (l : PalletLine) (a b : ℕ)
    → b * l.layer_qty < l.pallet_qty
    → residual (record l { ordered_qty = a * l.pallet_qty + b * l.layer_qty }) ≡ b * l.layer_qty
layers-residual l a b h =
    let p = l.pallet_qty in
    let k = b * l.layer_qty in
    residual-mod (record l { ordered_qty = a * p + k })
    ∙ ap (λ q. q % p) (add_comm (a * p) k)
    ∙ add-mul-mod_self_right k a p
    ∙ mod-eq_of_lt h

-- and none of it is loose
layers-loose :
    (l : PalletLine) (a b : ℕ)
    → b * l.layer_qty < l.pallet_qty
    → loose (record l { ordered_qty = a * l.pallet_qty + b * l.layer_qty }) ≡ 0
layers-loose l a b h =
    loose-mod (record l { ordered_qty = a * l.pallet_qty + b * l.layer_qty })
    ∙ ap (λ r. r % l.layer_qty) (layers-residual l a b h)
    ∙ mul-mod_left b l.layer_qty

replan-none : (m : ℕ) (l : PalletLine) → violation_of m l ≡ none → replan m l ≡ l
unfolding target_qty
replan-none m l h = ap (λ v. record l { ordered_qty = target_qty l v }) h

replan-partial :
    (m : ℕ) (l : PalletLine)
    → violation_of m l ≡ some partial_pallet
    → violation_of m (replan m l) ≡ none
unfolding target_qty
replan-partial m l h = rw (h) (
    whole-none m (record l { ordered_qty = l.ordered_qty / l.pallet_qty * l.pallet_qty })
      (whole-residual l (l.ordered_qty / l.pallet_qty)))

replan-broken :
    (m : ℕ) (l : PalletLine)
    → 0 < l.pallet_qty
    → violation_of m l ≡ some broken_layer
    → loose (replan m l) ≡ 0
unfolding target_qty
replan-broken m l p h = rw (h) (
    layers-loose l (l.ordered_qty / l.pallet_qty) (layers_of l) (
      omega
        (arith, div-mul-le_self (residual l) l.layer_qty, residual-mod l, mod-lt l.ordered_qty p)))

replan-settled :
    (m : ℕ) (l : PalletLine) → violation_of m l ≡ none → violation_of m (replan m l) ≡ none
replan-settled m l h = ap (violation_of m) (replan-none m l h) ∙ h

replan-tight : (m : ℕ) (l : PalletLine) → loose l ≡ 0 → violation_of m (replan m l) ≡ none
replan-tight m l h = elim (tight-cases m l h) [
  | inl settled ↦ replan-settled m l settled
  | inr partial ↦ replan-partial m l partial
]

replan-settles :
    (m : ℕ) (l : PalletLine) → 0 < l.pallet_qty → violation_of m (replan m (replan m l)) ≡ none
replan-settles m l p = elim (violation_of-cases m l) [
  | inl settled ↦ replan-settled m (replan m l) (replan-settled m l settled)
  | inr (inl partial) ↦ replan-settled m (replan m l) (replan-partial m l partial)
  | inr (inr broken) ↦ replan-tight m (replan m l) (replan-broken m l p broken)
]

-- the line once its plan is applied, before the plan is rounded to three decimals
abbrev pub apply_plan : ℕ → PalletLine → PalletLine
apply_plan m l = record l { ordered_qty = target_qty l (align_line m l).violation_type }

abbrev is_invalid : PalletLine → Bool
is_invalid l = l.pallet_qty == 0 || l.layer_qty == 0

valid-violation :
    (m : ℕ) (l : PalletLine)
    → is_invalid l ≡ false
    → (align_line m l).violation_type ≡ violation_of m l
unfolding align_line
valid-violation m l h = rw (h) refl

invalid-violation :
    (m : ℕ) (l : PalletLine)
    → is_invalid l ≡ true
    → (align_line m l).violation_type ≡ some invalid_pallet_spec
unfolding align_line
invalid-violation m l h = rw (h) refl

apply_plan-valid : (m : ℕ) (l : PalletLine) → is_invalid l ≡ false → apply_plan m l ≡ replan m l
apply_plan-valid m l h = ap (λ v. record l { ordered_qty = target_qty l v }) (valid-violation m l h)

apply_plan-invalid : (m : ℕ) (l : PalletLine) → is_invalid l ≡ true → apply_plan m l ≡ l
unfolding target_qty
apply_plan-invalid m l h =
    ap (λ v. record l { ordered_qty = target_qty l v }) (invalid-violation m l h)

twice-valid :
    (m : ℕ) (l : PalletLine)
    → is_invalid l ≡ false
    → (align_line m (apply_plan m (apply_plan m l))).violation_type ≡ none
twice-valid m l h =
    ap (λ x. (align_line m (apply_plan m x)).violation_type) (apply_plan-valid m l h)
    ∙ ap (λ x. (align_line m x).violation_type) (apply_plan-valid m (replan m l) h)
    ∙ valid-violation m (replan m (replan m l)) h
    ∙ replan-settles m l (ground (arith, h))

twice-invalid :
    (m : ℕ) (l : PalletLine)
    → is_invalid l ≡ true
    → (align_line m (apply_plan m (apply_plan m l))).violation_type ≡ some invalid_pallet_spec
twice-invalid m l h =
    ap (λ x. (align_line m (apply_plan m x)).violation_type) (apply_plan-invalid m l h)
    ∙ ap (λ x. (align_line m x).violation_type) (apply_plan-invalid m l h)
    ∙ invalid-violation m l h

abbrev IsQuiet : Option Violation → Type 0
IsQuiet v = (is_broken v ≡ false) × (is_partial v ≡ false)

twice-IsQuiet :
    (m : ℕ) (l : PalletLine) → IsQuiet (align_line m (apply_plan m (apply_plan m l))).violation_type
twice-IsQuiet m l = elim (Bool-cases (is_invalid l)) [
  | inl invalid ↦ rw (twice-invalid m l invalid) (refl, refl)
  | inr valid ↦ rw (twice-valid m l valid) (refl, refl)
]

scan_lines-quiet :
    (m : ℕ) (ls : List PalletLine) (s : PalletScan)
    → (s.has_broken ≡ false) × (s.has_partial ≡ false)
    → ((scan_lines m (map (λ l. apply_plan m (apply_plan m l)) ls) s).has_broken ≡ false)
      × ((scan_lines m (map (λ l. apply_plan m (apply_plan m l)) ls) s).has_partial ≡ false)
unfolding scan_lines scan_line
scan_lines-quiet m [] s h = h
scan_lines-quiet m (l ∷ ls) s h =
    let quiet = twice-IsQuiet m l in
    scan_lines-quiet m ls (scan_line m (apply_plan m (apply_plan m l)) s)
      (rw (h.0, quiet.0) refl, rw (h.1, quiet.1) refl)

target_qty-le : (l : PalletLine) (v : Option Violation) → target_qty l v ≤ l.ordered_qty
unfolding target_qty
target_qty-le l (some broken_layer) =
    omega
      (arith, div-mul-le_self (residual l) l.layer_qty, div-mul-le_self l.ordered_qty l.pallet_qty)
target_qty-le l (some partial_pallet) = div-mul-le_self l.ordered_qty l.pallet_qty
target_qty-le l (some invalid_pallet_spec) = omega arith
target_qty-le l none = omega arith

-- The plan of a line never adds to what is ordered, and an order of one line or more whose lines have
-- had their plans applied twice, before their rounding, is judged complete and without a violation.
pub apply_plan-settles :
    (m : ℕ) (l : PalletLine) (ls : List PalletLine)
    → ((apply_plan m l).ordered_qty ≤ l.ordered_qty)
      × ((align_pallets m (map (λ x. apply_plan m (apply_plan m x)) (l ∷ ls))).status ≡ complete)
      × ((align_pallets m (map (λ x. apply_plan m (apply_plan m x)) (l ∷ ls))).classification
          ≡ some no_violation)
unfolding align_pallets outcome_of
apply_plan-settles m l ls =
    let quiet = scan_lines-quiet m (l ∷ ls) start (refl, refl) in
    (
      target_qty-le l (align_line m l).violation_type,
      rw (quiet.0, quiet.1) refl,
      rw (quiet.0, quiet.1) refl,
    )
