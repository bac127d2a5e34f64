-- ===== src/Recipes/Pallets/Examples.antt =====
-- recipes/PalletAlignmentRecipe.py on a pallet of 40 cases in layers of 10, at a least fill of 50 %.
use asoe.Prelude.{◌≤◌, ◌≡◌, refl, some, [], ◌∷◌, map, round_half_even}
use asoe.Recipes.{complete, review_required}
use asoe.Recipes.Pallets.{
  PalletLine, no_violation, align_pallets, scan_lines, scan_line, align_line, violation_of,
  target_qty, outcome_of,
}
use asoe.Recipes.Pallets.Plan.{apply_plan, apply_plan-settles}

-- a pallet, a layer and seven cases
abbrev broken_line : PalletLine
broken_line = record {
  sku = "A";
  layer_qty = 10000000;
  pallet_qty = 40000000;
  ordered_qty = 57000000;
}

-- its plan leaves a pallet and a layer, which is a partial pallet: one round does not settle it
one_round :
    (align_pallets 500000 (map (apply_plan 500000) (broken_line ∷ []))).status ≡ review_required
unfolding align_pallets scan_lines scan_line align_line violation_of target_qty outcome_of
    round_half_even
one_round = refl

apply_plan-settles_example :
    ((apply_plan 500000 broken_line).ordered_qty ≤ 57000000)
    × ((align_pallets 500000
          (map (λ x. apply_plan 500000 (apply_plan 500000 x)) (broken_line ∷ []))).status
        ≡ complete)
    × ((align_pallets 500000
          (map (λ x. apply_plan 500000 (apply_plan 500000 x)) (broken_line ∷ []))).classification
        ≡ some no_violation)
apply_plan-settles_example = apply_plan-settles 500000 broken_line []
