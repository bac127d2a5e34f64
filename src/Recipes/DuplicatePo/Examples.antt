-- ===== src/Recipes/DuplicatePo/Examples.antt =====
-- Runs of recipes/DuplicatePORecipe.py at the platform's weights and thresholds.
use asoe.Prelude.{◌≤◌, ◌≡◌, refl, arith, true, none, some, [], ◌∷◌}
use asoe.Prelude.Int.{ℤ, pos, ◌+ℤ◌, ◌-ℤ◌, ◌≤ℤ◌}
use asoe.Prelude.Dict.{Dict}
use asoe.Prelude.Results.{ok}
use asoe.Recipes.DuplicatePo.{
  default_weights, contribution, breakdown_of, sum_of, resolve_action, assert_weight_contract,
  key_set_mismatch, classify_score, auto_block, review_required, supersede, allow_both,
  DuplicateInput, DuplicateOutcome, ResolutionContext, detect_duplicate_po, outcome_of,
}
use asoe.Recipes.DuplicatePo.Monotone.{ScoresLess, severity, detect_duplicate_po_mono}

abbrev no_context : ResolutionContext
no_context = record {
  original_fulfilled = none;
  has_revision_indicator = none;
  line_items_identical = none;
}

abbrev platform : DuplicateInput
platform = record {
  incoming_po_number = "PO-1";
  customer_id = "C-1";
  thresholds = record {
    threshold_auto_block = pos 900000;
    threshold_review_required = pos 700000;
    threshold_soft_flag = pos 500000;
  };
  context = no_context;
  autonomy_levels = some (("ESCALATE", "L4") ∷ []);
  weights = none;
}

-- the same number, party, lines and amount
abbrev similar : Dict ℤ
similar =
    ("po_number", pos 1000000)
    ∷ ("customer_id", pos 1000000)
    ∷ ("line_items", pos 1000000)
    ∷ ("amount", pos 550000)
    ∷ []

abbrev unscored : Dict ℤ
unscored = []

more_similar : ScoresLess unscored similar
more_similar = λ k. ground arith

abbrev found : DuplicateOutcome
found = outcome_of platform (breakdown_of default_weights unscored)

detect_duplicate_po-mono_example :
    (r : DuplicateOutcome) × ((detect_duplicate_po platform similar ≡ ok r)
      × ((found.composite_score ≤ℤ r.composite_score)
          × (severity found.classification ≤ severity r.classification)))
unfolding detect_duplicate_po assert_weight_contract sum_of ◌-ℤ◌ ◌+ℤ◌
detect_duplicate_po-mono_example =
    detect_duplicate_po_mono platform unscored similar found more_similar refl

similar_score : sum_of (breakdown_of default_weights similar) ≡ pos 705000
unfolding breakdown_of sum_of contribution ◌+ℤ◌
similar_score = refl

similar_review : classify_score platform.thresholds (pos 705000) ≡ review_required
unfolding classify_score
similar_review = refl

revised_superseded :
    resolve_action review_required (record no_context { has_revision_indicator = some true })
    ≡ supersede
unfolding resolve_action
revised_superseded = refl

fulfilled_allowed :
    resolve_action auto_block
      (record no_context { line_items_identical = some true; original_fulfilled = some true })
    ≡ allow_both
unfolding resolve_action
fulfilled_allowed = refl

-- the keys are checked before the range of a weight
weight_keys : assert_weight_contract (("po_number", pos 2000000) ∷ []) ≡ some key_set_mismatch
unfolding assert_weight_contract
weight_keys = refl
