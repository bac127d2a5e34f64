-- ===== src/Pipeline/Policy/Agreement.antt =====
-- The shadow's policies (constraints/fallback_backend.py) beside the recipes that they judge
-- (recipes/), and the limits behind a GREEN.
use asoe.Prelude.{
  String, eq_iff, ℕ, ◌≤◌, ◌<◌, ◌≡◌, ◌≢◌, Bool, true, false, inl, inr, arith, Bool-cases,
}
use asoe.Prelude.Dict.{Dict}
use asoe.Value.{Value, str}
use asoe.Recipes.EdiMismatch.{detect_edi_mismatch, classified}
use asoe.Prelude.Int.{ℤ, pos, ◌-ℤ◌, leb_ℤ}
use asoe.Pipeline.{
  Intent, contractual_correction, credit_block, mass_pricing_error, duplicate_po,
  price_hold_release, edi_mismatch, back_order, over_max, min_order_qty, pallet_config,
  delivery_delay, manual_order_intake, unknown, ShadowStatus, green, yellow, red, GraphState,
}
use asoe.Pipeline.Services.{Services}
use asoe.Pipeline.Policy.{
  shadow_for_price_hold, shadow_for_edi_mismatch, shadow_for_back_order, shadow_for_over_max,
  shadow_for_moq, shadow_for_intent, shadow_decision, is_mass_error,
}
use asoe.Recipes.{
  RecipeStatus, released, review_required, rejected, failed, complete, escalate,
  execute_price_hold_release, round_up_moq, shortfall_outcome,
}

-- the verdict that goes with a recipe's status
abbrev pub verdict_for : RecipeStatus → ShadowStatus
verdict_for released = green
verdict_for complete = green
verdict_for review_required = yellow
verdict_for rejected = red
verdict_for failed = red
verdict_for escalate = red

-- At the default tolerance and for a base price above zero, the shadow and the recipe judge a price
-- hold alike: GREEN where the recipe releases, YELLOW where it asks for review, RED where it rejects.
pub price_hold-agrees :
    (po base : ℤ)
    → leb_ℤ base (pos 0) ≡ false
    → verdict_for (execute_price_hold_release po base 20000 100000 "HELD").status
      ≡ (shadow_for_price_hold po base).status
unfolding execute_price_hold_release shadow_for_price_hold
price_hold-agrees po base h = ground (arith, h)

-- For a minimum quantity above zero and an ordered quantity that is not negative, the shadow and the
-- recipe judge a shortfall alike: GREEN where there is none, RED where the recipe escalates, YELLOW
-- where it asks for review.
pub moq-agrees :
    (ordered moq : ℕ) (cost : ℤ)
    → 0 < moq
    → verdict_for (round_up_moq (pos ordered) (pos moq) cost 250000).status
      ≡ (shadow_for_moq (pos ordered) (pos moq)).status
unfolding round_up_moq shadow_for_moq shortfall_outcome ◌-ℤ◌
moq-agrees ordered moq cost h = ground (arith, h)

-- On every sub_type the shadow and the recipe judge a line mismatch alike: YELLOW where the recipe
-- asks for review, RED where it rejects or fails.
pub edi_mismatch-agrees :
    (order_id sub_type : String) (expected received : Value) (levels : Dict String)
    → verdict_for (detect_edi_mismatch order_id sub_type expected received levels).status
      ≡ (shadow_for_edi_mismatch (str sub_type)).status
unfolding detect_edi_mismatch classified shadow_for_edi_mismatch
edi_mismatch-agrees order_id sub_type expected received levels = ground (
  arith,
  eq_iff "SKU_MISMATCH" sub_type,
  eq_iff sub_type "SKU_MISMATCH",
  eq_iff "QTY_MISMATCH" sub_type,
  eq_iff sub_type "QTY_MISMATCH",
  eq_iff "UOM_MISMATCH" sub_type,
  eq_iff sub_type "UOM_MISMATCH",
  eq_iff "SHIP_TO_MISMATCH" sub_type,
  eq_iff sub_type "SHIP_TO_MISMATCH",
)

-- A GREEN of the deterministic shadow stands for a batch within $10,000, for ten lines at most, and
-- for an intent that is not a mass pricing error.
pub shadow_decision-green :
    (v : Services) (s : GraphState)
    → (shadow_decision v s).status ≡ green
    → (s.batch_total_variance ≤ 10000000000)
      × (s.event.line_count ≤ 10)
      × (is_mass_error s.intent ≡ false)
unfolding shadow_decision
shadow_decision-green v s h = (ground (arith, h), ground (arith, h), ground (arith, h))

-- the intents that always wait for a person
abbrev pub always_reviewed : Intent → Bool
always_reviewed credit_block = true
always_reviewed mass_pricing_error = true
always_reviewed edi_mismatch = true
always_reviewed back_order = true
always_reviewed over_max = true
always_reviewed pallet_config = true
always_reviewed _ = false

reviewed-status :
    (v : Services) (s : GraphState) (i : Intent)
    → always_reviewed i ≡ true
    → is_mass_error i ≡ false
    → (shadow_for_intent v s i).status ≢ green
unfolding shadow_for_intent shadow_for_edi_mismatch shadow_for_back_order shadow_for_over_max ◌-ℤ◌
reviewed-status v s credit_block h m = λ g. ground (arith, g)
reviewed-status v s mass_pricing_error h m = λ g. ground (arith, m)
reviewed-status v s edi_mismatch h m = λ g. ground (arith, g)
reviewed-status v s back_order h m = λ g. ground (arith, g)
reviewed-status v s over_max h m = λ g. ground (arith, g)
reviewed-status v s pallet_config h m = λ g. ground (arith, g)
reviewed-status v s contractual_correction h m = λ g. ground (arith, h)
reviewed-status v s duplicate_po h m = λ g. ground (arith, h)
reviewed-status v s price_hold_release h m = λ g. ground (arith, h)
reviewed-status v s min_order_qty h m = λ g. ground (arith, h)
reviewed-status v s delivery_delay h m = λ g. ground (arith, h)
reviewed-status v s manual_order_intake h m = λ g. ground (arith, h)
reviewed-status v s unknown h m = λ g. ground (arith, h)

-- The deterministic shadow is never GREEN on a credit block, a mass pricing error, a line mismatch, a
-- back order, an exceeded maximum or a pallet configuration.
pub shadow_decision-reviewed :
    (v : Services) (s : GraphState)
    → always_reviewed s.intent ≡ true
    → (shadow_decision v s).status ≢ green
unfolding shadow_decision
shadow_decision-reviewed v s h = elim (Bool-cases (is_mass_error s.intent)) [
  | inl mass ↦ rw (shadow_decision, mass) (λ g. ground (arith, g))
  | inr other ↦ λ g. ground (arith, g, other, reviewed-status v s s.intent h other)
]
