-- ===== src/Pipeline/Policy/Examples.antt =====
-- The policies of the shadow at concrete amounts.
use asoe.Prelude.{String, [], ◌∷◌, ◌≤◌, ◌≡◌, ◌≢◌, refl, false, arith}
use asoe.Prelude.Dict.{Dict}
use asoe.Value.{num, str}
use asoe.Recipes.EdiMismatch.{detect_edi_mismatch}
use asoe.Prelude.Int.{pos}
use asoe.Pipeline.{credit_block, green, GraphState}
use asoe.Pipeline.Fixtures.{state, services}
use asoe.Pipeline.Policy.{
  shadow_for_price_hold, shadow_for_moq, shadow_for_edi_mismatch, shadow_decision,
  shadow_for_intent, is_mass_error,
}
use asoe.Pipeline.Policy.Agreement.{
  verdict_for, price_hold-agrees, moq-agrees, edi_mismatch-agrees, shadow_decision-green,
  shadow_decision-reviewed,
}
use asoe.Recipes.{execute_price_hold_release, round_up_moq}

abbrev levels : Dict String
levels = ("QTY_MISMATCH", "L2") ∷ []

-- 105 against a base of 100: five percent
price_hold-agrees_example :
    verdict_for
      (execute_price_hold_release (pos 105000000) (pos 100000000) 20000 100000 "HELD").status
    ≡ (shadow_for_price_hold (pos 105000000) (pos 100000000)).status
price_hold-agrees_example = price_hold-agrees (pos 105000000) (pos 100000000) refl

-- 70 of a minimum of 100
moq-agrees_example :
    verdict_for (round_up_moq (pos 70000000) (pos 100000000) (pos 2000000) 250000).status
    ≡ (shadow_for_moq (pos 70000000) (pos 100000000)).status
moq-agrees_example = moq-agrees 70000000 100000000 (pos 2000000) (omega arith)

-- another quantity than the one agreed
edi_mismatch-agrees_example :
    verdict_for
      (detect_edi_mismatch "order-1" "QTY_MISMATCH"
        (num (pos 12000000))
        (num (pos 21000000))
        levels).status
    ≡ (shadow_for_edi_mismatch (str "QTY_MISMATCH")).status
edi_mismatch-agrees_example =
    edi_mismatch-agrees "order-1" "QTY_MISMATCH" (num (pos 12000000)) (num (pos 21000000)) levels

shadow_decision-green_example :
    (state.batch_total_variance ≤ 10000000000)
    × (state.event.line_count ≤ 10)
    × (is_mass_error state.intent ≡ false)
unfolding shadow_decision shadow_for_intent
shadow_decision-green_example = shadow_decision-green services state refl

abbrev on_credit : GraphState
on_credit = record state { intent = credit_block }

shadow_decision-reviewed_example : (shadow_decision services on_credit).status ≢ green
shadow_decision-reviewed_example = shadow_decision-reviewed services on_credit refl
