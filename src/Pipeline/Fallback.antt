-- ===== src/Pipeline/Fallback.antt =====
-- constraints/fallback_backend.py: the deterministic classifier of intents and the table from
-- intents to recipes; orchestration/utils.py: the price gap and the batch breaker;
-- constraints/cross_check.py: the comparison of two classifications.
use asoe.Prelude.{
  ℕ, ◌*◌, String, Bool, true, false, not, ◌&&◌, Option, none, some, List, [], ◌∷◌, ltb, ◌==◌,
  str_eq, any_of, is_some, if◌then◌else◌, round_half_even,
}
use asoe.Prelude.Int.{ℤ, pos, negsuc, ◌-ℤ◌, leb_ℤ, abs_ℤ, sub_ℕ}
use asoe.Value.{Value, str, get_value}
use asoe.Pipeline.{
  Intent, contractual_correction, credit_block, mass_pricing_error, duplicate_po,
  price_hold_release, edi_mismatch, back_order, over_max, min_order_qty, pallet_config,
  delivery_delay, manual_order_intake, unknown, RecipeName, price_adjustment, credit_hold_release,
  detect_duplicate, hold_release, edi_recipe, back_order_resolution, over_max_trim, moq_round_up,
  pallet_alignment, delivery_delay_resolution, intake, PricingDiscrepancy, IntentDecision,
  GraphState,
}

abbrev pub is_text : String → Value → Bool
is_text s (str t) = str_eq t s
is_text s _ = false

-- a text that is given and is not empty
abbrev pub has_text : Option String → Bool
has_text none = false
has_text (some s) = not (str_eq s "")

abbrev decide : Intent → ℕ → IntentDecision
decide i c = record { intent = i; confidence = c }

-- `event_type in (…)`
abbrev among : List String → String → Bool
among names s = any_of (str_eq s) names

-- the tests in the source's order; the threshold of a mass update is ten lines
unfoldable pub classify_intent : GraphState → IntentDecision
classify_intent s =
    let e = s.event in
    let t = e.event_type in
    if ltb 10 e.line_count
    then decide mass_pricing_error 950000
    else if among ("EDI_850_DUPLICATE_PO" ∷ "DUPLICATE" ∷ []) t
    then decide duplicate_po 900000
    else if str_eq t "EDI_850_PRICE_HOLD"
    then decide price_hold_release 950000
    else if str_eq t "EDI_850_LINE_MISMATCH"
    then (if is_text "PRICE_MISMATCH" (get_value "mismatch_sub_type" e.metadata)
        then decide contractual_correction 900000
        else decide edi_mismatch 900000)
    else if str_eq t "BACK_ORDER_OOS"
    then decide back_order 950000
    else if str_eq t "OVER_MAX_QTY"
    then decide over_max 950000
    else if str_eq t "MIN_ORDER_QTY"
    then decide min_order_qty 950000
    else if str_eq t "PALLET_CONFIG_VIOLATION"
    then decide pallet_config 950000
    else if str_eq t "DELIVERY_DELAY"
    then decide delivery_delay 950000
    else if among ("EMAIL_ORDER_ENTRY_REQUEST" ∷ "EMAIL_ORDER" ∷ "MANUAL_ORDER_INTAKE" ∷ []) t
    then decide manual_order_intake 950000
    else if has_text e.requester_role && (is_some e.credit_limit && is_some e.current_exposure)
    then decide credit_block 800000
    else decide contractual_correction 900000

unfoldable pub propose_recipe : Intent → Option RecipeName
propose_recipe contractual_correction = some price_adjustment
propose_recipe credit_block = some credit_hold_release
propose_recipe duplicate_po = some detect_duplicate
propose_recipe price_hold_release = some hold_release
propose_recipe edi_mismatch = some edi_recipe
propose_recipe back_order = some back_order_resolution
propose_recipe over_max = some over_max_trim
propose_recipe min_order_qty = some moq_round_up
propose_recipe pallet_config = some pallet_alignment
propose_recipe delivery_delay = some delivery_delay_resolution
propose_recipe manual_order_intake = some intake
propose_recipe mass_pricing_error = none
propose_recipe unknown = none

-- an amount with the sign of a given integer
abbrev pub with_sign : ℤ → ℕ → ℤ
with_sign (pos n) m = pos m
with_sign (negsuc n) m = sub_ℕ 0 m

-- `round(delta, 4)` and `round(ratio, 6)`, in exact arithmetic; the threshold is 0.15
unfoldable pub compute_discrepancy : (po sap : ℤ) → PricingDiscrepancy
unfolding ◌-ℤ◌ round_half_even
compute_discrepancy po sap =
    let gap = po -ℤ sap in
    let delta = with_sign gap (100 * round_half_even (abs_ℤ gap) 100) in
    let pct =
      if abs_ℤ sap == 0
      then pos 0
      else with_sign sap (round_half_even (abs_ℤ delta * 1000000) (abs_ℤ sap)) in
    record { delta = delta; delta_pct = pct; within_threshold = leb_ℤ pct (pos 150000) }

pub record BatchDecision : Type 0 where
  pub too_many_updates : Bool
  pub too_much_variance : Bool

-- `circuit_breaker`: more than 50 updates, or more than $10,000; allowed when neither is
unfoldable pub circuit_breaker : (update_count batch_total_variance : ℕ) → BatchDecision
circuit_breaker n v = record { too_many_updates = ltb 50 n; too_much_variance = ltb 10000000000 v }

abbrev intent_code : Intent → ℕ
intent_code contractual_correction = 0
intent_code credit_block = 1
intent_code mass_pricing_error = 2
intent_code duplicate_po = 3
intent_code price_hold_release = 4
intent_code edi_mismatch = 5
intent_code back_order = 6
intent_code over_max = 7
intent_code min_order_qty = 8
intent_code pallet_config = 9
intent_code delivery_delay = 10
intent_code manual_order_intake = 11
intent_code unknown = 12

-- `==` on intents
unfoldable pub same_intent : Intent → Intent → Bool
same_intent i j = intent_code i == intent_code j

pub record CrossCheckResult : Type 0 where
  pub agreed : Bool
  pub winning_decision : IntentDecision

unfoldable pub cross_check : (llm deterministic : IntentDecision) → CrossCheckResult
unfolding same_intent
cross_check llm det =
    if same_intent llm.intent det.intent
    then record { agreed = true; winning_decision = llm }
    else record { agreed = false; winning_decision = det }
