-- ===== src/Pipeline/Policy.antt =====
-- constraints/fallback_backend.py, `shadow_decision`: the deterministic shadow's verdict and its policy
-- hits, by the limits of contracts/policy.py. A ratio is compared by cross-multiplication in exact
-- millionths; float() and int() are the services'. The texts of the reasons are left out.
pub mod Agreement
mod Examples
use asoe.Prelude.{
  ℕ, ◌+◌, ◌*◌, ◌-◌, ◌/◌, String, Bool, true, false, not, ◌&&◌, ◌||◌, Option, none, some, List, [],
  ◌∷◌, leb, ltb, if◌then◌else◌,
}
use asoe.Prelude.Int.{ℤ, pos, ◌-ℤ◌, abs_ℤ, pos_part, leb_ℤ}
use asoe.Value.{Value, null, num, get_value, truthy}
use asoe.Pipeline.{
  Intent, contractual_correction, credit_block, mass_pricing_error, duplicate_po,
  price_hold_release, edi_mismatch, back_order, over_max, min_order_qty, pallet_config,
  delivery_delay, manual_order_intake, unknown, ShadowStatus, green, yellow, red, GraphState,
}
use asoe.Pipeline.Services.{Services}
use asoe.Pipeline.Fallback.{is_text}
use asoe.Pipeline.Invocation.{or_value}

pub record PolicyVerdict : Type 0 where
  pub status : ShadowStatus
  pub policy_hits : List String

abbrev say : ShadowStatus → String → PolicyVerdict
say s hit = record { status = s; policy_hits = hit ∷ [] }

-- `float(meta.get(k) or 0.0)`
unfoldable pub read_number : Services → GraphState → String → ℤ
read_number v s k = v.float_of (or_value (get_value k s.event.metadata) (num (pos 0)))

-- hard block above 10 %, review above 2 %
unfoldable pub shadow_for_price_hold : (po base : ℤ) → PolicyVerdict
unfolding ◌-ℤ◌
shadow_for_price_hold po base =
    let ratio = 1000000 * abs_ℤ (po -ℤ base) in
    if leb_ℤ base (pos 0)
    then say red "PRICE_HOLD_INVALID_BASE"
    else if ltb (100000 * abs_ℤ base) ratio
    then say red "PRICE_HOLD_HARD_BLOCK"
    else if ltb (20000 * abs_ℤ base) ratio
    then say yellow "PRICE_HOLD_TOLERANCE_ESCALATE"
    else say green "PRICE_HOLD_TOLERANCE_OK"

unfoldable pub shadow_for_edi_mismatch : Value → PolicyVerdict
shadow_for_edi_mismatch sub_type =
    if is_text "SKU_MISMATCH" sub_type
    then say red "EDI_SKU_MISMATCH_HARD_REJECT"
    else if is_text "SHIP_TO_MISMATCH" sub_type
    then say yellow "EDI_SHIP_TO_ESCALATE"
    else if is_text "QTY_MISMATCH" sub_type
    then say yellow "EDI_QTY_MISMATCH_REVIEW"
    else if is_text "UOM_MISMATCH" sub_type
    then say yellow "EDI_UOM_MISMATCH_REVIEW"
    else say red "EDI_UNKNOWN_SUB_TYPE"

-- severe from a gap of 50 % on
unfoldable pub shadow_for_back_order : (ordered available : ℤ) → PolicyVerdict
unfolding ◌-ℤ◌
shadow_for_back_order ordered available =
    if leb_ℤ ordered (pos 0)
    then say yellow "BACK_ORDER_MISSING_INPUT"
    else if leb (500000 * pos_part ordered) (1000000 * pos_part (ordered -ℤ available))
    then say red "BACK_ORDER_SEVERE_GAP"
    else say yellow "BACK_ORDER_MINOR_GAP_REVIEW"

-- severe above an exceedance of 50 %
unfoldable pub shadow_for_over_max : (total max_qty : ℤ) → PolicyVerdict
unfolding ◌-ℤ◌
shadow_for_over_max total max_qty =
    if leb_ℤ max_qty (pos 0)
    then say yellow "OVER_MAX_MISSING_INPUT"
    else if ltb (500000 * pos_part max_qty) (1000000 * pos_part (total -ℤ max_qty))
    then say red "OVER_MAX_SEVERE_EXCEEDANCE"
    else say yellow "OVER_MAX_MINOR_REVIEW"

-- severe from a shortfall of 25 % on
unfoldable pub shadow_for_moq : (ordered moq : ℤ) → PolicyVerdict
unfolding ◌-ℤ◌
shadow_for_moq ordered moq =
    if leb_ℤ moq (pos 0)
    then say yellow "MOQ_MISSING_INPUT"
    else if leb_ℤ moq ordered
    then say green "MOQ_NO_SHORTFALL"
    else if leb (250000 * pos_part moq) (1000000 * pos_part (moq -ℤ ordered))
    then say red "MOQ_SEVERE_SHORTFALL"
    else say yellow "MOQ_ROUND_UP_REVIEW"

abbrev shadow_for_pallet_config : Bool → PolicyVerdict
shadow_for_pallet_config true = say yellow "PALLET_CONFIG_REVIEW"
shadow_for_pallet_config false = say yellow "PALLET_CONFIG_MISSING_INPUT"

-- `int(days_late)`: severe from 5 days on, minor from 2
unfoldable pub shadow_for_delivery_delay : Services → Value → PolicyVerdict
shadow_for_delivery_delay v null = say yellow "DELIVERY_DELAY_PENDING_COMPUTE"
shadow_for_delivery_delay v x =
    let days = pos_part (v.int_of x) in
    if leb 5 days
    then say red "DELIVERY_DELAY_SEVERE"
    else if leb 2 days
    then say yellow "DELIVERY_DELAY_MINOR_REVIEW"
    else say green "DELIVERY_DELAY_ON_TIME"

abbrev no_hit : PolicyVerdict
no_hit = record { status = green; policy_hits = [] }

-- the limits of the batch, which come before all intents but one
unfoldable pub shadow_for_intent : Services → GraphState → Intent → PolicyVerdict
unfolding shadow_for_price_hold shadow_for_edi_mismatch shadow_for_back_order shadow_for_over_max
    shadow_for_moq shadow_for_delivery_delay read_number
shadow_for_intent v s credit_block = say yellow "CREDIT_RELEASE_REVIEW"
shadow_for_intent v s price_hold_release =
    shadow_for_price_hold s.event.po_price s.event.sap_base_price
shadow_for_intent v s edi_mismatch =
    shadow_for_edi_mismatch (get_value "mismatch_sub_type" s.event.metadata)
shadow_for_intent v s back_order =
    shadow_for_back_order (read_number v s "ordered_qty") (read_number v s "available_qty")
shadow_for_intent v s over_max =
    shadow_for_over_max (read_number v s "total_ordered") (read_number v s "max_qty")
shadow_for_intent v s min_order_qty =
    shadow_for_moq (read_number v s "ordered_qty") (read_number v s "moq_qty")
shadow_for_intent v s pallet_config =
    shadow_for_pallet_config (truthy (get_value "pallet_lines" s.event.metadata))
shadow_for_intent v s delivery_delay =
    shadow_for_delivery_delay v (get_value "days_late" s.event.metadata)
shadow_for_intent v s _ = no_hit

abbrev pub is_mass_error : Intent → Bool
is_mass_error mass_pricing_error = true
is_mass_error _ = false

unfoldable pub shadow_decision : Services → GraphState → PolicyVerdict
unfolding shadow_for_intent
shadow_decision v s =
    if is_mass_error s.intent
    then say red "HITL_REQUIRED_FOR_SYSTEMIC_FAILURE"
    else if ltb 10000000000 s.batch_total_variance
    then say red "CIRCUIT_BREAKER_VARIANCE"
    else if ltb 10 s.event.line_count
    then say red "MASS_UPDATE_DETECTED"
    else shadow_for_intent v s s.intent
