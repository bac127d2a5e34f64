-- ===== src/Recipes.antt =====
-- recipes/PriceHoldReleaseRecipe.py and recipes/MOQRoundUpRecipe.py, as functions on exact
-- millionths. A ratio is compared by cross-multiplication, and rounded where the source rounds it.
-- The texts of the outputs, and the payload and the plan that repeat the inputs, are left out.
use asoe.Prelude.{
  ℕ, ◌*◌, ◌-◌, String, Bool, not, ◌||◌, Option, none, some, leb, ◌==◌, str_eq, if◌then◌else◌,
  round_half_even,
}
use asoe.Prelude.Int.{ℤ, pos, negsuc, ◌-ℤ◌, abs_ℤ, pos_part, leb_ℤ, ltb_ℤ, sub_ℕ}
pub mod DuplicatePo
pub mod EdiMismatch
pub mod Pallets

pub data RecipeStatus : Type 0 where
  released review_required rejected failed complete escalate : RecipeStatus

pub data HoldAction : Type 0 where
  auto_release escalate_hold reject_hold : HoldAction

pub record HoldOutcome : Type 0 where
  pub status : RecipeStatus
  pub action : Option HoldAction
  pub variance_pct : Option ℤ

-- an amount with the sign of a given integer
abbrev with_sign_of : ℤ → ℕ → ℤ
with_sign_of (pos n) m = pos m
with_sign_of (negsuc n) m = sub_ℕ 0 m

-- for a base price above zero, which validate_types sees to, and a tolerance below the hard block,
-- which the source asserts; `round(variance_pct, 6)`
unfoldable pub execute_price_hold_release :
    (po_price sap_base_price : ℤ) (tolerance_pct hard_block_pct : ℕ) (hold_status : String)
    → HoldOutcome
unfolding ◌-ℤ◌ round_half_even
execute_price_hold_release po base tolerance hard_block hold_status =
    let gap = po -ℤ base in
    let ratio = 1000000 * abs_ℤ gap in
    let variance = with_sign_of gap (round_half_even ratio (abs_ℤ base)) in
    if not (str_eq hold_status "HELD")
    then record { status = failed; action = none; variance_pct = none }
    else if leb ratio (tolerance * abs_ℤ base)
    then record { status = released; action = some auto_release; variance_pct = some variance }
    else if leb ratio (hard_block * abs_ℤ base)
    then record {
      status = review_required;
      action = some escalate_hold;
      variance_pct = some variance;
    }
    else record { status = rejected; action = some reject_hold; variance_pct = some variance }

pub data MoqClass : Type 0 where
  no_shortfall minor_shortfall severe_shortfall : MoqClass

pub data MoqAction : Type 0 where
  no_action round_up escalate_moq : MoqAction

pub record MoqOutcome : Type 0 where
  pub status : RecipeStatus
  pub classification : Option MoqClass
  pub shortfall_qty : Option ℕ
  pub shortfall_pct : Option ℕ
  pub uplift_pct : Option ℕ
  pub uplift_value : Option ℤ
  pub recommended_action : Option MoqAction

-- the outcome of a shortfall, by whether it is severe
unfoldable pub shortfall_outcome : (severe : Bool) (ordered moq : ℕ) (unit_cost : ℤ) → MoqOutcome
unfolding round_half_even
shortfall_outcome severe ordered moq cost =
    let short = moq - ordered in
    record {
      status = if severe then escalate else review_required;
      classification = some (if severe then severe_shortfall else minor_shortfall);
      shortfall_qty = some (1000 * round_half_even short 1000);
      shortfall_pct = some (100 * round_half_even (10000 * short) moq);
      uplift_pct =
          if ordered == 0 then none else some (100 * round_half_even (10000 * short) ordered);
      uplift_value =
          some (with_sign_of cost (10000 * round_half_even (short * abs_ℤ cost) 10000000000));
      recommended_action = some (if severe then escalate_moq else round_up);
    }

unfoldable pub round_up_moq :
    (ordered_qty moq_qty unit_cost : ℤ) (severe_shortfall_pct : ℕ) → MoqOutcome
unfolding shortfall_outcome
round_up_moq ordered moq cost severe =
    let o = pos_part ordered in
    let m = pos_part moq in
    if leb_ℤ moq (pos 0) || ltb_ℤ ordered (pos 0)
    then record {
      status = failed;
      classification = none;
      shortfall_qty = none;
      shortfall_pct = none;
      uplift_pct = none;
      uplift_value = none;
      recommended_action = none;
    }
    else if leb_ℤ moq ordered
    then record {
      status = complete;
      classification = some no_shortfall;
      shortfall_qty = some 0;
      shortfall_pct = some 0;
      uplift_pct = some 0;
      uplift_value = some (pos 0);
      recommended_action = some no_action;
    }
    else shortfall_outcome (leb (severe * m) (1000000 * (m - o))) o m cost
