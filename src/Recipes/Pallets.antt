-- ===== src/Recipes/Pallets.antt =====
-- recipes/PalletAlignmentRecipe.py on quantities in millionths that are not negative, so that 0 stands
-- for a missing layer or pallet. The texts of the outputs, what repeats the inputs, `order_line_count`
-- and `delta`, which follow from the lines, are left out.
use asoe.Prelude.{
  ℕ, ◌+◌, ◌*◌, ◌-◌, ◌/◌, String, Bool, true, false, ◌||◌, Option, none, some, List, [], ◌∷◌, ◌++◌,
  ltb, ◌==◌, if◌then◌else◌, round_half_even,
}
use asoe.Recipes.{RecipeStatus, review_required, failed, complete}
pub mod Plan
mod Examples

pub data Violation : Type 0 where
  broken_layer partial_pallet invalid_pallet_spec : Violation

pub record PalletLine : Type 0 where
  pub sku : String
  pub layer_qty : ℕ
  pub pallet_qty : ℕ
  pub ordered_qty : ℕ

-- an entry of `lines` together with its entry of `suggested_plan`
pub record AlignedLine : Type 0 where
  pub line : PalletLine
  pub complete_layers : ℕ
  pub loose_qty : ℕ
  pub full_pallets : ℕ
  pub pallet_fill_pct : ℕ
  pub violation_type : Option Violation
  pub suggested : ℕ

abbrev pub to_places : (unit n : ℕ) → ℕ
to_places unit n = unit * round_half_even n unit

abbrev pub residual : PalletLine → ℕ
residual l = l.ordered_qty - l.ordered_qty / l.pallet_qty * l.pallet_qty

abbrev pub layers_of : PalletLine → ℕ
layers_of l = residual l / l.layer_qty

abbrev pub loose : PalletLine → ℕ
loose l = residual l - layers_of l * l.layer_qty

-- the violation of a line with a pallet and a layer above zero
unfoldable pub violation_of : (min_fill_pct : ℕ) → PalletLine → Option Violation
violation_of min_fill l =
    if ltb 0 (loose l)
    then some broken_layer
    else if ltb 0 (residual l)
    then if ltb (1000000 * residual l) (min_fill * l.pallet_qty) then some partial_pallet else none
    else none

unfoldable pub target_qty : PalletLine → Option Violation → ℕ
target_qty l (some broken_layer) =
    l.ordered_qty / l.pallet_qty * l.pallet_qty + layers_of l * l.layer_qty
target_qty l (some partial_pallet) = l.ordered_qty / l.pallet_qty * l.pallet_qty
target_qty l (some invalid_pallet_spec) = l.ordered_qty
target_qty l none = l.ordered_qty

unfoldable pub align_line : (min_fill_pct : ℕ) → PalletLine → AlignedLine
unfolding violation_of target_qty round_half_even
align_line min_fill l =
    if l.pallet_qty == 0 || l.layer_qty == 0
    then record {
      line = l;
      complete_layers = 0;
      loose_qty = l.ordered_qty;
      full_pallets = 0;
      pallet_fill_pct = 0;
      violation_type = some invalid_pallet_spec;
      suggested = l.ordered_qty;
    }
    else record {
      line = l;
      complete_layers = layers_of l;
      loose_qty = to_places 1000 (loose l);
      full_pallets = l.ordered_qty / l.pallet_qty;
      pallet_fill_pct =
          if residual l == 0
          then 1000000
          else 100 * round_half_even (10000 * residual l) l.pallet_qty;
      violation_type = violation_of min_fill l;
      suggested = to_places 1000 (target_qty l (violation_of min_fill l));
    }

pub data PalletClass : Type 0 where
  mixed_violation broken_layers partial_pallets no_violation : PalletClass

pub record PalletScan : Type 0 where
  pub aligned : List AlignedLine
  pub total_ordered : ℕ
  pub total_loose : ℕ
  pub has_broken : Bool
  pub has_partial : Bool

abbrev pub is_broken : Option Violation → Bool
is_broken (some broken_layer) = true
is_broken _ = false

abbrev pub is_partial : Option Violation → Bool
is_partial (some partial_pallet) = true
is_partial _ = false

-- what a line adds to `total_loose`, before any rounding
abbrev pub loose_of : PalletLine → ℕ
loose_of l = if l.pallet_qty == 0 || l.layer_qty == 0 then l.ordered_qty else loose l

-- the body of the loop
unfoldable pub scan_line : (min_fill_pct : ℕ) → PalletLine → PalletScan → PalletScan
unfolding align_line
scan_line min_fill l s =
    let a = align_line min_fill l in
    record {
      aligned = s.aligned ++ (a ∷ []);
      total_ordered = s.total_ordered + l.ordered_qty;
      total_loose = s.total_loose + loose_of l;
      has_broken = s.has_broken || is_broken a.violation_type;
      has_partial = s.has_partial || is_partial a.violation_type;
    }

unfoldable pub scan_lines : (min_fill_pct : ℕ) → List PalletLine → PalletScan → PalletScan
unfolding scan_line
scan_lines min_fill [] s = s
scan_lines min_fill (l ∷ ls) s = scan_lines min_fill ls (scan_line min_fill l s)

pub record PalletOutcome : Type 0 where
  pub status : RecipeStatus
  pub classification : Option PalletClass
  pub total_ordered_cases : ℕ
  pub loose_cases_total : ℕ
  pub lines : List AlignedLine
  pub round_down_to_layers : Option Bool

abbrev pub pallet_class : (has_broken has_partial : Bool) → PalletClass
pallet_class true true = mixed_violation
pallet_class true false = broken_layers
pallet_class false true = partial_pallets
pallet_class false false = no_violation

abbrev pub start : PalletScan
start = record {
  aligned = [];
  total_ordered = 0;
  total_loose = 0;
  has_broken = false;
  has_partial = false;
}

-- the outcome once the loop is done
unfoldable pub outcome_of : PalletScan → PalletOutcome
unfolding round_half_even
outcome_of s =
    let violated = s.has_broken || s.has_partial in
    record {
      status = if violated then review_required else complete;
      classification = some (pallet_class s.has_broken s.has_partial);
      total_ordered_cases = to_places 1000 s.total_ordered;
      loose_cases_total = to_places 1000 s.total_loose;
      lines = s.aligned;
      round_down_to_layers = some violated;
    }

unfoldable pub align_pallets : (min_fill_pct : ℕ) → List PalletLine → PalletOutcome
unfolding scan_lines outcome_of
align_pallets min_fill [] = record {
  status = failed;
  classification = none;
  total_ordered_cases = 0;
  loose_cases_total = 0;
  lines = [];
  round_down_to_layers = none;
}
align_pallets min_fill (l ∷ ls) = outcome_of (scan_lines min_fill (l ∷ ls) start)
