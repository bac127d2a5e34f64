-- ===== src/Recipes/DuplicatePo.antt =====
-- recipes/DuplicatePORecipe.py: the score of a possible duplicate order, its class, and the action. Floats
-- are exact millionths: an infinity and a not-a-number are outside of the model, and the sums round nothing.
pub mod Score
pub mod Monotone
mod Examples
use asoe.Prelude.{
  ℕ, String, Bool, true, false, ◌&&◌, ◌||◌, not, Option, none, some, List, [], ◌∷◌, map, leb, ltb,
  is_some, or_else, all_of, if◌then◌else◌, round_half_even,
}
use asoe.Prelude.Int.{ℤ, pos, negsuc, ◌+ℤ◌, ◌-ℤ◌, ◌*ℤ◌, abs_ℤ, leb_ℤ, ltb_ℤ, sub_ℕ}
use asoe.Prelude.Dict.{Dict, lookup}
use asoe.Prelude.Results.{Result, ok, err}

-- `_WEIGHTS`
abbrev pub default_weights : Dict ℤ
default_weights =
    ("po_number", pos 300000)
    ∷ ("customer_id", pos 150000)
    ∷ ("line_items", pos 200000)
    ∷ ("amount", pos 100000)
    ∷ ("timestamp", pos 100000)
    ∷ ("ship_to", pos 50000)
    ∷ ("channel", pos 50000)
    ∷ ("delivery_date", pos 50000)
    ∷ []

pub data WeightContractViolation : Type 0 where
  key_set_mismatch : WeightContractViolation
  outside_range : (key : String) → WeightContractViolation
  bad_sum : WeightContractViolation

abbrev pub same_keys : Dict ℤ → Bool
same_keys w =
    all_of (λ e. is_some (lookup e.0 default_weights)) w
    && all_of (λ e. is_some (lookup e.0 w)) default_weights

abbrev pub is_weight : ℤ → Bool
is_weight x = not (ltb_ℤ x (pos 0) || ltb_ℤ (pos 1000000) x)

-- the first weight that is out of range
abbrev pub first_outside : Dict ℤ → Option String
first_outside [] = none
first_outside ((k, x) ∷ w) = if is_weight x then first_outside w else some k

unfoldable pub sum_of : Dict ℤ → ℤ
sum_of [] = pos 0
sum_of ((k, x) ∷ w) = x +ℤ sum_of w

abbrev pub check_sum : Dict ℤ → Option WeightContractViolation
check_sum w = if leb (abs_ℤ (sum_of w -ℤ pos 1000000)) 100 then none else some bad_sum

abbrev pub check_range : Dict ℤ → Option String → Option WeightContractViolation
check_range w none = check_sum w
check_range w (some k) = some (outside_range k)

-- the violation that is raised, where there is one
unfoldable pub assert_weight_contract : Dict ℤ → Option WeightContractViolation
assert_weight_contract w =
    if same_keys w then check_range w (first_outside w) else some key_set_mismatch

-- an amount with the sign of a given integer
abbrev pub signed : ℤ → ℕ → ℤ
signed (pos n) m = pos m
signed (negsuc n) m = sub_ℕ 0 m

-- `round(weight * score, 6)`
unfoldable pub contribution : (weight score : ℤ) → ℤ
unfolding ◌*ℤ◌ round_half_even
contribution weight score =
    signed (weight *ℤ score) (round_half_even (abs_ℤ (weight *ℤ score)) 1000000)

-- `signal_scores.get(signal, 0.0)`
abbrev pub score_of : Dict ℤ → String → ℤ
score_of scores signal = or_else (lookup signal scores) (pos 0)

unfoldable pub breakdown_of : (weights scores : Dict ℤ) → Dict ℤ
unfolding contribution
breakdown_of weights scores = map (λ e. (e.0, contribution e.1 (score_of scores e.0))) weights

pub data DuplicateClass : Type 0 where
  auto_block review_required soft_flag pass : DuplicateClass

pub data DuplicateStatus : Type 0 where
  blocked review_required soft_flag pass : DuplicateStatus

pub data DuplicateAction : Type 0 where
  block_and_notify merge supersede allow_both escalate request_buyer_confirmation : DuplicateAction

pub record Thresholds : Type 0 where
  pub threshold_auto_block : ℤ
  pub threshold_review_required : ℤ
  pub threshold_soft_flag : ℤ

unfoldable pub classify_score : Thresholds → ℤ → DuplicateClass
classify_score t score =
    if leb_ℤ t.threshold_auto_block score
    then DuplicateClass.auto_block
    else if leb_ℤ t.threshold_review_required score
    then DuplicateClass.review_required
    else if leb_ℤ t.threshold_soft_flag score
    then DuplicateClass.soft_flag
    else DuplicateClass.pass

abbrev pub status_of : DuplicateClass → DuplicateStatus
status_of DuplicateClass.auto_block = blocked
status_of DuplicateClass.review_required = DuplicateStatus.review_required
status_of DuplicateClass.soft_flag = DuplicateStatus.soft_flag
status_of DuplicateClass.pass = DuplicateStatus.pass

-- `_DEFAULT_ACTIONS`
abbrev pub default_action : DuplicateClass → DuplicateAction
default_action DuplicateClass.auto_block = block_and_notify
default_action DuplicateClass.review_required = escalate
default_action DuplicateClass.soft_flag = request_buyer_confirmation
default_action DuplicateClass.pass = allow_both

-- `_NOTIFICATION_TEMPLATES`
abbrev pub notification_template_of : DuplicateAction → Option String
notification_template_of block_and_notify = some "duplicate_po_blocked"
notification_template_of merge = some "duplicate_po_amended"
notification_template_of supersede = some "duplicate_po_amended"
notification_template_of request_buyer_confirmation = some "duplicate_po_inquiry"
notification_template_of _ = none

abbrev pub action_name : DuplicateAction → String
action_name block_and_notify = "BLOCK_AND_NOTIFY"
action_name merge = "MERGE"
action_name supersede = "SUPERSEDE"
action_name allow_both = "ALLOW_BOTH"
action_name escalate = "ESCALATE"
action_name request_buyer_confirmation = "REQUEST_BUYER_CONFIRMATION"

-- what the gateways resolved, where they did
pub record ResolutionContext : Type 0 where
  pub original_fulfilled : Option Bool
  pub has_revision_indicator : Option Bool
  pub line_items_identical : Option Bool

abbrev pub has_context : ResolutionContext → Bool
has_context x =
    is_some x.original_fulfilled
    || is_some x.has_revision_indicator
    || is_some x.line_items_identical

-- the truth of a field that may be None
abbrev pub holds : Option Bool → Bool
holds b = or_else b false

-- the decision tree, for a context that has some field
abbrev pub refined_action : DuplicateClass → ResolutionContext → DuplicateAction
refined_action DuplicateClass.auto_block x =
    if holds x.line_items_identical && not (holds x.original_fulfilled)
    then block_and_notify
    else if holds x.line_items_identical && holds x.original_fulfilled
    then allow_both
    else if holds x.has_revision_indicator
    then supersede
    else merge
refined_action DuplicateClass.review_required x =
    if holds x.has_revision_indicator
    then supersede
    else if holds x.line_items_identical
    then escalate
    else request_buyer_confirmation
refined_action c x = default_action c

unfoldable pub resolve_action : DuplicateClass → ResolutionContext → DuplicateAction
resolve_action c x = if has_context x then refined_action c x else default_action c

pub record DuplicateOutcome : Type 0 where
  pub status : DuplicateStatus
  pub composite_score : ℤ
  pub classification : DuplicateClass
  pub recommended_action : DuplicateAction
  pub autonomy_level : Option String
  pub notification_template : Option String
  pub signal_breakdown : Dict ℤ
  pub incoming_po_number : String
  pub customer_id : String

pub record DuplicateInput : Type 0 where
  pub incoming_po_number : String
  pub customer_id : String
  pub thresholds : Thresholds
  pub context : ResolutionContext
  pub autonomy_levels : Option (Dict String)
  pub weights : Option (Dict ℤ)

abbrev pub effective_weights : DuplicateInput → Dict ℤ
effective_weights i = or_else i.weights default_weights

abbrev pub autonomy_of : Option (Dict String) → DuplicateAction → Option String
autonomy_of none a = none
autonomy_of (some levels) a = lookup (action_name a) levels

unfoldable pub outcome_of : DuplicateInput → Dict ℤ → DuplicateOutcome
unfolding classify_score resolve_action sum_of
outcome_of i breakdown =
    let score = sum_of breakdown in
    let class = classify_score i.thresholds score in
    let action = resolve_action class i.context in
    record {
      status = status_of class;
      composite_score = score;
      classification = class;
      recommended_action = action;
      autonomy_level = autonomy_of i.autonomy_levels action;
      notification_template = notification_template_of action;
      signal_breakdown = breakdown;
      incoming_po_number = i.incoming_po_number;
      customer_id = i.customer_id;
    }

unfoldable pub detect_duplicate_po :
    DuplicateInput → (signal_scores : Dict ℤ) → Result WeightContractViolation DuplicateOutcome
unfolding assert_weight_contract outcome_of breakdown_of
detect_duplicate_po i scores = elim (assert_weight_contract (effective_weights i)) [
  | some violation ↦ err violation
  | none ↦ ok (outcome_of i (breakdown_of (effective_weights i) scores))
]
