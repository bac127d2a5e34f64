-- ===== src/Recipes/EdiMismatch.antt =====
-- recipes/EdiMismatchRecipe.py: the classification of an EDI 850 line mismatch. The text of a
-- failure's reason is left out.
use asoe.Prelude.{String, Option, none, some, [], ◌∷◌, str_eq, if◌then◌else◌}
use asoe.Prelude.Dict.{Dict, lookup}
use asoe.Recipes.{RecipeStatus, review_required, rejected, failed}
use asoe.Value.{Value}

pub data EdiClass : Type 0 where
  hard_reject review escalate_class : EdiClass

pub data EdiAction : Type 0 where
  block_and_notify request_buyer_confirmation escalate_edi : EdiAction

pub data EdiError : Type 0 where
  sub_type_routing_error unknown_sub_type : EdiError

pub record EdiOutcome : Type 0 where
  pub status : RecipeStatus
  pub sub_type : String
  pub classification : Option EdiClass
  pub recommended_action : Option EdiAction
  pub autonomy_level : Option String
  pub notification_template : Option String
  pub expected_value : Value
  pub received_value : Value
  pub order_id : String
  pub error_code : Option EdiError

abbrev pub classification_by_sub_type : Dict EdiClass
classification_by_sub_type =
    ("SKU_MISMATCH", hard_reject)
    ∷ ("QTY_MISMATCH", review)
    ∷ ("UOM_MISMATCH", review)
    ∷ ("SHIP_TO_MISMATCH", escalate_class)
    ∷ []

abbrev pub status_by_classification : EdiClass → RecipeStatus
status_by_classification hard_reject = rejected
status_by_classification review = review_required
status_by_classification escalate_class = review_required

abbrev pub action_by_classification : EdiClass → EdiAction
action_by_classification hard_reject = block_and_notify
action_by_classification review = request_buyer_confirmation
action_by_classification escalate_class = escalate_edi

abbrev pub notification_templates : EdiAction → Option String
notification_templates block_and_notify = some "edi_line_mismatch_blocked"
notification_templates request_buyer_confirmation = some "edi_line_mismatch_inquiry"
notification_templates escalate_edi = none

-- the outcome of a sub_type, by its classification
unfoldable pub classified :
    (order_id sub_type : String) (expected received : Value) (autonomy_levels : Dict String)
    → Option EdiClass
    → EdiOutcome
classified order_id sub_type expected received levels none = record {
  status = failed;
  sub_type = sub_type;
  classification = none;
  recommended_action = none;
  autonomy_level = none;
  notification_template = none;
  expected_value = expected;
  received_value = received;
  order_id = order_id;
  error_code =
      some (if str_eq sub_type "PRICE_MISMATCH" then sub_type_routing_error else unknown_sub_type);
}
classified order_id sub_type expected received levels (some c) = record {
  status = status_by_classification c;
  sub_type = sub_type;
  classification = some c;
  recommended_action = some (action_by_classification c);
  autonomy_level = lookup sub_type levels;
  notification_template = notification_templates (action_by_classification c);
  expected_value = expected;
  received_value = received;
  order_id = order_id;
  error_code = none;
}

unfoldable pub detect_edi_mismatch :
    (order_id sub_type : String) (expected received : Value) (autonomy_levels : Dict String)
    → EdiOutcome
unfolding classified
detect_edi_mismatch order_id sub_type expected received levels =
    classified order_id sub_type expected received levels
      (lookup sub_type classification_by_sub_type)
