-- ===== src/Pipeline/Registry/Pricing.antt =====
-- recipes/registry.py: the recipes on prices, credit, duplicates and line mismatches.
use asoe.Prelude.{true, none, [], ◌∷◌}
use asoe.Pipeline.{
  contractual_correction, credit_block, duplicate_po, edi_mismatch, price_hold_release,
}
use asoe.Pipeline.Registry.Spec.{
  RecipeSpec, event_order_id, event_line_item, event_retailer_id, event_sku,
}

abbrev pub price_adjustment_spec : RecipeSpec
price_adjustment_spec = record {
  name = "PriceAdjustmentRecipe.py";
  expected_metadata_keys = [];
  required_params = "order_id" ∷ "line_item" ∷ "requested_price" ∷ "erp_context" ∷ [];
  allowed_intents = contractual_correction ∷ [];
  dependencies =
      record {
        gateway_name = "sap_doc";
        operation = "lookup";
        params_from_state = ("order_id", event_order_id) ∷ ("line_item", event_line_item) ∷ [];
        result_key = "sap_doc_context";
        required_for_audit = true;
      }
      ∷ record {
        gateway_name = "sap_contract";
        operation = "lookup";
        params_from_state =
            ("order_id", event_order_id)
            ∷ ("retailer_id", event_retailer_id)
            ∷ ("sku", event_sku)
            ∷ [];
        result_key = "contract_context";
        required_for_audit = true;
      }
      ∷ record {
        gateway_name = "promotion";
        operation = "lookup";
        params_from_state = ("order_id", event_order_id) ∷ ("sku", event_sku) ∷ [];
        result_key = "promotion_context";
        required_for_audit = true;
      }
      ∷ [];
  effects = [];
}

abbrev pub credit_hold_release_spec : RecipeSpec
credit_hold_release_spec = record {
  name = "CreditHoldReleaseRecipe.py";
  expected_metadata_keys = [];
  required_params =
      "order_id" ∷ "requester_role" ∷ "credit_limit" ∷ "current_exposure" ∷ "authorized_roles"
      ∷ "exposure_tolerance" ∷ [];
  allowed_intents = credit_block ∷ [];
  dependencies = [];
  effects = [];
}

abbrev pub detect_duplicate_spec : RecipeSpec
detect_duplicate_spec = record {
  name = "DuplicatePORecipe.py";
  expected_metadata_keys = "signal_scores" ∷ "matched_po_id" ∷ [];
  required_params =
      "incoming_po_number" ∷ "customer_id" ∷ "signal_scores" ∷ "threshold_auto_block"
      ∷ "threshold_review_required" ∷ "threshold_soft_flag" ∷ [];
  allowed_intents = duplicate_po ∷ [];
  dependencies =
      record {
        gateway_name = "oms";
        operation = "get_fulfillment_status";
        params_from_state = ("order_id", event_order_id) ∷ [];
        result_key = "fulfillment_status";
        required_for_audit = true;
      }
      ∷ record {
        gateway_name = "oms";
        operation = "get_matched_po_details";
        params_from_state = ("order_id", event_order_id) ∷ ("customer_id", event_retailer_id) ∷ [];
        result_key = "matched_po_details";
        required_for_audit = true;
      }
      ∷ record {
        gateway_name = "tenant_config";
        operation = "resolve_for_event";
        params_from_state = ("customer_id", event_retailer_id) ∷ ("order_id", event_order_id) ∷ [];
        result_key = "tenant_config";
        required_for_audit = true;
      }
      ∷ [];
  effects =
      record {
        gateway_name = "buyer_notification";
        operation = "send";
        params_from_output =
            ("template", "notification_template")
            ∷ ("po_number", "incoming_po_number")
            ∷ ("customer_id", "customer_id")
            ∷ [];
        only_on_recipe_status = none;
      }
      ∷ [];
}

abbrev pub hold_release_spec : RecipeSpec
hold_release_spec = record {
  name = "PriceHoldReleaseRecipe.py";
  expected_metadata_keys = "price_hold_status" ∷ [];
  required_params =
      "order_id" ∷ "line_item" ∷ "po_price" ∷ "sap_base_price" ∷ "tolerance_pct" ∷ "hard_block_pct"
      ∷ "hold_status" ∷ [];
  allowed_intents = price_hold_release ∷ [];
  dependencies =
      record {
        gateway_name = "oms";
        operation = "get_price_hold_status";
        params_from_state = ("order_id", event_order_id) ∷ [];
        result_key = "price_hold_status";
        required_for_audit = true;
      }
      ∷ [];
  effects =
      record {
        gateway_name = "oms";
        operation = "update_hold_flag";
        params_from_output = ("order_id", "order_id") ∷ ("action", "action") ∷ [];
        only_on_recipe_status = none;
      }
      ∷ [];
}

abbrev pub edi_recipe_spec : RecipeSpec
edi_recipe_spec = record {
  name = "EdiMismatchRecipe.py";
  expected_metadata_keys = "mismatch_sub_type" ∷ "expected_value" ∷ "received_value" ∷ [];
  required_params =
      "order_id" ∷ "sub_type" ∷ "expected_value" ∷ "received_value" ∷ "autonomy_levels" ∷ [];
  allowed_intents = edi_mismatch ∷ [];
  dependencies = [];
  effects =
      record {
        gateway_name = "buyer_notification";
        operation = "send";
        params_from_output = ("template", "notification_template") ∷ ("order_id", "order_id") ∷ [];
        only_on_recipe_status = none;
      }
      ∷ [];
}
