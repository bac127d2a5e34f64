-- ===== src/Pipeline/Registry/Supply.antt =====
-- recipes/registry.py: the recipes on stock, quantities, pallets and delivery.
use asoe.Prelude.{true, none, [], ◌∷◌}
use asoe.Pipeline.{back_order, delivery_delay, min_order_qty, over_max, pallet_config}
use asoe.Pipeline.Registry.Spec.{RecipeSpec, event_order_id, event_retailer_id, event_sku}

abbrev pub back_order_resolution_spec : RecipeSpec
back_order_resolution_spec = record {
  name = "BackOrderResolutionRecipe.py";
  expected_metadata_keys = "ordered_qty" ∷ "available_qty" ∷ "unit_price" ∷ [];
  required_params =
      "order_id" ∷ "sku" ∷ "ordered_qty" ∷ "available_qty" ∷ "unit_price" ∷ "uom" ∷ "severe_gap_pct"
      ∷ [];
  allowed_intents = back_order ∷ [];
  dependencies =
      record {
        gateway_name = "oms";
        operation = "get_inventory_snapshot";
        params_from_state = ("order_id", event_order_id) ∷ ("sku", event_sku) ∷ [];
        result_key = "inventory_snapshot";
        required_for_audit = true;
      }
      ∷ [];
  effects =
      record {
        gateway_name = "buyer_notification";
        operation = "send";
        params_from_output = ("template", "backorder_template") ∷ ("order_id", "order_id") ∷ [];
        only_on_recipe_status = none;
      }
      ∷ [];
}

abbrev pub over_max_trim_spec : RecipeSpec
over_max_trim_spec = record {
  name = "OverMaxTrimRecipe.py";
  expected_metadata_keys = "max_qty" ∷ "order_lines" ∷ [];
  required_params = "order_id" ∷ "total_ordered" ∷ "max_qty" ∷ "severe_exceedance_pct" ∷ [];
  allowed_intents = over_max ∷ [];
  dependencies =
      record {
        gateway_name = "sap_contract";
        operation = "lookup";
        params_from_state = ("order_id", event_order_id) ∷ ("retailer_id", event_retailer_id) ∷ [];
        result_key = "contract_context";
        required_for_audit = true;
      }
      ∷ record {
        gateway_name = "sap_block";
        operation = "lookup";
        params_from_state = ("order_id", event_order_id) ∷ [];
        result_key = "block_context";
        required_for_audit = true;
      }
      ∷ [];
  effects = [];
}

abbrev pub moq_round_up_spec : RecipeSpec
moq_round_up_spec = record {
  name = "MOQRoundUpRecipe.py";
  expected_metadata_keys = "moq_qty" ∷ "unit_cost" ∷ [];
  required_params =
      "order_id" ∷ "sku" ∷ "ordered_qty" ∷ "moq_qty" ∷ "unit_cost" ∷ "uom" ∷ "severe_shortfall_pct"
      ∷ "uplift_review_pct" ∷ [];
  allowed_intents = min_order_qty ∷ [];
  dependencies =
      record {
        gateway_name = "sap_customer_master";
        operation = "lookup";
        params_from_state = ("retailer_id", event_retailer_id) ∷ ("sku", event_sku) ∷ [];
        result_key = "customer_master_context";
        required_for_audit = true;
      }
      ∷ record {
        gateway_name = "sap_contract";
        operation = "lookup";
        params_from_state = ("order_id", event_order_id) ∷ ("retailer_id", event_retailer_id) ∷ [];
        result_key = "contract_context";
        required_for_audit = true;
      }
      ∷ record {
        gateway_name = "sap_block";
        operation = "lookup";
        params_from_state = ("order_id", event_order_id) ∷ [];
        result_key = "block_context";
        required_for_audit = true;
      }
      ∷ [];
  effects = [];
}

abbrev pub pallet_alignment_spec : RecipeSpec
pallet_alignment_spec = record {
  name = "PalletAlignmentRecipe.py";
  expected_metadata_keys = "pallet_lines" ∷ [];
  required_params = "order_id" ∷ "lines" ∷ "min_fill_pct" ∷ "broken_layer_fill_pct" ∷ [];
  allowed_intents = pallet_config ∷ [];
  dependencies = [];
  effects = [];
}

abbrev pub delivery_delay_resolution_spec : RecipeSpec
delivery_delay_resolution_spec = record {
  name = "DeliveryDelayResolutionRecipe.py";
  expected_metadata_keys = "planned_date" ∷ "projected_eta" ∷ [];
  required_params =
      "order_id" ∷ "planned_date" ∷ "projected_eta" ∷ "minor_days" ∷ "severe_days" ∷ [];
  allowed_intents = delivery_delay ∷ [];
  dependencies =
      record {
        gateway_name = "sla_contract";
        operation = "lookup";
        params_from_state = ("order_id", event_order_id) ∷ ("retailer_id", event_retailer_id) ∷ [];
        result_key = "sla_contract_context";
        required_for_audit = true;
      }
      ∷ [];
  effects = [];
}
