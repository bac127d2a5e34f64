-- ===== src/Pipeline/Registry/OrderIntake.antt =====
-- recipes/registry.py: the recipes on the intake of manual orders, the submit to the ERP and the reply to the buyer.
use asoe.Prelude.{true, false, some, [], ◌∷◌}
use asoe.Pipeline.{manual_order_intake}
use asoe.Pipeline.Registry.Spec.{RecipeSpec, event_order_id, event_retailer_id}

abbrev pub intake_spec : RecipeSpec
intake_spec = record {
  name = "ManualOrderIntakeRecipe.py";
  expected_metadata_keys =
      "composite_confidence" ∷ "non_disableable_floor" ∷ "validation_failures" ∷ [];
  required_params =
      "order_id" ∷ "customer_id" ∷ "composite_confidence" ∷ "validation_failures"
      ∷ "non_disableable_floor" ∷ "autonomy_levels" ∷ "threshold_auto_approve"
      ∷ "threshold_review_band_low" ∷ "threshold_auto_correct" ∷ [];
  allowed_intents = manual_order_intake ∷ [];
  dependencies =
      record {
        gateway_name = "email_intake";
        operation = "sender_auth";
        params_from_state = ("order_id", event_order_id) ∷ ("customer_id", event_retailer_id) ∷ [];
        result_key = "sender_auth_context";
        required_for_audit = true;
      }
      ∷ record {
        gateway_name = "email_intake";
        operation = "resolve_customer";
        params_from_state = ("order_id", event_order_id) ∷ ("customer_id", event_retailer_id) ∷ [];
        result_key = "customer_resolution_context";
        required_for_audit = true;
      }
      ∷ record {
        gateway_name = "email_intake";
        operation = "duplicate_po_pre_check";
        params_from_state = ("order_id", event_order_id) ∷ ("customer_id", event_retailer_id) ∷ [];
        result_key = "duplicate_po_pre_check_context";
        required_for_audit = true;
      }
      ∷ record {
        gateway_name = "email_intake";
        operation = "credit_check";
        params_from_state = ("order_id", event_order_id) ∷ ("customer_id", event_retailer_id) ∷ [];
        result_key = "credit_check_context";
        required_for_audit = true;
      }
      ∷ record {
        gateway_name = "email_intake";
        operation = "fetch_message";
        params_from_state = ("order_id", event_order_id) ∷ ("customer_id", event_retailer_id) ∷ [];
        result_key = "email_source_context";
        required_for_audit = true;
      }
      ∷ record {
        gateway_name = "order_extraction";
        operation = "extract_order";
        params_from_state = ("case", event_order_id) ∷ [];
        result_key = "order_entry_extraction";
        required_for_audit = false;
      }
      ∷ record {
        gateway_name = "order_extraction";
        operation = "extract_entities";
        params_from_state = ("case", event_order_id) ∷ [];
        result_key = "inbox_entities";
        required_for_audit = false;
      }
      ∷ record {
        gateway_name = "sap_order";
        operation = "validate";
        params_from_state = ("order_id", event_order_id) ∷ [];
        result_key = "sap_data";
        required_for_audit = false;
      }
      ∷ record {
        gateway_name = "edi_850";
        operation = "build";
        params_from_state = ("order_id", event_order_id) ∷ [];
        result_key = "edi_850";
        required_for_audit = false;
      }
      ∷ record {
        gateway_name = "change_analysis";
        operation = "evaluate";
        params_from_state = ("order_id", event_order_id) ∷ [];
        result_key = "change_analysis";
        required_for_audit = false;
      }
      ∷ record {
        gateway_name = "knowledge_graph";
        operation = "build";
        params_from_state = ("order_id", event_order_id) ∷ [];
        result_key = "knowledge_graph";
        required_for_audit = false;
      }
      ∷ [];
  effects = [];
}

abbrev pub submit_to_erp_spec : RecipeSpec
submit_to_erp_spec = record {
  name = "SubmitToErpRecipe.py";
  expected_metadata_keys = [];
  required_params = "order_id" ∷ "header" ∷ "line_items" ∷ [];
  allowed_intents = manual_order_intake ∷ [];
  dependencies = [];
  effects =
      record {
        gateway_name = "erp";
        operation = "create_sales_order";
        params_from_output = ("payload", "erp_payload") ∷ [];
        only_on_recipe_status = some ("SUCCESS" ∷ []);
      }
      ∷ [];
}

abbrev pub reply_draft_spec : RecipeSpec
reply_draft_spec = record {
  name = "ReplyDraftRecipe.py";
  expected_metadata_keys = [];
  required_params = "order_id" ∷ "template_name" ∷ [];
  allowed_intents = manual_order_intake ∷ [];
  dependencies = [];
  effects =
      record {
        gateway_name = "buyer_notification";
        operation = "send";
        params_from_output =
            ("recipient", "recipient") ∷ ("subject", "subject") ∷ ("body", "body") ∷ [];
        only_on_recipe_status = some ("READY_TO_SEND" ∷ []);
      }
      ∷ [];
}
