-- ===== src/Cases/Fixtures.antt =====
-- Concrete cases, for the examples.
use asoe.Prelude.{none, some, []}
use asoe.Cases.{rule, CorrelationKeys, CaseStore, Intake, OrderCase, new_case}

abbrev pub no_cases : CaseStore
no_cases = record { cases = []; correlation = []; history = [] }

abbrev pub po_keys : CorrelationKeys
po_keys = record {
  sales_order_id = none;
  customer_po_number = some "PO-1";
  edi_transaction_id = none;
  source_email_id = none;
}

abbrev pub po_intake : Intake
po_intake = record {
  tenant_id = "acme";
  origin = "API";
  source_channel = "edi_x12_850";
  customer_id = some "retailer-1";
  keys = po_keys;
  sla_deadline = none;
  bundle_version_at_open = none;
  supergroup_code = some "SG_BLOCK_PRICING";
  intent_code = none;
  classified_by = "system:case_intake";
  classifier_type = rule;
}

abbrev pub po_case : OrderCase
po_case = new_case "case-1" "2026-01-01" po_intake
