-- ===== src/Pipeline/Invocation/Params.antt =====
-- orchestration/nodes.py, validate_types: the parameters of each recipe, from the event, from its
-- metadata and from the gateways' evidence, with the constants of contracts/policy.py.
use asoe.Prelude.{ℕ, ◌*◌, String, Option, none, some, List, [], ◌∷◌, is_some, if◌then◌else◌}
use asoe.Prelude.Int.{ℤ, pos}
use asoe.Prelude.Dict.{Dict, lookup}
use asoe.Value.{
  Value, null, num, str, arr, obj, Items, no_items, item, Fields, end, field, get, value_of,
  get_value, truthy,
}
use asoe.Pipeline.{GraphState}
use asoe.Pipeline.Registry.{optional_text}
use asoe.Pipeline.Services.{Services}

-- `a or b`
abbrev pub or_value : Value → Value → Value
or_value a b = if truthy a then a else b

-- `v.get(k)`, of a nested dictionary
abbrev pub field_of : String → Value → Value
field_of k (obj fs) = value_of (get k fs)
field_of k _ = null

-- `isinstance(v, dict)`, and `isinstance(v, list)`, with the empty one in its place
abbrev pub dict_or_empty : Value → Value
dict_or_empty (obj fs) = obj fs
dict_or_empty _ = obj end

abbrev pub list_or_empty : Value → Value
list_or_empty (arr vs) = arr vs
list_or_empty _ = arr no_items

-- a whole number
abbrev pub whole : ℕ → Value
whole n = num (pos (n * 1000000))

-- a number in millionths
abbrev pub millionths : ℕ → Value
millionths n = num (pos n)

abbrev optional_number : Option ℤ → Value
optional_number none = null
optional_number (some z) = num z

-- `d.get(k, default)`
abbrev get_default : String → Value → Dict Value → Value
get_default k default d = if is_some (lookup k d) then get_value k d else default

abbrev pub text_list : List String → Value
text_list xs = arr (items xs)
  where
    items : List String → Items
    items [] = no_items
    items (x ∷ xs) = item (str x) (items xs)

abbrev pub text_map : List (String × String) → Value
text_map ps = obj (fields ps)
  where
    fields : List (String × String) → Fields
    fields [] = end
    fields ((k, x) ∷ ps) = field k (str x) (fields ps)

module _ (v : Services) (s : GraphState) where
  -- `float(meta.get(k) or 0.0)`
  abbrev number : String → Value
  number k = num (v.float_of (or_value (get_value k s.event.metadata) (whole 0)))

  abbrev meta : String → Value
  meta k = get_value k s.event.metadata

  -- `state.event.sku or meta.get("sku") or ""`
  abbrev sku : Value
  sku = or_value (or_value (optional_text s.event.sku) (meta "sku")) (str "")

  unfoldable pub price_adjustment_params : Dict Value
  price_adjustment_params =
      ("order_id", str s.event.order_id)
      ∷ ("line_item", whole s.event.line_item)
      ∷ ("requested_price", num s.event.po_price)
      ∷ (
        "erp_context",
        obj (
            field "base_price" (num s.event.sap_base_price) (
              field "max_discount_allowed" (millionths 150000)
                (field "condition_type" (str "YK07") end))),
      )
      ∷ []

  unfoldable pub credit_hold_params : Dict Value
  credit_hold_params =
      ("order_id", str s.event.order_id)
      ∷ ("requester_role", optional_text s.event.requester_role)
      ∷ ("credit_limit", optional_number s.event.credit_limit)
      ∷ ("current_exposure", optional_number s.event.current_exposure)
      ∷ ("authorized_roles", text_list ("ORDER_MANAGER" ∷ "FINANCE_DIRECTOR" ∷ []))
      ∷ ("exposure_tolerance", whole 5000)
      ∷ []

  unfoldable pub duplicate_po_params : Dict Value
  duplicate_po_params =
      let fulfillment = get_value "fulfillment_status" s.enrichment_context in
      let matched = get_value "matched_po_details" s.enrichment_context in
      let config = get_value "tenant_config" s.enrichment_context in
      ("incoming_po_number", str s.event.order_id)
      ∷ ("customer_id", or_value (optional_text s.event.retailer_id) (str ""))
      ∷ ("signal_scores", get_default "signal_scores" (obj end) s.event.metadata)
      ∷ ("threshold_auto_block", millionths 900000)
      ∷ ("threshold_review_required", millionths 700000)
      ∷ ("threshold_soft_flag", millionths 500000)
      ∷ ("original_fulfilled", field_of "fulfilled" fulfillment)
      ∷ ("has_revision_indicator", field_of "has_revision_indicator" matched)
      ∷ ("line_items_identical", field_of "line_items_identical" matched)
      ∷ (
        "autonomy_levels",
        text_map (
            ("BLOCK_AND_NOTIFY", "L2")
            ∷ ("MERGE", "L3")
            ∷ ("SUPERSEDE", "L3")
            ∷ ("ALLOW_BOTH", "L2")
            ∷ ("ESCALATE", "L4")
            ∷ ("REQUEST_BUYER_CONFIRMATION", "L3")
            ∷ []),
      )
      ∷ ("weights", field_of "weights" config)
      ∷ []

  unfoldable pub price_hold_params : Dict Value
  price_hold_params =
      ("order_id", str s.event.order_id)
      ∷ ("line_item", whole s.event.line_item)
      ∷ ("po_price", num s.event.po_price)
      ∷ ("sap_base_price", num s.event.sap_base_price)
      ∷ ("tolerance_pct", get_default "tolerance_pct" (millionths 20000) s.event.metadata)
      ∷ ("hard_block_pct", millionths 100000)
      ∷ (
        "hold_status",
        or_value (field_of "status" (get_value "price_hold_status" s.enrichment_context))
            (get_default "price_hold_status" (str "HELD") s.event.metadata),
      )
      ∷ ("requester_role", optional_text s.event.requester_role)
      ∷ []

  unfoldable pub edi_mismatch_params : Dict Value
  edi_mismatch_params =
      ("order_id", str s.event.order_id)
      ∷ ("sub_type", meta "mismatch_sub_type")
      ∷ ("expected_value", meta "expected_value")
      ∷ ("received_value", meta "received_value")
      ∷ (
        "autonomy_levels",
        text_map (
            ("SKU_MISMATCH", "L2")
            ∷ ("QTY_MISMATCH", "L3")
            ∷ ("UOM_MISMATCH", "L3")
            ∷ ("SHIP_TO_MISMATCH", "L4")
            ∷ []),
      )
      ∷ []

  unfoldable pub back_order_params : Dict Value
  back_order_params =
      ("order_id", str s.event.order_id)
      ∷ ("sku", sku)
      ∷ ("ordered_qty", number "ordered_qty")
      ∷ ("available_qty", number "available_qty")
      ∷ ("unit_price", number "unit_price")
      ∷ ("uom", or_value (meta "uom") (str "CS"))
      ∷ ("severe_gap_pct", millionths 500000)
      ∷ ("alternate_warehouses", meta "alternate_warehouses")
      ∷ ("substitutes", meta "substitutes")
      ∷ []

  unfoldable pub over_max_params : Dict Value
  over_max_params =
      ("order_id", str s.event.order_id)
      ∷ ("total_ordered", number "total_ordered")
      ∷ ("max_qty", number "max_qty")
      ∷ ("severe_exceedance_pct", millionths 500000)
      ∷ ("order_lines", meta "order_lines")
      ∷ ("unit_cost_per_line", meta "unit_cost_per_line")
      ∷ []

  unfoldable pub moq_params : Dict Value
  moq_params =
      ("order_id", str s.event.order_id)
      ∷ ("sku", sku)
      ∷ ("ordered_qty", number "ordered_qty")
      ∷ ("moq_qty", number "moq_qty")
      ∷ ("unit_cost", number "unit_cost")
      ∷ ("uom", or_value (meta "uom") (str "CS"))
      ∷ ("severe_shortfall_pct", millionths 250000)
      ∷ ("uplift_review_pct", millionths 100000)
      ∷ []

  unfoldable pub pallet_params : Dict Value
  pallet_params =
      ("order_id", str s.event.order_id)
      ∷ ("lines", meta "pallet_lines")
      ∷ ("min_fill_pct", millionths 900000)
      ∷ ("broken_layer_fill_pct", millionths 1000000)
      ∷ []

  unfoldable pub delivery_delay_params : Dict Value
  delivery_delay_params =
      ("order_id", str s.event.order_id)
      ∷ ("planned_date", or_value (meta "planned_date") (str ""))
      ∷ ("projected_eta", or_value (meta "projected_eta") (str ""))
      ∷ ("minor_days", whole 2)
      ∷ ("severe_days", whole 5)
      ∷ ("carrier", meta "carrier")
      ∷ ("route", meta "route")
      ∷ ("delay_category", meta "delay_category")
      ∷ ("alternate_options", meta "alternate_options")
      ∷ []
