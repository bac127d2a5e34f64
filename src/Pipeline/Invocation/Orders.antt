-- ===== src/Pipeline/Invocation/Orders.antt =====
-- orchestration/nodes.py, validate_types: the parameters of the recipes on manual orders, which are
-- their intake, the submit that an operator authorises and the reply to the buyer.
use asoe.Prelude.{or_else, String, [], ◌∷◌, is_some, if◌then◌else◌}
use asoe.Prelude.Dict.{Dict}
use asoe.Value.{
  Items, text_of, Value, bool, num, str, arr, obj, no_items, item, Fields, end, field, get,
  get_value, truthy,
}
use asoe.Pipeline.{GraphState}
use asoe.Pipeline.Registry.{optional_text}
use asoe.Pipeline.Services.{Services}
use asoe.Pipeline.Invocation.Params.{
  or_value, field_of, dict_or_empty, list_or_empty, whole, millionths, text_map,
}

abbrev items_in : Value → Items
items_in (arr vs) = vs
items_in _ = no_items

abbrev fields_in : Value → Fields
fields_in (obj fs) = fs
fields_in _ = end

-- one floor check: the gateway's word where it gave one, else the event's where it gave one
unfoldable pub floor_check :
    (gw_key flag recipe_key : String) → GraphState → (floor_meta : Value) → Fields → Fields
floor_check gw_key flag recipe_key s floor_meta rest =
    let gateway = fields_in (get_value gw_key s.enrichment_context) in
    let stated = fields_in floor_meta in
    if is_some (get flag gateway)
    then field recipe_key (bool (truthy (field_of flag (obj gateway)))) rest
    else if is_some (get recipe_key stated)
    then field recipe_key (bool (truthy (field_of recipe_key floor_meta))) rest
    else rest

module _ (v : Services) (s : GraphState) where
  unfoldable pub gateway_floor : Value
  unfolding floor_check
  gateway_floor =
      let floor_meta = dict_or_empty (get_value "non_disableable_floor" s.event.metadata) in
      obj (
        floor_check "sender_auth_context" "sender_authorized" "sender_authorized" s floor_meta (
          floor_check "customer_resolution_context" "customer_resolved" "customer_resolved" s
            floor_meta
            (floor_check "duplicate_po_pre_check_context" "duplicate_po_clear" "duplicate_po_clear"
              s floor_meta
              (floor_check "credit_check_context" "credit_clear" "credit_clear" s floor_meta end))))

  unfoldable pub intake_params : Dict Value
  unfolding gateway_floor
  intake_params =
      let meta = s.event.metadata in
      ("order_id", str s.event.order_id)
      ∷ ("customer_id", or_value (optional_text s.event.retailer_id) (str ""))
      ∷ (
        "composite_confidence",
        num (v.float_of (or_value (get_value "composite_confidence" meta) (whole 0))),
      )
      ∷ ("validation_failures", list_or_empty (get_value "validation_failures" meta))
      ∷ ("non_disableable_floor", gateway_floor)
      ∷ (
        "autonomy_levels",
        text_map (
            ("ONE_CLICK_APPROVE", "L2")
            ∷ ("STANDARD_REVIEW", "L3")
            ∷ ("LOW_CONFIDENCE_FLAG", "L4")
            ∷ ("AUTO_CORRECT", "L2")
            ∷ ("REQUEST_CLARIFICATION", "L3")
            ∷ ("ESCALATE", "L4")
            ∷ ("REJECT", "L4")
            ∷ []),
      )
      ∷ ("threshold_auto_approve", millionths 950000)
      ∷ ("threshold_review_band_low", millionths 850000)
      ∷ ("threshold_auto_correct", millionths 990000)
      ∷ ("reject_reason_code", get_value "reject_reason_code" meta)
      ∷ []

  -- the extraction that the operator has reviewed
  abbrev extraction : Value
  extraction = or_value (get_value "order_entry_extraction" s.enrichment_context) (obj end)

  abbrev corrections : Fields → Dict Value → Fields
  corrections rest [] = rest
  corrections rest ((k, x) ∷ d) = field k x (corrections rest d)

  unfoldable pub submit_params : Dict Value
  submit_params =
      ("order_id", str s.event.order_id)
      ∷ ("customer_bp", field_of "customer_bp" extraction)
      ∷ ("header", or_value (field_of "header" extraction) (obj end))
      ∷ ("line_items", or_value (field_of "line_items" extraction) (arr no_items))
      ∷ ("corrections", obj (corrections end s.directed_corrections))
      ∷ []

  -- `[str(f) for f in …]`
  abbrev texts : Items → Items
  texts no_items = no_items
  texts (item x xs) = item (str (or_else (text_of x) (v.str_of x))) (texts xs)

  -- the flags of the extraction; where there are none, the request for confirmation
  abbrev clarification_points : Value
  clarification_points =
      or_value (arr (texts (items_in (field_of "validation_flags" extraction))))
        (arr (item (str "Please confirm the order details before we proceed.") no_items))

  unfoldable pub reply_params : Dict Value
  reply_params =
      let params = s.directed_corrections in
      let header = or_value (field_of "header" extraction) (obj end) in
      ("order_id", str s.event.order_id)
      ∷ (
        "recipient",
        or_value (get_value "recipient" params) (field_of "customer_email" extraction),
      )
      ∷ (
        "template_name",
        or_value (get_value "template_name" params) (str "email_order_clarification_request"),
      )
      ∷ ("customer_name", field_of "customer_name" extraction)
      ∷ (
        "context",
        obj (
            field "customer_po" (field_of "customer_po" header)
              (field "clarification_points" clarification_points end)),
      )
      ∷ ("edits", or_value (get_value "edits" params) (obj end))
      ∷ ("mode", or_value (get_value "mode" params) (str "draft"))
      ∷ []
