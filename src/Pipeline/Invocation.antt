-- ===== src/Pipeline/Invocation.antt =====
-- orchestration/nodes.py, validate_types: the typed invocation of the selected recipe. Every name
-- of the closed list has its branch, so the source's last branch, for a name with none, is not
-- reached.
mod Params
mod Orders
use asoe.Prelude.{◌+◌, Bool, true, false, Option, none, some, leb, List, [], ◌∷◌, if◌then◌else◌}
use asoe.Prelude.Int.{pos, leb_ℤ}
use asoe.Prelude.Dict.{Dict}
use asoe.Value.{Value}
use asoe.Pipeline.{
  fail_to_human, RecipeName, price_adjustment, credit_hold_release, detect_duplicate, hold_release,
  edi_recipe, back_order_resolution, over_max_trim, moq_round_up, pallet_alignment,
  delivery_delay_resolution, intake, submit_to_erp, reply_draft, email_order_entry, validate_types,
  ok, invocation_fail, base_price_not_positive, GraphState, leave, halt,
}
use asoe.Pipeline.Services.{Services}
pub use Params.{or_value}
use Params.{
  price_adjustment_params, credit_hold_params, duplicate_po_params, price_hold_params,
  edi_mismatch_params, back_order_params, over_max_params, moq_params, pallet_params,
  delivery_delay_params,
}
use Orders.{intake_params, submit_params, reply_params}

unfoldable pub params_of : RecipeName → Services → GraphState → Dict Value
params_of price_adjustment v s = price_adjustment_params v s
params_of credit_hold_release v s = credit_hold_params v s
params_of detect_duplicate v s = duplicate_po_params v s
params_of hold_release v s = price_hold_params v s
params_of edi_recipe v s = edi_mismatch_params v s
params_of back_order_resolution v s = back_order_params v s
params_of over_max_trim v s = over_max_params v s
params_of moq_round_up v s = moq_params v s
params_of pallet_alignment v s = pallet_params v s
params_of delivery_delay_resolution v s = delivery_delay_params v s
params_of intake v s = intake_params v s
params_of submit_to_erp v s = submit_params v s
params_of reply_draft v s = reply_params v s
params_of email_order_entry v s = intake_params v s

-- a price hold asks for a base price above zero
abbrev lacks_base_price : RecipeName → GraphState → Bool
lacks_base_price hold_release s = leb_ℤ s.event.sap_base_price (pos 0)
lacks_base_price _ s = false

unfoldable pub invoke_for : Services → Option RecipeName → GraphState → GraphState
unfolding params_of leave halt
invoke_for v none s = leave validate_types ok s
invoke_for v (some r) s =
    if lacks_base_price r s
    then leave validate_types invocation_fail
        (halt fail_to_human (base_price_not_positive s.event.sap_base_price) s)
    else leave validate_types ok
        (record s { invocation = some (record { recipe_name = r; params = params_of r v s }) })

unfoldable pub do_validate_types : Services → GraphState → GraphState
unfolding invoke_for
do_validate_types v s = invoke_for v s.selected_recipe s
