-- ===== src/Pipeline/Registry.antt =====
-- recipes/registry.py: what each recipe requires, the gateway reads that it depends on and the
-- gateway effects that follow it. The functions themselves stand in the services of the run.
mod Spec
mod Pricing
mod Supply
mod OrderIntake
use asoe.Prelude.{String}
use asoe.Pipeline.{
  RecipeName, price_adjustment, credit_hold_release, detect_duplicate, hold_release, edi_recipe,
  back_order_resolution, over_max_trim, moq_round_up, pallet_alignment, delivery_delay_resolution,
  intake, submit_to_erp, reply_draft, email_order_entry,
}
pub use Spec.{optional_text, StatePath, GatewayDependency, GatewayEffect, RecipeSpec}
unfoldable pub use Spec.{read_path}
use Pricing.{
  price_adjustment_spec, credit_hold_release_spec, detect_duplicate_spec, hold_release_spec,
  edi_recipe_spec,
}
use Supply.{
  back_order_resolution_spec, over_max_trim_spec, moq_round_up_spec, pallet_alignment_spec,
  delivery_delay_resolution_spec,
}
use OrderIntake.{intake_spec, submit_to_erp_spec, reply_draft_spec}

-- `REGISTRY`, and `get_recipe`, which cannot miss a name of the closed list
unfoldable pub get_recipe : RecipeName → RecipeSpec
get_recipe price_adjustment = price_adjustment_spec
get_recipe credit_hold_release = credit_hold_release_spec
get_recipe detect_duplicate = detect_duplicate_spec
get_recipe hold_release = hold_release_spec
get_recipe edi_recipe = edi_recipe_spec
get_recipe back_order_resolution = back_order_resolution_spec
get_recipe over_max_trim = over_max_trim_spec
get_recipe moq_round_up = moq_round_up_spec
get_recipe pallet_alignment = pallet_alignment_spec
get_recipe delivery_delay_resolution = delivery_delay_resolution_spec
get_recipe intake = intake_spec
get_recipe submit_to_erp = submit_to_erp_spec
get_recipe reply_draft = reply_draft_spec
get_recipe email_order_entry = record intake_spec { name = "EmailOrderEntryRecipe.py" }

-- the names as the registry spells them
abbrev pub recipe_file : RecipeName → String
recipe_file price_adjustment = "PriceAdjustmentRecipe.py"
recipe_file credit_hold_release = "CreditHoldReleaseRecipe.py"
recipe_file detect_duplicate = "DuplicatePORecipe.py"
recipe_file hold_release = "PriceHoldReleaseRecipe.py"
recipe_file edi_recipe = "EdiMismatchRecipe.py"
recipe_file back_order_resolution = "BackOrderResolutionRecipe.py"
recipe_file over_max_trim = "OverMaxTrimRecipe.py"
recipe_file moq_round_up = "MOQRoundUpRecipe.py"
recipe_file pallet_alignment = "PalletAlignmentRecipe.py"
recipe_file delivery_delay_resolution = "DeliveryDelayResolutionRecipe.py"
recipe_file intake = "ManualOrderIntakeRecipe.py"
recipe_file submit_to_erp = "SubmitToErpRecipe.py"
recipe_file reply_draft = "ReplyDraftRecipe.py"
recipe_file email_order_entry = "EmailOrderEntryRecipe.py"
