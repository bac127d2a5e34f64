-- ===== src/Pipeline/Registry/Spec.antt =====
-- recipes/registry.py and contracts/models.py: what a recipe declares, and the paths into the state
-- that its gateway reads name.
use asoe.Prelude.{◌*◌, String, Bool, Option, none, some, List}
use asoe.Prelude.Int.{pos}
use asoe.Value.{Value, null, str, num}
use asoe.Pipeline.{Intent, GraphState}

-- the dot-paths of `params_from_state`
pub data StatePath : Type 0 where
  event_order_id event_line_item event_retailer_id event_sku : StatePath

abbrev pub optional_text : Option String → Value
optional_text none = null
optional_text (some s) = str s

unfoldable pub read_path : StatePath → GraphState → Value
read_path event_order_id s = str s.event.order_id
read_path event_line_item s = num (pos (s.event.line_item * 1000000))
read_path event_retailer_id s = optional_text s.event.retailer_id
read_path event_sku s = optional_text s.event.sku

pub record GatewayDependency : Type 0 where
  pub gateway_name : String
  pub operation : String
  pub params_from_state : List (String × StatePath)
  pub result_key : String
  pub required_for_audit : Bool

pub record GatewayEffect : Type 0 where
  pub gateway_name : String
  pub operation : String
  pub params_from_output : List (String × String)
  pub only_on_recipe_status : Option (List String)

pub record RecipeSpec : Type 0 where
  pub name : String
  pub required_params : List String
  pub allowed_intents : List Intent
  pub dependencies : List GatewayDependency
  pub effects : List GatewayEffect
  pub expected_metadata_keys : List String
