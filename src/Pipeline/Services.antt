-- ===== src/Pipeline/Services.antt =====
-- What a run of the graph calls and does not own: the language-model backends (constraints/), the
-- second opinion (compliance/shadow_llm.py), the skill loader (skills/loader.py), the recipe
-- functions (recipes/), the gateways behind their ports, the composer of the read model
-- (api/analysis_composer.py), the metadata contract (contracts/duplicate_po_contract.py), and
-- Python's own float(), uuid4() and clock. All of them are arguments of the run.
use asoe.Prelude.{ℕ, ◌+◌, String, Bool, Option, List}
use asoe.Prelude.Int.{ℤ}
use asoe.Prelude.Dict.{Dict}
use asoe.Value.{Value}
use asoe.Gateway.{GatewayPort, GatewayRequest, GatewayResponse, Readings, run}
use asoe.Pipeline.{
  GraphState, World, IntentDecision, LlmCallTrace, ShadowStatus, ShadowLlmVerdict, RecipeName,
}
use asoe.Pipeline.Registry.{GatewayDependency}

pub record ShadowDecision : Type 0 where
  pub status : ShadowStatus
  pub reasons : List String
  pub policy_hits : List String

-- the second opinion: the threshold of its bundle, and its verdict at a financial impact
pub record SecondOpinion : Type 0 where
  pub financial_impact_threshold_usd : Option ℕ
  pub evaluate : GraphState → ℕ → Option ShadowLlmVerdict

-- what a recipe function does: it returns a dict or raises
pub data RecipeOutcome : Type 0 where
  returned : Dict Value → RecipeOutcome
  raised : String → RecipeOutcome

pub record Composed : Type 0 where
  pub should_route_to_audit_context_missing : Bool
  pub missing_audit_fields : List String

pub record Services : Type 0 where
  -- float(), on the values that it accepts
  pub float_of : Value → ℤ
  -- int(), on the values that it accepts
  pub int_of : Value → ℤ
  -- str(), on the values that are no text
  pub str_of : Value → String
  -- `none` is `DeterministicFallbackBackend`, and any other backend may leave a call trace
  pub intent_backend : Option (GraphState → IntentDecision × Option LlmCallTrace)
  pub recipe_backend : Option (GraphState → Option RecipeName × Option LlmCallTrace)
  pub shadow_backend : GraphState → ShadowDecision × Option LlmCallTrace
  -- `none` where it is disabled or its bundle is absent
  pub second_opinion : Option SecondOpinion
  pub select_for_event : String → Dict Value → Option String
  pub recipe_func : RecipeName → Dict Value → RecipeOutcome
  pub ports : Dict GatewayPort
  pub readings : ℕ → Readings
  pub fresh_id : ℕ → String
  pub time : ℕ → String
  -- the order in which the calls of the fan-out come back
  pub as_completed :
      List (GatewayDependency × GatewayResponse) → List (GatewayDependency × GatewayResponse)
  pub metadata_offenders : Dict Value → List String
  pub output_offenders : Dict Value → List String
  pub compose_from_state : GraphState → Composed

-- `uuid4()`
unfoldable pub draw_id : Services → World → String × World
draw_id v w = (v.fresh_id w.ticks, record w { ticks = w.ticks + 1 })

-- `GatewayExecutor.run`, on the gateway tier of the world
unfoldable pub call_gateway : Services → GatewayRequest → World → GatewayResponse × World
call_gateway v r w =
    let (tier', response) = run v.ports r (v.readings w.ticks) w.tier in
    (response, record w { tier = tier'; ticks = w.ticks + 1 })
