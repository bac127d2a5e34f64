-- ===== src/Lib.antt =====
-- asoe: a control tower for order exceptions. An event about an order is classified, a recipe is
-- proposed, its evidence is read from gateways, a compliance shadow judges the proposal, and only then
-- the recipe is run and its effects are applied; every external write is kept in an outbox.
--
-- The parts, and the files that model them (paths are from the repository's root):
--   Breaker       llm/circuit_breaker.py, `LLMCircuitBreaker`: the state of one breaker is a record, each
--                 method a function of the readings of the clock. Times are whole milliseconds.
--   Gateway       gateways/circuit_breaker.py and gateways/executor.py: a breaker and a meter for each
--                 gateway name, and `GatewayExecutor.run`. A gateway is a port, a function from a request
--                 and a timeout to what the thread pool sees.
--   Value         the values of `Dict[str, Any]`, with numbers in exact millionths.
--   Outbox        orchestration/outbox.py: `record_effect`, the in-memory backend and
--                 `reconcile_pending`, over an executor that acts on a world of any type.
--   Pipeline      contracts/models.py: the state of the graph and its vocabularies. Its children are
--     Registry      recipes/registry.py, and the declarations of gateway reads and effects,
--     Services      what a run calls and does not own,
--     Fallback      constraints/fallback_backend.py, constraints/cross_check.py and
--                   orchestration/utils.py,
--     Policy        `shadow_decision` of constraints/fallback_backend.py,
--     Intake, Evidence, Invocation, Audit, Execution, Effects, Analysis
--                   the nodes of orchestration/nodes.py, in their order, with compliance/shadow.py,
--                   `combine_verdicts` of compliance/shadow_llm.py, recipes/executor.py and
--                   contracts/autonomy.py,
--     Graph         orchestration/graph.py and hardening/kill_switch.py: the edges, `run_graph`, and
--                   below it the theorems on whole runs.
--   Recipes       recipes/PriceHoldReleaseRecipe.py, recipes/MOQRoundUpRecipe.py; in
--                 Recipes/EdiMismatch, recipes/EdiMismatchRecipe.py; in Recipes/Pallets,
--                 recipes/PalletAlignmentRecipe.py; in Recipes/DuplicatePo,
--                 recipes/DuplicatePORecipe.py.
--   Cases         the case of an order and its store (contracts/models.py; api/store.py, `CaseStore`);
--                 below it, Update has the calls that change a case, and Resolver api/case_resolver.py.
--   Records       child cases and their store (api/store.py, `ExceptionStore`); Records/Chain is the
--                 hash-chained audit log.
--   Hitl          the human decisions of api/routes/exceptions.py: the record under review, the helpers
--                 of the handlers (Serving, Guards) and the handlers (Actions), served one after another.
--   Agents        agents/budget.py and agents/case_tools.py; below it, Loop is agents/case_agent.py,
--                 Compaction agents/compaction.py and Harness agents/harness.py.
--   Workflows     workflows/runner.py: the saga runner, each step of which is a run of the graph.
--   Prelude       shared names, lists, dictionaries, integers and rounding.
--
-- The nodes act on the graph state and on a world, which holds the gateway tier, the outbox and a
-- count from which new ids and times are drawn. `call_gateway` is `Gateway.run` on that tier, and an
-- applied effect is `Outbox.record_effect` on that outbox, so that the parts are composed as in the
-- code. A run has at most 25 steps, LangGraph's default recursion limit; a path of the edges has at
-- most eleven nodes.
--
-- The loop of the agent acts on a world of any type, to which the provider, the tools and the clock
-- belong; its fuel is one round more than the iterations that its budget has left, and every round uses
-- one.
--
-- What is outside: the language models, the second opinion's provider and cache, the skill files, the
-- recipe functions as the graph calls them, the composer of the read model, the metadata contract,
-- sha256, JSON, float(), int(), str(), uuid4() and the clock are services, arguments of the run. Floats are exact millionths.
-- The exceptions that float() and int() raise on text that is no number, the texts of explanations, the times
-- and the decision record of trace entries, logging, the database backend and the rest of the
-- HTTP layer are not modelled; of the human decisions, the ERP submission, the buyer replies and reanalyze
-- are left out.
pub mod Agents
pub mod Breaker
pub mod Cases
pub mod Gateway
pub mod Hitl
pub mod Outbox
pub mod Pipeline
pub mod Prelude
pub mod Recipes
pub mod Records
pub mod Value
pub mod Workflows
