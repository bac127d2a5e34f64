-- ===== src/Pipeline/Graph/Frame.antt =====
-- What the nodes of orchestration/nodes.py up to the choice of a recipe leave alone: the execution
-- log, the effects, the outbox and the status COMPLETE.
use asoe.Prelude.{◌≡◌, ◌≢◌, refl, ◌∙◌, Bool, true, false, not, Option, none, some, arith}
use asoe.Pipeline.{
  complete, RecipeName, GraphState, World, IntentDecision, LlmCallTrace, record_node, leave,
  leave_plain, halt,
}
use asoe.Pipeline.Services.{Services, draw_id}
use asoe.Pipeline.Intake.{
  drain_llm_trace, stamp_trace_id, stamp_check, do_ingest, route_check, classify_checked,
  classify_by, do_validate_circuit_breaker, select_proposed, select_by,
}
use asoe.Pipeline.Fallback.{classify_intent, cross_check}

-- the run has acted no further: the same log, the same effects, the same outbox
abbrev pub IsIdle : GraphState → World → GraphState → World → Type 0
IsIdle s w s' w' =
    (s'.execution_log ≡ s.execution_log)
    × (s'.effect_results ≡ s.effect_results)
    × (w'.outbox ≡ w.outbox)

-- and it has not said that the work is complete
abbrev pub NewlyComplete : GraphState → GraphState → Type 0
NewlyComplete s s' = (s.final_status ≢ some complete) × (s'.final_status ≡ some complete)

-- what a node that only prepares keeps
pub record IsQuiet (s : GraphState) (w : World) (s' : GraphState) (w' : World) : Type 0 where
  pub log : s'.execution_log ≡ s.execution_log
  pub effects : s'.effect_results ≡ s.effect_results
  pub outbox : w'.outbox ≡ w.outbox
  pub complete_only : s'.final_status ≡ some complete → s.final_status ≡ some complete

abbrev pub quiet : (s : GraphState) (w : World) → IsQuiet s w s w
quiet s w = record { log = refl; effects = refl; outbox = refl; complete_only = λ h. h }

pub ingest-IsQuiet :
    (v : Services) (s : GraphState) (w : World)
    → let (s', w') = do_ingest v s w in IsQuiet s w s' w'
unfolding do_ingest stamp_trace_id draw_id leave_plain record_node halt
ingest-IsQuiet v s w = record {
  log = ground arith;
  effects = ground arith;
  outbox = ground arith;
  complete_only = λ h. ground (arith, h);
}

-- any change of the parts that the lemmas do not speak of
pub also :
    {s s' s'' : GraphState} {w w' w'' : World}
    → IsQuiet s w s' w'
    → s''.execution_log ≡ s'.execution_log
    → s''.effect_results ≡ s'.effect_results
    → w''.outbox ≡ w'.outbox
    → (s''.final_status ≡ some complete → s'.final_status ≡ some complete)
    → IsQuiet s w s'' w''
also q l e o c = record {
  log = l ∙ q.log;
  effects = e ∙ q.effects;
  outbox = o ∙ q.outbox;
  complete_only = λ h. q.complete_only (c h);
}

pub drain-IsQuiet :
    (t : Option LlmCallTrace) (s : GraphState) (w : World) → IsQuiet s w (drain_llm_trace t s) w
unfolding drain_llm_trace
drain-IsQuiet none s w = quiet s w
drain-IsQuiet (some t) s w = also (quiet s w) refl refl refl (λ h. h)

route_check-IsQuiet :
    (b : Bool) (win llm det : IntentDecision) (s0 s : GraphState) (w : World)
    → IsQuiet s0 w s w
    → IsQuiet s0 w (route_check b win llm det s) w
unfolding route_check leave record_node halt
route_check-IsQuiet true win llm det s0 s w q = also q refl refl refl (λ h. h)
route_check-IsQuiet false win llm det s0 s w q = also q refl refl refl (λ h. ground (arith, h))

pub classify-IsQuiet :
    (b : Option (GraphState → IntentDecision × Option LlmCallTrace)) (s0 s : GraphState) (w : World)
    → IsQuiet s0 w s w
    → IsQuiet s0 w (classify_by b s) w
unfolding classify_by classify_checked leave record_node
classify-IsQuiet none s0 s w q = also q refl refl refl (λ h. h)
classify-IsQuiet (some b) s0 s w q =
    let (llm, trace) = b s in
    let det = classify_intent s in
    let check = cross_check llm det in
    let d = drain-IsQuiet trace s w in
    route_check-IsQuiet check.agreed check.winning_decision llm det s0
      (stamp_check (not check.agreed) llm det (drain_llm_trace trace s)) w
      (also q d.log d.effects d.outbox d.complete_only)

pub breaker-IsQuiet : (s : GraphState) (w : World) → IsQuiet s w (do_validate_circuit_breaker s) w
unfolding do_validate_circuit_breaker leave record_node halt
breaker-IsQuiet s w = record {
  log = ground arith;
  effects = ground arith;
  outbox = refl;
  complete_only = λ h. ground (arith, h);
}

select_proposed-IsQuiet :
    (r : Option RecipeName) (s0 s : GraphState) (w : World)
    → IsQuiet s0 w s w
    → IsQuiet s0 w (select_proposed r s) w
unfolding select_proposed leave record_node
select_proposed-IsQuiet none s0 s w q = also q refl refl refl (λ h. h)
select_proposed-IsQuiet (some r) s0 s w q = also q refl refl refl (λ h. h)

pub select-IsQuiet :
    (v : Services) (r : Option RecipeName) (s : GraphState) (w : World)
    → IsQuiet s w (select_by v r s) w
unfolding select_by leave record_node
select-IsQuiet v (some r) s w = also (quiet s w) refl refl refl (λ h. h)
select-IsQuiet v none s w = select_proposed-IsQuiet _ s _ w (drain-IsQuiet _ s w)
