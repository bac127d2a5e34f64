-- ===== src/Workflows/Saga.antt =====
-- workflows/runner.py: how a run of a workflow ends.
use asoe.Prelude.{
  ◌+◌, ◌≡◌, ◌≢◌, refl, sym, ap, ◌∙◌, ◌⊎◌, inl, inr, true, false, Option, none, some, List, [], ◌∷◌,
  ◌++◌, map, is_some, any_of, length, length-append, All, arith, Bool-cases, if◌then◌else◌,
}
use mathlib.Core.List.{reverse, map-append, append-nil, append_assoc}
use asoe.Pipeline.{TerminalStatus, complete, green, OrderEvent, GraphState, World}
use asoe.Pipeline.Services.{Services}
use asoe.Pipeline.Graph.{Environment, run_graph}
use asoe.Pipeline.Graph.Verdict.{IsGreen}
use asoe.Pipeline.Graph.Safety.{run_graph-gated}
use asoe.Workflows.{
  WorkflowStep, WorkflowDefinition, WorkflowStepResult, WorkflowResult, all_complete, failed,
  compensated, CompensationEntry, missing_event, Completed, state_for, mapped_event, step_result,
  is_complete, compensation_entry, compensate_all, run_steps, run,
}

-- a step with its result
abbrev pub Done : Type 0
Done = WorkflowStep × WorkflowStepResult

-- the graph completed the step, after the shadow said GREEN
abbrev pub IsCompletion : Done → Type 0
IsCompletion (step, r) =
    (r.step_id ≡ step.step_id) × ((r.final_status ≡ complete) × (r.shadow_verdict ≡ some green))

abbrev pub steps_of : List Done → List WorkflowStep
steps_of done = map (λ x. x.0) done

abbrev pub results_of : List Done → List WorkflowStepResult
results_of done = map (λ x. x.1) done

abbrev pub completion : Done → Completed
completion (step, r) = (step.step_id, step.compensation_recipe)

-- the compensations of what was done, the last step first
abbrev pub undoing : List Done → List CompensationEntry
undoing done = map compensation_entry (reverse (map completion done))

-- The three ways in which a workflow ends: all of its steps are complete; or one step is not, and no
-- later one is run; or the events run out before the steps do. The log compensates what was done.
pub data IsEnding (steps : List WorkflowStep) (events : List OrderEvent) (r : WorkflowResult)
    : Type 0 where
  finished :
      (done : List Done)
      → All IsCompletion done
      → steps ≡ steps_of done
      → r.step_results ≡ results_of done
      → r.status ≡ all_complete
      → r.compensation_log ≡ []
      → IsEnding steps events r
  stopped :
      (done : List Done) (step : WorkflowStep) (later : List WorkflowStep)
      (last : WorkflowStepResult)
      → All IsCompletion done
      → steps ≡ steps_of done ++ (step ∷ later)
      → r.step_results ≡ results_of done ++ (last ∷ [])
      → last.step_id ≡ step.step_id
      → last.final_status ≢ complete
      → r.status ≡ (
          if any_of (λ s. is_some s.compensation_recipe) (steps_of done)
          then compensated
          else failed)
      → r.compensation_log ≡ undoing done
      → IsEnding steps events r
  out_of_events :
      (done : List Done) (step : WorkflowStep) (later : List WorkflowStep)
      → All IsCompletion done
      → steps ≡ steps_of done ++ (step ∷ later)
      → length events ≡ length done
      → r.step_results ≡ results_of done
      → r.status ≡ failed
      → r.compensation_log ≡ undoing done ++ (missing_event step.step_id ∷ [])
      → IsEnding steps events r

module _ {ℓ κ} {A : Type ℓ} (P : A → Type κ) where
  All-append : (xs ys : List A) → All P xs → All P ys → All P (xs ++ ys)
  All-append [] ys h k = k
  All-append (x ∷ xs) ys h k = (h.0, All-append xs ys h.1 k)

any_of-completion :
    (done : List Done)
    → any_of (λ s. is_some s.1) (map completion done)
      ≡ any_of (λ s. is_some s.compensation_recipe) (steps_of done)
any_of-completion [] = refl
any_of-completion (x ∷ done) = rw (any_of-completion done) refl

is_complete-complete : (t : Option TerminalStatus) → is_complete t ≡ true → t ≡ some complete
is_complete-complete t h = ground (arith, h)

step_result-IsCompletion :
    (step : WorkflowStep) (s : GraphState)
    → s.final_status ≡ some complete
    → IsGreen s.shadow
    → IsCompletion (step, step_result step s)
unfolding step_result
step_result-IsCompletion step s h (c, (at, green_now)) =
    (refl, (rw h refl, rw at (ap some green_now)))

step_result-incomplete :
    (step : WorkflowStep) (s : GraphState)
    → is_complete s.final_status ≡ false
    → (step_result step s).final_status ≢ complete
unfolding step_result
step_result-incomplete step s h = λ e. ground (arith, h, e)

-- one more step is done
steps_of-snoc :
    (done : List Done) (x : Done) (later : List WorkflowStep)
    → steps_of (done ++ (x ∷ [])) ++ later ≡ steps_of done ++ (x.0 ∷ later)
steps_of-snoc done x later =
    ap (λ l. l ++ later) (map-append (λ y. y.0) done (x ∷ []))
    ∙ append_assoc (steps_of done) _ later

complete-IsGreen :
    {A B : Type 0} {t : Option TerminalStatus}
    → (A × (t ≢ some complete)) ⊎ B
    → t ≡ some complete
    → B
complete-IsGreen (inl (a, not_complete)) h = absurd (not_complete h)
complete-IsGreen (inr b) h = b

module _ (v : Services) (env : Environment) (d : WorkflowDefinition)
    (events : List OrderEvent) where
  -- the run came to an end, as a workflow does
  abbrev pub EndsAs : List WorkflowStep → Option (WorkflowResult × World) → Type 0
  EndsAs steps o = (r : WorkflowResult × World) × ((o ≡ some r) × IsEnding steps events r.0)

  -- the run that goes on, or stops, at one step
  step-EndsAs :
      (done : List Done) (step : WorkflowStep) (steps : List WorkflowStep) (e : OrderEvent)
      (es : List OrderEvent) (w : World) (s : GraphState) (w' : World)
      → All IsCompletion done
      → run_graph v env none (state_for (mapped_event step (results_of done) e)) w ≡ some (s, w')
      → let done' = done ++ ((step, step_result step s) ∷ []) in
        (is_complete s.final_status ≡ true
          → EndsAs
              (steps_of done' ++ steps)
              (run_steps v env d steps es (results_of done') (map completion done') w'))
        → EndsAs
            (steps_of done ++ (step ∷ steps))
            (run_steps v env d (step ∷ steps) (e ∷ es) (results_of done) (map completion done) w)
  unfolding run_steps compensate_all
  step-EndsAs done step steps e es w s w' h ran go =
      elim (Bool-cases (is_complete s.final_status)) [
        | inl goes_on ↦
            let x : Done = (step, step_result step s) in
            rw (ran, goes_on, run_steps)
              (rw
                (
                  sym (steps_of-snoc done x steps),
                  sym (map-append (λ y. y.1) done (x ∷ [])),
                  sym (map-append completion done (x ∷ [])),
                )
                (go goes_on))
        | inr stops ↦
            rw (ran, stops, run_steps)
              (
                _,
                (
                  refl,
                  stopped done step steps (step_result step s) h refl refl refl
                      (step_result-incomplete step s stops) (rw (any_of-completion done) refl) refl,
                ),
              )
      ]

  run_steps-EndsAs :
      (done : List Done) (steps : List WorkflowStep) (es : List OrderEvent) (w : World)
      → All IsCompletion done
      → length events ≡ length done + length es
      → EndsAs
          (steps_of done ++ steps)
          (run_steps v env d steps es (results_of done) (map completion done) w)
  unfolding run_steps compensate_all
  run_steps-EndsAs done [] es w h at =
      (_, (refl, finished done h (append-nil (steps_of done)) refl refl refl))
  run_steps-EndsAs done (step ∷ steps) [] w h at =
      (_, (refl, out_of_events done step steps h refl (omega (arith, at)) refl refl refl))
  run_steps-EndsAs done (step ∷ steps) (e ∷ es) w h at =
      let s0 = state_for (mapped_event step (results_of done) e) in
      let ((s, w'), (ran, (ended, gated))) =
        run_graph-gated v env none s0 w (λ c. ground (arith, c)) in
      let x : Done = (step, step_result step s) in
      step-EndsAs done step steps e es w s w' h ran (λ full.
        run_steps-EndsAs (done ++ (x ∷ [])) steps es w'
          (All-append IsCompletion done (x ∷ []) h (
            step_result-IsCompletion step s (is_complete-complete _ full)
                (complete-IsGreen gated (is_complete-complete _ full)),
            tt,
          ))
          (omega (arith, at, length-append done (x ∷ []))))

  -- A workflow's run always gives a result, and it ends in one of three ways. Every step is complete, in
  -- the order of the definition, each under a GREEN verdict. Or the steps before one are complete so, that
  -- step is not and is the last one run, and the log compensates the complete ones from the last to the
  -- first; the status is COMPENSATED where one of them declares a recipe. Or the events run out at a step,
  -- after the ones before it are complete: the run FAILED, and the log also names that step.
  pub run-IsEnding : (w : World) → EndsAs d.steps (run v env d events w)
  unfolding run
  run-IsEnding w = run_steps-EndsAs [] d.steps events w tt (omega arith)
