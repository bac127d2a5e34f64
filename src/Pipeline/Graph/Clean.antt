-- ===== src/Pipeline/Graph/Clean.antt =====
-- A clean end of a recipe: recipes/executor.py, contracts/autonomy.py and execute_recipe of
-- orchestration/nodes.py, and the nodes behind it.
use asoe.Prelude.{
  ◌≡◌, ◌≢◌, refl, sym, ap, ◌∙◌, String, true, false, ◌&&◌, ◌⊎◌, inl, inr, Option, none, some, List,
  [], ◌∷◌, arith, Bool-cases,
}
use asoe.Prelude.Dict.{Dict, lookup-insert}
use asoe.Value.{Value, str, get_value, value_of, truthy}
use asoe.Pipeline.{
  TerminalStatus, complete, fail_to_human, manual_review_required, blocked, rejected,
  complete_with_children, audit_context_missing, Explanation, RecipeName, Intent, RecipeInvocation,
  ExecutionLog, GraphState, World, record_node, leave_plain, halt,
}
use asoe.Pipeline.Registry.{GatewayEffect, get_recipe}
use asoe.Pipeline.Services.{Services, draw_id}
use asoe.Pipeline.Execution.{
  run_recipe, requires_human, stamp_vocab, route_outputs, route_log, gate_submit, is_intake,
  is_intake_recipe, log_of, finish_execution, execute_for,
}
use asoe.Pipeline.Effects.{note_response, apply_effect, try_effect, apply_all, apply_for}
use asoe.Pipeline.Analysis.{
  check_coverage, check_contract, contract_offenders, is_exempt, do_build_analysis,
}
use asoe.Pipeline.Graph.Verdict.{IsIncomplete}

-- A recipe ran without error, at an autonomy that needs no human, and it is not
-- ManualOrderIntakeRecipe for the intent of a manual order intake. The alias EmailOrderEntryRecipe for
-- that intent is not excluded.
abbrev pub IsClean : GraphState → Type 0
IsClean s =
    (log : ExecutionLog) × ((s.execution_log ≡ some log)
      × (log.errors ≡ [])
      × (requires_human (get_value "autonomy_level" log.outputs) ≡ false)
      × ((is_intake s.intent && is_intake_recipe s.selected_recipe) ≡ false))

stamp_vocab-autonomy :
    (outputs : Dict Value)
    → get_value "autonomy_level" (stamp_vocab outputs) ≡ get_value "autonomy_level" outputs
unfolding stamp_vocab
stamp_vocab-autonomy outputs = elim (Bool-cases (truthy (get_value "autonomy_level" outputs))) [
  | inl given ↦
      rw (stamp_vocab, given)
        (ap value_of (lookup-insert "autonomy_vocab_version" "autonomy_level" (str "v2") outputs))
  | inr absent ↦ rw (stamp_vocab, absent) refl
]

gate_submit-complete :
    (i : Intent) (r : Option RecipeName) (t : TerminalStatus) (e : Explanation)
    → (gate_submit i r (t, e)).0 ≡ complete
    → ((is_intake i && is_intake_recipe r) ≡ false) × (t ≡ complete)
unfolding gate_submit
gate_submit-complete i r complete e h = (ground (arith, h), refl)
gate_submit-complete i r fail_to_human e h = ground (arith, h)
gate_submit-complete i r manual_review_required e h = ground (arith, h)
gate_submit-complete i r blocked e h = ground (arith, h)
gate_submit-complete i r rejected e h = ground (arith, h)
gate_submit-complete i r complete_with_children e h = ground (arith, h)
gate_submit-complete i r audit_context_missing e h = ground (arith, h)

needs_human :
    (outputs : Dict Value)
    → requires_human (get_value "autonomy_level" outputs) ≡ true
    → (route_outputs outputs).0 ≡ manual_review_required
unfolding route_outputs
needs_human outputs human = rw (route_outputs, human) refl

route_outputs-complete :
    (outputs : Dict Value)
    → (route_outputs outputs).0 ≡ complete
    → requires_human (get_value "autonomy_level" outputs) ≡ false
route_outputs-complete outputs h =
    elim (Bool-cases (requires_human (get_value "autonomy_level" outputs))) [
      | inl human ↦ ground (arith, sym h ∙ needs_human outputs human)
      | inr free ↦ free
    ]

-- the same run: what `IsClean` reads
pub record SameRun (s s' : GraphState) : Type 0 where
  pub log : s'.execution_log ≡ s.execution_log
  pub intent : s'.intent ≡ s.intent
  pub recipe : s'.selected_recipe ≡ s.selected_recipe

pub IsClean-on : (s s' : GraphState) → SameRun s s' → IsClean s → IsClean s'
IsClean-on s s' k (log, (there, no_errors, free, other)) = (
  log,
  (
    k.log ∙ there,
    no_errors,
    free,
    ap (λ i. is_intake i && is_intake_recipe s'.selected_recipe) k.intent
        ∙ ap (λ r. is_intake s.intent && is_intake_recipe r) k.recipe
        ∙ other,
  ),
)

complete-cases : (t : TerminalStatus) → (t ≢ complete) ⊎ (t ≡ complete)
complete-cases complete = inr refl
complete-cases fail_to_human = inl (λ c. ground (arith, c))
complete-cases manual_review_required = inl (λ c. ground (arith, c))
complete-cases blocked = inl (λ c. ground (arith, c))
complete-cases rejected = inl (λ c. ground (arith, c))
complete-cases complete_with_children = inl (λ c. ground (arith, c))
complete-cases audit_context_missing = inl (λ c. ground (arith, c))

some-complete : {t : TerminalStatus} → some t ≡ some complete → t ≡ complete
some-complete c = cc c

finish-IsClean :
    (i : RecipeInvocation) (result : Dict Value × List String) (fresh : String) (s : GraphState)
    → let s' = finish_execution i result fresh s in IsIncomplete s' ⊎ IsClean s'
unfolding finish_execution leave_plain record_node halt log_of
finish-IsClean i (outputs, e ∷ es) fresh s = inl (λ c. ground (arith, c))
finish-IsClean i (outputs, []) fresh s =
    elim (complete-cases (route_log s.intent s.selected_recipe (outputs, [])).0) [
      | inl open_end ↦ inl (λ c. open_end (some-complete c))
      | inr done ↦
          let (other, plain) = gate_submit-complete s.intent s.selected_recipe _ _ done in
          inr (
            log_of i (outputs, []) fresh s,
            (
              refl,
              refl,
              ap requires_human (stamp_vocab-autonomy outputs)
                  ∙ route_outputs-complete outputs plain,
              other,
            ),
          )
    ]

pub execute-IsClean :
    (v : Services) (i : Option RecipeInvocation) (s : GraphState) (w : World)
    → let s' = (execute_for v i s w).0 in IsIncomplete s' ⊎ IsClean s'
unfolding execute_for draw_id leave_plain record_node halt
execute-IsClean v none s w = inl (λ c. ground (arith, c))
execute-IsClean v (some i) s w =
    finish-IsClean i (run_recipe v i.recipe_name i.params) (v.fresh_id w.ticks) s

try_effect-SameRun :
    (v : Services) (name : RecipeName) (outputs : Dict Value) (e : GatewayEffect) (s : GraphState)
    (w : World)
    → SameRun s (try_effect v name outputs e s w).0
unfolding try_effect apply_effect note_response
try_effect-SameRun v name outputs e s w = record {
  log = ground arith;
  intent = ground arith;
  recipe = ground arith;
}

apply_all-SameRun :
    (v : Services) (name : RecipeName) (outputs : Dict Value) (es : List GatewayEffect)
    (s : GraphState) (w : World)
    → SameRun s (apply_all v name outputs es s w).0
unfolding apply_all
apply_all-SameRun v name outputs [] s w = record { log = refl; intent = refl; recipe = refl }
apply_all-SameRun v name outputs (e ∷ es) s w =
    let (s', w') = try_effect v name outputs e s w in
    let one = try_effect-SameRun v name outputs e s w in
    let rest = apply_all-SameRun v name outputs es s' w' in
    record {
      log = rest.log ∙ one.log;
      intent = rest.intent ∙ one.intent;
      recipe = rest.recipe ∙ one.recipe;
    }

pub apply_for-SameRun :
    (v : Services) (r : Option RecipeName) (l : Option ExecutionLog) (s : GraphState) (w : World)
    → SameRun s (apply_for v r l s w).0
unfolding apply_for
apply_for-SameRun v (some r) (some l) s w =
    apply_all-SameRun v r l.outputs (get_recipe r).effects s w
apply_for-SameRun v (some r) none s w = record { log = refl; intent = refl; recipe = refl }
apply_for-SameRun v none l s w = record { log = refl; intent = refl; recipe = refl }

contract-SameRun :
    (v : Services) (os : List String) (s : GraphState) → SameRun s (check_contract v os s)
unfolding check_contract check_coverage leave_plain record_node halt
contract-SameRun v [] s = record {
  log = ground arith;
  intent = ground arith;
  recipe = ground arith;
}
contract-SameRun v (o ∷ os) s = record { log = refl; intent = refl; recipe = refl }

pub analysis-SameRun : (v : Services) (s : GraphState) → SameRun s (do_build_analysis v s)
unfolding do_build_analysis leave_plain record_node
analysis-SameRun v s = elim (Bool-cases (is_exempt s.final_status)) [
  | inl exempt ↦
      rw (do_build_analysis, exempt) (record { log = refl; intent = refl; recipe = refl })
  | inr judged ↦ rw (do_build_analysis, judged) (contract-SameRun v (contract_offenders v s) s)
]
