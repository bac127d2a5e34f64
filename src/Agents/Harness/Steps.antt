-- ===== src/Agents/Harness/Steps.antt =====
-- agents/harness.py: the lock and the replay log over one step.
use asoe.Prelude.{
  ℕ, ◌+◌, ◌≡◌, refl, sym, ap, ◌∙◌, String, true, Option, none, some, List, [], ◌∷◌, ◌++◌, map,
  arith, any_of, eq_refl, inl, inr, Bool-cases,
}
use mathlib.Core.List.{append-nil}
use asoe.Prelude.Results.{Result, ok, err}
use asoe.Cases.{OrderCase, StoreError}
use asoe.Cases.Update.{no_fields}
use asoe.Agents.{CaseBudget, ToolCall, ToolResult}
use asoe.Agents.Loop.{AgentRunResult, AgentState, budget_of}
use asoe.Agents.Compaction.{CompactionResult}
use asoe.Agents.Harness.{
  Hold, is_foreign, try_acquire, release, ToolCallReplayEntry, replay_entries, HarnessPort,
  StepWorld, StepInput, Outcome, skipped_result, with_world, finish_step, compact_step, record_step,
  after_run, agent_step, run_inner, graduated_step, released, step_with, compacted_fields,
  run_agent_step, graduate_tier_if_needed, update_store,
}

-- the tool calls and results of replay entries
abbrev pub pairs_of : List ToolCallReplayEntry → List (ToolCall × ToolResult)
pairs_of es = map (λ e. (e.tool_call, e.tool_result)) es

replay_entries-pairs :
    (c : OrderCase) (now : String) (r : AgentRunResult) (i : ℕ)
    (trace : List (ToolCall × ToolResult))
    → pairs_of (replay_entries c now r i trace) ≡ trace
unfolding replay_entries
replay_entries-pairs c now r i [] = refl
replay_entries-pairs c now r i (x ∷ trace) =
    ap (λ t. x ∷ t) (replay_entries-pairs c now r (i + 1) trace)

release_own :
    (tenant case_id : String) (thread : ℕ) (locks : List Hold)
    → release tenant case_id thread
        (record { tenant_id = tenant; case_id = case_id; thread = thread } ∷ locks)
      ≡ locks
unfolding release
release_own tenant case_id thread locks = ground (arith, eq_refl tenant, eq_refl case_id)

-- the log grows, and by the calls of the agent's trace where the step succeeds
abbrev pub IsLogged : {W : Type 0} → List ToolCallReplayEntry → Outcome W → Type 0
IsLogged log (ok r, w) =
    (w.replay_log ≡ log ++ r.replay_entries)
    × (pairs_of r.replay_entries ≡ r.agent_result.tool_trace)
IsLogged log (err e, w) = (es : List ToolCallReplayEntry) × (w.replay_log ≡ log ++ es)

abbrev IsKept : {W : Type 0} → StepWorld W → Outcome W → Type 0
IsKept w o = (o.1.locks ≡ w.locks) × IsLogged w.replay_log o

module _ {W : Type 0} (port : HarnessPort W) where
  with_world-IsKept :
      (go : W → Outcome W) (u : Result StoreError (OrderCase × W)) (v w : StepWorld W)
      → v.locks ≡ w.locks
      → (es : List ToolCallReplayEntry) → v.replay_log ≡ w.replay_log ++ es
      → ((x : W) → IsKept w (go x))
      → IsKept w (with_world port go u v)
  with_world-IsKept go (err e) v w l es h next = (l, (es, h))
  with_world-IsKept go (ok (c, x)) v w l es h next = next x

  compact_step-IsKept :
      (c : OrderCase) (r : AgentRunResult) (es : List ToolCallReplayEntry)
      (k : Option CompactionResult) (v w : StepWorld W)
      → v.locks ≡ w.locks
      → v.replay_log ≡ w.replay_log ++ es
      → pairs_of es ≡ r.tool_trace
      → IsKept w (compact_step port c r es k v)
  unfolding compact_step finish_step
  compact_step-IsKept c r es none v w l h p = (l, (h, p))
  compact_step-IsKept c r es (some k) v w l h p =
      with_world-IsKept (λ x. finish_step port c r es (some k) (record v { world = x }))
        (update_store port c.case_id (compacted_fields port k (port.join k)) v.world) v w l es h
        (λ x. (l, (h, p)))

  after_run-IsKept :
      (c : OrderCase) (o : Option (AgentRunResult × AgentState W)) (w : StepWorld W)
      → IsKept w (after_run port c o w)
  unfolding after_run record_step
  after_run-IsKept c none w = (refl, ([], sym (append-nil w.replay_log)))
  after_run-IsKept c (some (r, t)) w =
      compact_step-IsKept c r _ _ _ w refl refl (replay_entries-pairs c _ r 0 r.tool_trace)

  agent_step-IsKept :
      (i : StepInput) (c : OrderCase) (b : Option CaseBudget) (w : StepWorld W)
      → IsKept w (agent_step port i c b w)
  unfolding agent_step
  agent_step-IsKept i c none w = (refl, ([], sym (append-nil w.replay_log)))
  agent_step-IsKept i c (some b) w = after_run-IsKept c _ w

  run_inner-IsKept :
      (i : StepInput) (c : OrderCase) (w : StepWorld W) → IsKept w (run_inner port i c w)
  unfolding run_inner
  run_inner-IsKept i c w =
      agent_step-IsKept i c (budget_of i.budget c (port.agent.now_ms w.world)) w

  graduated_step-IsKept :
      (i : StepInput) (c : OrderCase) (g : Option OrderCase) (w : StepWorld W)
      → IsKept w (graduated_step port i c g w)
  unfolding graduated_step
  graduated_step-IsKept i c none w = run_inner-IsKept i c w
  graduated_step-IsKept i c (some g) w =
      with_world-IsKept (λ x. run_inner port i g (record w { world = x }))
        (update_store port c.case_id (record no_fields { tier = some g.tier }) w.world) w w refl []
        (sym (append-nil w.replay_log)) (λ x. run_inner-IsKept i g (record w { world = x }))

  released-IsKept :
      (c : OrderCase) (thread : ℕ) (w : StepWorld W) (o : Outcome W)
      → o.1.locks
        ≡ record { tenant_id = c.tenant_id; case_id = c.case_id; thread = thread } ∷ w.locks
      → IsLogged w.replay_log o
      → IsKept w (released port c.tenant_id c.case_id thread o)
  released-IsKept c thread w (ok r, v) l h = (
    ap (release c.tenant_id c.case_id thread) l ∙ release_own c.tenant_id c.case_id thread w.locks,
    h,
  )
  released-IsKept c thread w (err e, v) l h = (
    ap (release c.tenant_id c.case_id thread) l ∙ release_own c.tenant_id c.case_id thread w.locks,
    h,
  )

  -- Whatever a step does, errors included, it leaves the locks as they were and only adds to the replay
  -- log; where it succeeds, what it adds are the tool calls of the agent's trace with their results, in
  -- their order.
  pub run_agent_step-IsKept :
      (thread : ℕ) (i : StepInput) (c : OrderCase) (w : StepWorld W)
      → ((run_agent_step port thread i c w).1.locks ≡ w.locks)
        × IsLogged w.replay_log (run_agent_step port thread i c w)
  unfolding run_agent_step step_with try_acquire
  run_agent_step-IsKept thread i c w =
      elim (Bool-cases (any_of (is_foreign c.tenant_id c.case_id thread) w.locks)) [
        | inl held ↦ rw held (refl, (sym (append-nil w.replay_log), refl))
        | inr free ↦
            let hold : Hold = record {
              tenant_id = c.tenant_id;
              case_id = c.case_id;
              thread = thread;
            } in
            let kept =
              graduated_step-IsKept i c (graduate_tier_if_needed i.is_clean_event c)
                (record w { locks = hold ∷ w.locks }) in
            rw free (released-IsKept c thread w _ kept.0 kept.1)
      ]

  -- Where another thread holds the lock of the case, the step is skipped with an error and changes
  -- nothing.
  pub run_agent_step-locked :
      (thread : ℕ) (i : StepInput) (c : OrderCase) (w : StepWorld W)
      → any_of (is_foreign c.tenant_id c.case_id thread) w.locks ≡ true
      → run_agent_step port thread i c w ≡ (ok (skipped_result c), w)
  unfolding run_agent_step step_with try_acquire
  run_agent_step-locked thread i c w h = rw h refl
