-- ===== src/Pipeline/Graph/Gates.antt =====
-- Two gates of the graph of orchestration/graph.py: the fan-out of gateway reads
-- (resolve_dependencies), and the second opinion (compliance/shadow_llm.py).
use asoe.Prelude.{
  ℕ, ◌+◌, ◌≤◌, ◌≡◌, refl, sym, ◌∙◌, Bool, true, Option, none, some, List, [], ◌∷◌, ◌++◌, arith,
  any_of, Bool-cases, inl, inr, if◌then◌else◌,
}
use mathlib.Core.Bool.{Bool-set}
use mathlib.Core.List.{
  Perm, Mem, mem-cons_self, mem-cons_of_mem, eq-or-mem_of_mem-cons, not-mem-nil,
}
use mathlib.Core.List.Perm
use mathlib.Core.Logic.Or
use asoe.Gateway.{GatewayResponse}
use asoe.Pipeline.{
  fail_to_human, ShadowStatus, green, yellow, red, ShadowLlmVerdict, GatewayCallSpan, GraphState,
  record_node, halt,
}
use asoe.Pipeline.Registry.{GatewayDependency}
use asoe.Pipeline.Evidence.{is_fatal, gather, span, store_evidence}
use asoe.Pipeline.Audit.{combine_verdicts}

-- The gathering ends in FAIL_TO_HUMAN where a required read failed, and keeps the status otherwise.
gather-status :
    (spans : List GatewayCallSpan) (answers : List (GatewayDependency × GatewayResponse))
    (s : GraphState)
    → (gather spans answers s).final_status
      ≡ (if any_of is_fatal answers then some fail_to_human else s.final_status)
unfolding gather record_node halt
gather-status spans [] s = refl
gather-status spans ((d, r) ∷ answers) s = elim (Bool-cases (is_fatal (d, r))) [
  | inl fatal ↦ rw (fatal) refl
  | inr fine ↦ rw (fine) (gather-status (spans ++ span d r ∷ []) answers (store_evidence d r s))
]

module _ {ℓ} {A : Type ℓ} (test : A → Bool) where
  mem-any_of : {a : A} (xs : List A) → Mem a xs → test a ≡ true → any_of test xs ≡ true
  mem-any_of [] m h = ground (arith, not-mem-nil m)
  mem-any_of {a} (x ∷ xs) m h =
      Or.elim (Bool-set _ _) (eq-or-mem_of_mem-cons m) (λ e. ground (arith, e, h))
        (λ m'. ground (arith, mem-any_of xs m' h))

  any_of-mem : (xs : List A) → any_of test xs ≡ true → (a : A) × (Mem a xs × (test a ≡ true))
  any_of-mem [] h = ground (arith, h)
  any_of-mem (x ∷ xs) h = elim (Bool-cases (test x)) [
    | inl hit ↦ (x, (mem-cons_self, hit))
    | inr miss ↦
        let (a, (m, hit)) = any_of-mem xs (ground (arith, h, miss)) in
        (a, (mem-cons_of_mem x m, hit))
  ]

  any_of-along : (xs ys : List A) → Perm xs ys → any_of test xs ≡ true → any_of test ys ≡ true
  any_of-along xs ys p h =
      let (a, (m, hit)) = any_of-mem xs h in mem-any_of ys ((Perm.mem_iff p).0 m) hit

  any_of-Perm : (xs ys : List A) → Perm xs ys → any_of test xs ≡ any_of test ys
  any_of-Perm xs ys p = elim (Bool-cases (any_of test xs)) [
    | inl hit ↦ hit ∙ sym (any_of-along xs ys p hit)
    | inr miss ↦ elim (Bool-cases (any_of test ys)) [
      | inl hit ↦ ground (arith, miss, any_of-along ys xs (Perm.symm p) hit)
      | inr also ↦ miss ∙ sym also
    ]
  ]

-- The terminal status after the fan-out does not depend on the order in which the gateways answer.
pub gather-Perm :
    (xs ys : List (GatewayDependency × GatewayResponse)) (s : GraphState)
    → Perm xs ys
    → (gather [] xs s).final_status ≡ (gather [] ys s).final_status
gather-Perm xs ys s p = rw (gather-status, gather-status, any_of-Perm is_fatal xs ys p) refl

abbrev pub severity : ShadowStatus → ℕ
severity green = 0
severity yellow = 1
severity red = 2

-- The second opinion never makes a verdict less severe, and makes it more severe by one step at
-- most, whatever it says and whatever the threshold is.
pub combine_verdicts-severity :
    (base : ShadowStatus) (v : Option ShadowLlmVerdict) (impact : ℕ) (threshold : Option ℕ)
    → (severity base ≤ severity (combine_verdicts base v impact threshold))
      × (severity (combine_verdicts base v impact threshold) ≤ severity base + 1)
unfolding combine_verdicts
combine_verdicts-severity base v impact none = (omega arith, omega arith)
combine_verdicts-severity red v impact (some t) = (omega arith, omega arith)
combine_verdicts-severity green none impact (some t) = (omega arith, omega arith)
combine_verdicts-severity yellow none impact (some t) = (omega arith, omega arith)
combine_verdicts-severity yellow (some v) impact (some t) = (omega arith, omega arith)
combine_verdicts-severity green (some v) impact (some t) = (ground arith, ground arith)
