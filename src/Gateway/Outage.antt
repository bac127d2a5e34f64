-- ===== src/Gateway/Outage.antt =====
-- A gateway whose breaker is open: what a run of calls, to it and to others, does until the cooldown of
-- its breaker is over.
use asoe.Prelude.{
  ℕ, ◌+◌, ◌<◌, ◌≡◌, ◌≢◌, refl, sym, ap, ◌∙◌, String, some, List, [], ◌∷◌, arith, eq_iff, count_if,
  inl, inr, Bool-cases, true, All,
}
use asoe.Prelude.Dict.{Dict, lookup, lookup-insert}
use asoe.Breaker.{Breaker, opened}
use asoe.Breaker.Probe.{acquire_while_cooling}
use asoe.Gateway.{
  GatewayRequest, GatewayPort, GatewayResponse, Tier, Readings, unavailable, breaker_open,
  get_breaker, meter, tally, record_call, gate, run_port, run,
}
use asoe.Gateway.Run.{IsMetered, run-IsMetered, run_isolation, to_gateway}

-- the calls of `run`, one after the other, each with its answer
unfoldable pub run_all :
    Dict GatewayPort
    → List (GatewayRequest × Readings)
    → Tier
    → Tier × List (GatewayRequest × GatewayResponse)
run_all registry [] t = (t, [])
run_all registry ((r, c) ∷ calls) t =
    let (t', response) = run registry r c t in
    let (last, answers) = run_all registry calls t' in (last, (r, response) ∷ answers)

-- how many of the calls are calls to the gateway `k`
abbrev pub calls_to : String → List (GatewayRequest × Readings) → ℕ
calls_to k = count_if (λ x. to_gateway k x.0)

-- A call to the gateway `k` asks its breaker before the time `limit`.
abbrev pub IsAskedBefore : String → ℕ → GatewayRequest × Readings → Type 0
IsAskedBefore k limit (r, c) = r.gateway_name ≡ k → c.asked < limit

-- A call to the gateway `k` was answered UNAVAILABLE, with the reason for which `b` opened.
abbrev pub IsShortCircuited : String → Breaker → GatewayRequest × GatewayResponse → Type 0
IsShortCircuited k b (r, response) =
    r.gateway_name ≡ k
    → (response.status ≡ unavailable) × (response.error ≡ some (breaker_open b.last_trip_reason))

module _ (registry : Dict GatewayPort) where
  run_cooling :
      (r : GatewayRequest) (c : Readings) (t : Tier) {port : GatewayPort} {opening : ℕ}
      → let k = r.gateway_name in
        let b = get_breaker k t in
        lookup k registry ≡ some port
        → b.state ≡ opened
        → b.opened_at ≡ some opening
        → c.asked < opening + b.cooldown
        → let (t', response) = run registry r c t in
          (t'.sent ≡ t.sent)
          × (get_breaker k t' ≡ b)
          × ((meter k t').short_circuits ≡ 1 + (meter k t).short_circuits)
          × (response.status ≡ unavailable)
          × (response.error ≡ some (breaker_open b.last_trip_reason))
  unfolding run record_call
  run_cooling r c t found s o early =
      let b = get_breaker r.gateway_name t in
      rw (found, run_port, acquire_while_cooling c.asked b s o early, gate)
        (ground (
          arith,
          lookup-insert r.gateway_name r.gateway_name b t.breakers,
          lookup-insert r.gateway_name r.gateway_name (tally true true 0 (meter r.gateway_name t))
              t.meters,
          (eq_iff r.gateway_name r.gateway_name).1 refl,
        ))

  -- what one call leaves of the gateway `k`, whose breaker is `b`
  run_shielded :
      (k : String) (b : Breaker) (r : GatewayRequest) (c : Readings) (t : Tier) {port : GatewayPort}
      {opening : ℕ}
      → lookup k registry ≡ some port
      → b.state ≡ opened
      → b.opened_at ≡ some opening
      → IsMetered t
      → get_breaker k t ≡ b
      → IsAskedBefore k (opening + b.cooldown) (r, c)
      → let (t', response) = run registry r c t in
        (count_if (to_gateway k) t'.sent ≡ count_if (to_gateway k) t.sent)
        × (get_breaker k t' ≡ b)
        × ((meter k t').short_circuits ≡ calls_to k ((r, c) ∷ []) + (meter k t).short_circuits)
        × IsShortCircuited k b (r, response)
  run_shielded k b r c t found s o metered held early = elim (Bool-cases (to_gateway k r)) [
    | inl mine ↦
        let same : k ≡ r.gateway_name = sym ((eq_iff r.gateway_name k).0 mine) in
        let held' : get_breaker r.gateway_name t ≡ b =
          ap (λ x. get_breaker x t) (sym same) ∙ held in
        let (sent, kept, short, status, error) =
          run_cooling r c t (ap (λ x. lookup x registry) (sym same) ∙ found)
            (ap (λ x. x.state) held' ∙ s) (ap (λ x. x.opened_at) held' ∙ o)
            (rw held' (early (sym same))) in
        (
          ap (count_if (to_gateway k)) sent,
          ap (λ x. get_breaker x (run registry r c t).0) same ∙ kept ∙ held',
          rw mine (rw same short),
          λ e. (status, error ∙ ap (λ x. some (breaker_open x.last_trip_reason)) held'),
        )
    | inr other ↦
        let apart : r.gateway_name ≢ k = λ e. cc (other, (eq_iff r.gateway_name k).1 e) in
        let (kept, same) = run_isolation registry r c t k apart in
        (
          sym ((run-IsMetered registry r c t metered).counted k)
              ∙ ap (λ m. m.calls) same
              ∙ metered.counted k,
          kept ∙ held,
          rw other (omega (arith, ap (λ m. m.short_circuits) same)),
          λ e. absurd (apart e),
        )
  ]

  -- From a tier whose meters are in step with the requests sent, and while the breaker of a registered
  -- gateway is open and its cooldown is not over at any call to it, whatever calls are made to it and to
  -- other gateways in between, whatever those answer: no request reaches the gateway, its breaker stays
  -- as it is, every call to it is answered UNAVAILABLE with the reason for which its breaker opened, and
  -- each is counted as one short circuit.
  pub run_all_shielded :
      (k : String) (b : Breaker) (calls : List (GatewayRequest × Readings)) (t : Tier)
      {port : GatewayPort} {opening : ℕ}
      → lookup k registry ≡ some port
      → b.state ≡ opened
      → b.opened_at ≡ some opening
      → IsMetered t
      → get_breaker k t ≡ b
      → All (IsAskedBefore k (opening + b.cooldown)) calls
      → let (t', answers) = run_all registry calls t in
        (count_if (to_gateway k) t'.sent ≡ count_if (to_gateway k) t.sent)
        × (get_breaker k t' ≡ b)
        × ((meter k t').short_circuits ≡ calls_to k calls + (meter k t).short_circuits)
        × All (IsShortCircuited k b) answers
  unfolding run_all
  run_all_shielded k b [] t found s o metered held early = (refl, held, omega arith, tt)
  run_all_shielded k b ((r, c) ∷ calls) t found s o metered held early =
      let (sent, kept, short, answer) = run_shielded k b r c t found s o metered held early.0 in
      let (sent', kept', short', answers) =
        run_all_shielded k b calls (run registry r c t).0 found s o
          (run-IsMetered registry r c t metered) kept early.1 in
      (sent' ∙ sent, kept', ground arith, (answer, answers))
