-- ===== src/Gateway/Run.antt =====
-- What one call of `run` does to the breakers, to the meters and to the outside.
use asoe.Prelude.{
  ℕ, suc, ◌-◌, ◌≤◌, ◌≡◌, ◌≢◌, refl, ap, ◌∙◌, Bool, true, false, String, Option, none, some, List,
  [], ◌∷◌, ◌++◌, arith, str_eq, eq_iff, count_if, if◌then◌else◌, or_else, Option-cases, inl, inr,
}
use asoe.Prelude.Dict.{Dict, lookup, insert, lookup-insert}
use asoe.Breaker.{Breaker, Permission, permitted, circuit_open, acquire}
use asoe.Gateway.{
  GatewayRequest, GatewayPort, Outcome, completed, timed_out, threw, Tier, Readings, get_breaker,
  meter, tally, record_call, record_outcome, finish, gate, run_port, run, new_gateway_breaker,
  no_calls, is_breaker_failure, effective_timeout,
}

abbrev pub to_gateway : String → GatewayRequest → Bool
to_gateway k r = str_eq r.gateway_name k

count_if-snoc :
    (k : String) (r : GatewayRequest) (rs : List GatewayRequest)
    → count_if (to_gateway k) (rs ++ r ∷ [])
      ≡ (if to_gateway k r then suc (count_if (to_gateway k) rs) else count_if (to_gateway k) rs)
count_if-snoc k r [] = refl
count_if-snoc k r (q ∷ rs) = ground (arith, count_if-snoc k r rs)

-- The calls that a meter counts are the requests that were handed to its gateway, and no more
-- calls have failed than were made.
pub record IsMetered (t : Tier) : Type 0 where
  pub counted : (k : String) → (meter k t).calls ≡ count_if (to_gateway k) t.sent
  pub failures_le : (k : String) → (meter k t).failures ≤ (meter k t).calls

record_call-meter :
    (name k : String) (f short : Bool) (latency : ℕ) (t : Tier)
    → meter k (record_call name f short latency t)
      ≡ (if str_eq name k then tally f short latency (meter name t) else meter k t)
unfolding record_call
record_call-meter name k f short latency t =
    ground (arith, lookup-insert name k (tally f short latency (meter name t)) t.meters)

sent_once-IsMetered :
    (bs : Dict Breaker) (r : GatewayRequest) (f : Bool) (latency : ℕ) (t : Tier)
    → IsMetered t
    → IsMetered (
        record_call r.gateway_name f false latency
          (record t { breakers = bs; sent = t.sent ++ r ∷ [] }))
unfolding record_call
sent_once-IsMetered bs r f latency t h = record {
  counted = λ k. ground (
    arith,
    h.counted k,
    count_if-snoc k r t.sent,
    eq_iff r.gateway_name k,
    lookup-insert r.gateway_name k (tally f false latency (meter r.gateway_name t)) t.meters,
  );
  failures_le = λ k. ground (
    arith,
    h.failures_le k,
    h.failures_le r.gateway_name,
    lookup-insert r.gateway_name k (tally f false latency (meter r.gateway_name t)) t.meters,
  );
}

refused-IsMetered :
    (bs : Dict Breaker) (name : String) (latency : ℕ) (t : Tier)
    → IsMetered t
    → IsMetered (record_call name true true latency (record t { breakers = bs }))
unfolding record_call
refused-IsMetered bs name latency t h = record {
  counted = λ k. ground (
    arith,
    h.counted k,
    eq_iff name k,
    lookup-insert name k (tally true true latency (meter name t)) t.meters,
  );
  failures_le = λ k. ground (
    arith,
    h.failures_le k,
    h.failures_le name,
    lookup-insert name k (tally true true latency (meter name t)) t.meters,
  );
}

finish-IsMetered :
    (bs : Dict Breaker) (r : GatewayRequest) (c : Readings) (o : Outcome) (t : Tier)
    → IsMetered t
    → IsMetered (finish r c o (record t { breakers = bs; sent = t.sent ++ r ∷ [] })).0
unfolding finish record_outcome
finish-IsMetered bs r c timed_out t h = sent_once-IsMetered _ r true (c.recorded - c.start) t h
finish-IsMetered bs r c (completed response) t h =
    sent_once-IsMetered _ r (is_breaker_failure response.status) (c.recorded - c.start) t h
finish-IsMetered bs r c (threw text) t h = sent_once-IsMetered _ r true (c.recorded - c.start) t h

gate-IsMetered :
    (bs : Dict Breaker) (r : GatewayRequest) (c : Readings) (port : GatewayPort) (p : Permission)
    (t : Tier)
    → IsMetered t
    → IsMetered (gate r c port p (record t { breakers = bs })).0
unfolding gate
gate-IsMetered bs r c port (circuit_open reason) t h = refused-IsMetered bs r.gateway_name 0 t h
gate-IsMetered bs r c port permitted t h =
    finish-IsMetered bs r c (port r (effective_timeout r)) t h

-- Every call of `run`, however it ends, keeps the meters in step with the requests that were
-- handed to the gateways.
pub run-IsMetered :
    (registry : Dict GatewayPort) (r : GatewayRequest) (c : Readings) (t : Tier)
    → IsMetered t
    → IsMetered (run registry r c t).0
unfolding run
run-IsMetered registry r c t h = elim (Option-cases (lookup r.gateway_name registry)) [
  | inl missing ↦ rw (missing, run_port) h
  | inr (port, found) ↦
      rw (found, run_port)
        (gate-IsMetered
          (insert r.gateway_name (acquire c.asked (get_breaker r.gateway_name t)).0 t.breakers) r c
          port (acquire c.asked (get_breaker r.gateway_name t)).1 t h)
]

lookup-insert_ne {ℓ} :
    {V : Type ℓ} (k j : String) (v : V) (d : Dict V) → k ≢ j → lookup j (insert k v d) ≡ lookup j d
lookup-insert_ne k j v d h = ground (arith, lookup-insert k j v d, eq_iff k j)

abbrev SameAt : String → Tier → Tier → Type 0
SameAt k t t' =
    (lookup k t'.breakers ≡ lookup k t.breakers) × (lookup k t'.meters ≡ lookup k t.meters)

record_outcome-SameAt :
    (name k : String) (c : Readings) (f : Bool) (t : Tier)
    → name ≢ k
    → SameAt k t (record_outcome name c f t)
unfolding record_outcome record_call
record_outcome-SameAt name k c f t h =
    (lookup-insert_ne name k _ t.breakers h, lookup-insert_ne name k _ t.meters h)

finish-SameAt :
    (r : GatewayRequest) (c : Readings) (o : Outcome) (t : Tier) (k : String)
    → r.gateway_name ≢ k
    → SameAt k t (finish r c o t).0
unfolding finish
finish-SameAt r c timed_out t k h = record_outcome-SameAt r.gateway_name k c true t h
finish-SameAt r c (completed response) t k h =
    record_outcome-SameAt r.gateway_name k c (is_breaker_failure response.status) t h
finish-SameAt r c (threw text) t k h = record_outcome-SameAt r.gateway_name k c true t h

gate-SameAt :
    (bs : Dict Breaker) (r : GatewayRequest) (c : Readings) (port : GatewayPort) (p : Permission)
    (t : Tier) (k : String)
    → r.gateway_name ≢ k
    → SameAt k (record t { breakers = bs }) (gate r c port p (record t { breakers = bs })).0
unfolding gate record_call
gate-SameAt bs r c port (circuit_open reason) t k h =
    (refl, lookup-insert_ne r.gateway_name k _ t.meters h)
gate-SameAt bs r c port permitted t k h =
    finish-SameAt r c (port r (effective_timeout r))
      (record t { breakers = bs; sent = t.sent ++ r ∷ [] }) k h

run_port-SameAt :
    (port : Option GatewayPort) (r : GatewayRequest) (c : Readings) (t : Tier) (k : String)
    → r.gateway_name ≢ k
    → SameAt k t (run_port port r c t).0
unfolding run_port
run_port-SameAt none r c t k h = (refl, refl)
run_port-SameAt (some port) r c t k h =
    let b = get_breaker r.gateway_name t in
    let bs = insert r.gateway_name (acquire c.asked b).0 t.breakers in
    let (same_breaker, same_meter) = gate-SameAt bs r c port (acquire c.asked b).1 t k h in
    (
      same_breaker ∙ lookup-insert_ne r.gateway_name k (acquire c.asked b).0 t.breakers h,
      same_meter,
    )

-- A call to one gateway leaves the breaker and the meter of every other gateway as they are.
pub run_isolation :
    (registry : Dict GatewayPort) (r : GatewayRequest) (c : Readings) (t : Tier) (k : String)
    → r.gateway_name ≢ k
    → let t' = (run registry r c t).0 in
      (get_breaker k t' ≡ get_breaker k t) × (meter k t' ≡ meter k t)
unfolding run
run_isolation registry r c t k other =
    let (same_breaker, same_meter) =
      run_port-SameAt (lookup r.gateway_name registry) r c t k other in
    (ap (λ o. or_else o new_gateway_breaker) same_breaker, ap (λ o. or_else o no_calls) same_meter)
