-- ===== src/Breaker/Invariant.antt =====
-- What holds of a breaker between two calls, as long as nobody resets it under a probe.
use asoe.Prelude.{ℕ, ◌≡◌, true, List, [], ◌∷◌, arith, is_some}
use asoe.Breaker.{
  Breaker, opened, half_open, new_breaker, acquire, record_success, record_failure, snapshot,
}

pub record IsSound (b : Breaker) : Type 0 where
  pub opened_stamped : b.state ≡ opened → is_some b.opened_at ≡ true
  pub probe_half_open : b.probe_in_flight ≡ true → b.state ≡ half_open

pub new_breaker-IsSound : (rate p95 cool : ℕ) → IsSound (new_breaker rate p95 cool)
unfolding new_breaker
new_breaker-IsSound rate p95 cool = ground arith

pub acquire-IsSound : (now : ℕ) (b : Breaker) → IsSound b → IsSound (acquire now b).0
unfolding acquire
acquire-IsSound now b h = ground arith

pub record_success-IsSound :
    (stamp now later latency : ℕ) (b : Breaker)
    → IsSound b
    → IsSound (record_success stamp now later latency b)
unfolding record_success
record_success-IsSound stamp now later latency b h = ground arith

pub record_failure-IsSound :
    (stamp now later latency : ℕ) (b : Breaker)
    → IsSound b
    → IsSound (record_failure stamp now later latency b)
unfolding record_failure
record_failure-IsSound stamp now later latency b h = ground arith

pub snapshot-IsSound : (now later : ℕ) (b : Breaker) → IsSound b → IsSound (snapshot now later b).0
unfolding snapshot
snapshot-IsSound now later b h = ground arith

-- The calls of the router and of the gateway executor, with their readings of the clock.
pub data Call : Type 0 where
  acquire_call : ℕ → Call
  success_call failure_call : (stamp now later latency : ℕ) → Call
  snapshot_call : (now later : ℕ) → Call

pub run_call : Call → Breaker → Breaker
run_call (acquire_call now) b = (acquire now b).0
run_call (success_call stamp now later latency) b = record_success stamp now later latency b
run_call (failure_call stamp now later latency) b = record_failure stamp now later latency b
run_call (snapshot_call now later) b = (snapshot now later b).0

pub run_calls : List Call → Breaker → Breaker
unfolding run_call
run_calls [] b = b
run_calls (c ∷ cs) b = run_calls cs (run_call c b)

run_call-IsSound : (c : Call) (b : Breaker) → IsSound b → IsSound (run_call c b)
unfolding run_call
run_call-IsSound (acquire_call now) b h = acquire-IsSound now b h
run_call-IsSound (success_call s n l d) b h = record_success-IsSound s n l d b h
run_call-IsSound (failure_call s n l d) b h = record_failure-IsSound s n l d b h
run_call-IsSound (snapshot_call now later) b h = snapshot-IsSound now later b h

-- Whatever calls of acquire, record_success, record_failure and snapshot are made of a sound breaker,
-- in any order and at any readings of the clock, it stays sound: an open breaker has the time at which it opened, and a probe is in flight only
-- while it is half open.
pub run_calls-IsSound : (cs : List Call) (b : Breaker) → IsSound b → IsSound (run_calls cs b)
unfolding run_calls
run_calls-IsSound [] b h = h
run_calls-IsSound (c ∷ cs) b h = run_calls-IsSound cs (run_call c b) (run_call-IsSound c b h)
