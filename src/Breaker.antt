-- ===== src/Breaker.antt =====
-- llm/circuit_breaker.py: the three-state breaker of the LLM tier and, by
-- gateways/circuit_breaker.py, of every gateway. A reading of the clock is an argument in whole
-- milliseconds, one for each call of `self._clock()`, in the order of the calls; a latency is in
-- milliseconds, and the error-rate threshold in whole percents. The lock makes each method one step.
pub mod Window
pub mod Percentile
pub mod Invariant
pub mod Probe
mod Examples
use asoe.Prelude.{
  ℕ, ◌+◌, ◌-◌, ◌*◌, Bool, true, false, Option, none, some, List, [], ◌∷◌, ◌++◌, ltb, leb, map,
  length, get_or, count_if, if◌then◌else◌, round_half_even,
}

pub data BreakerState : Type 0 where
  closed opened half_open : BreakerState

-- what the text of `_last_trip_reason` names
pub data TripReason : Type 0 where
  probe_failed : TripReason
  error_rate : (errors samples : ℕ) → TripReason
  p95_latency : ℕ → TripReason

pub record CallRecord : Type 0 where
  pub timestamp : ℕ
  pub duration : ℕ
  pub error : Bool

pub record Breaker : Type 0 where
  pub error_rate_threshold : ℕ
  pub p95_latency_threshold : ℕ
  pub cooldown : ℕ
  pub records : List CallRecord
  pub state : BreakerState
  pub opened_at : Option ℕ
  pub last_trip_reason : Option TripReason
  pub probe_in_flight : Bool

abbrev pub window_ms : ℕ
window_ms = 60000

abbrev pub min_samples : ℕ
min_samples = 5

-- `LLMCircuitBreaker(…)`
unfoldable pub new_breaker : (error_rate_threshold p95_latency_threshold cooldown : ℕ) → Breaker
new_breaker rate p95 cool = record {
  error_rate_threshold = rate;
  p95_latency_threshold = p95;
  cooldown = cool;
  records = [];
  state = closed;
  opened_at = none;
  last_trip_reason = none;
  probe_in_flight = false;
}

-- the `while` of `_evict_old_locked`: `records[0].timestamp < now - 60`
unfoldable pub evict : ℕ → List CallRecord → List CallRecord
evict now [] = []
evict now (r ∷ rs) =
    let rest = evict now rs in if ltb (r.timestamp + window_ms) now then rest else r ∷ rs

unfoldable pub evict_old : ℕ → Breaker → Breaker
unfolding evict
evict_old now b = record b { records = evict now b.records }

-- `sorted(…)`
insert_sorted : ℕ → List ℕ → List ℕ
insert_sorted x [] = x ∷ []
insert_sorted x (y ∷ ys) = if leb x y then x ∷ y ∷ ys else y ∷ insert_sorted x ys

pub sorted : List ℕ → List ℕ
unfolding insert_sorted
sorted [] = []
sorted (x ∷ xs) = insert_sorted x (sorted xs)

abbrev pub errors : List CallRecord → ℕ
errors = count_if (λ r. r.error)

-- the error count and the number of samples, whose quotient is the rate, and the 95th percentile
unfoldable pub stats : Breaker → ℕ × ℕ × ℕ
unfolding sorted round_half_even
stats b =
    let n = length b.records in
    let latencies = sorted (map (λ r. r.duration) b.records) in
    (errors b.records, n, get_or latencies (round_half_even (95 * (n - 1)) 100) 0)

-- `_maybe_trip_locked`, its body after the guards, at one reading of the clock
trip : ℕ → ℕ × ℕ × ℕ → Breaker → Breaker
trip now (errs, n, p95) b =
    if leb (b.error_rate_threshold * n) (100 * errs)
    then record b {
      state = opened;
      opened_at = some now;
      last_trip_reason = some (error_rate errs n);
    }
    else if leb b.p95_latency_threshold p95
    then record b {
      state = opened;
      opened_at = some now;
      last_trip_reason = some (p95_latency p95);
    }
    else b

maybe_trip_in : BreakerState → ℕ → Breaker → Breaker
unfolding trip
maybe_trip_in closed now b = if ltb (length b.records) min_samples then b else trip now (stats b) b
maybe_trip_in _ now b = b

unfoldable pub maybe_trip : ℕ → Breaker → Breaker
unfolding maybe_trip_in
maybe_trip now b = maybe_trip_in b.state now b

maybe_transition_in : BreakerState → Option ℕ → ℕ → Breaker → Breaker
maybe_transition_in opened (some t) now b =
    if leb (t + b.cooldown) now then record b { state = half_open } else b
maybe_transition_in _ _ now b = b

unfoldable pub maybe_transition : ℕ → Breaker → Breaker
unfolding maybe_transition_in
maybe_transition now b = maybe_transition_in b.state b.opened_at now b

-- What `acquire` answers: it returns, or it raises `CircuitOpen`.
pub data Permission : Type 0 where
  permitted : Permission
  circuit_open : Option TripReason → Permission

acquire_in : BreakerState → Bool → Breaker → Breaker × Permission
acquire_in closed probe b = (b, permitted)
acquire_in half_open false b = (record b { probe_in_flight = true }, permitted)
acquire_in _ _ b = (b, circuit_open b.last_trip_reason)

unfoldable pub acquire : ℕ → Breaker → Breaker × Permission
unfolding maybe_transition acquire_in
acquire now b = let b' = maybe_transition now b in acquire_in b'.state b'.probe_in_flight b'

-- the append and the eviction with which both `record_…` methods begin
observe : (stamp now latency : ℕ) → Bool → Breaker → Breaker
unfolding evict_old
observe stamp now latency failed b = evict_old now (record b {
  records = b.records ++ record { timestamp = stamp; duration = latency; error = failed } ∷ [];
})

succeed_in : BreakerState → Bool → ℕ → Breaker → Breaker
unfolding maybe_trip
succeed_in half_open true now b = record b {
  state = closed;
  opened_at = none;
  probe_in_flight = false;
}
succeed_in closed probe now b = maybe_trip now b
succeed_in _ _ now b = b

unfoldable pub record_success : (stamp now later latency : ℕ) → Breaker → Breaker
unfolding observe succeed_in
record_success stamp now later latency b =
    let b' = observe stamp now latency false b in succeed_in b'.state b'.probe_in_flight later b'

fail_in : BreakerState → Bool → ℕ → Breaker → Breaker
unfolding maybe_trip
fail_in half_open true now b = record b {
  state = opened;
  opened_at = some now;
  last_trip_reason = some probe_failed;
  probe_in_flight = false;
}
fail_in _ _ now b = maybe_trip now b

unfoldable pub record_failure : (stamp now later latency : ℕ) → Breaker → Breaker
unfolding observe fail_in
record_failure stamp now later latency b =
    let b' = observe stamp now latency true b in fail_in b'.state b'.probe_in_flight later b'

-- `reset` leaves `_probe_in_flight` as it is
unfoldable pub reset : Breaker → Breaker
reset b = record b { records = []; state = closed; opened_at = none; last_trip_reason = none }

cooldown_remaining_in : BreakerState → Option ℕ → ℕ → ℕ → ℕ
cooldown_remaining_in opened (some t) cool now = t + cool - now
cooldown_remaining_in _ _ cool now = 0

-- `max(0, cooldown - elapsed)`
unfoldable pub cooldown_remaining : ℕ → Breaker → ℕ
unfolding cooldown_remaining_in
cooldown_remaining now b = cooldown_remaining_in b.state b.opened_at b.cooldown now

pub record BreakerSnapshot : Type 0 where
  pub state : BreakerState
  pub samples : ℕ
  pub errors : ℕ
  pub p95_latency : ℕ
  pub cooldown_remaining : ℕ
  pub last_trip_reason : Option TripReason

-- `snapshot` evicts too
unfoldable pub snapshot : (now later : ℕ) → Breaker → Breaker × BreakerSnapshot
unfolding evict_old stats cooldown_remaining
snapshot now later b =
    let b' = evict_old now b in
    let (errs, n, p95) = stats b' in
    (
      b',
      record {
        state = b'.state;
        samples = n;
        errors = errs;
        p95_latency = p95;
        cooldown_remaining = cooldown_remaining later b';
        last_trip_reason = b'.last_trip_reason;
      },
    )
