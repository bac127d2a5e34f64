-- ===== src/Breaker/Probe.antt =====
-- When a breaker opens, whom it lets through, and what a probe decides.
use asoe.Prelude.{
  ℕ, ◌+◌, ◌*◌, ◌≤◌, ◌<◌, ◌≡◌, ◌≢◌, ◌↔◌, ◌⊎◌, ◌-◌, count_if, ltb, round_half_even, true, some, List,
  [], ◌∷◌, arith, length, All,
}
use asoe.Breaker.{
  Breaker, Permission, permitted, circuit_open, probe_failed, closed, opened, half_open, stats,
  maybe_trip, acquire, record_success, record_failure, reset,
}
use asoe.Breaker.Percentile.{p95_iff}
use asoe.Breaker.Invariant.{IsSound}

maybe_trip-stats :
    (now : ℕ) (b : Breaker)
    → b.state ≡ closed
    → ((maybe_trip now b).state ≡ opened) ↔ (
        (5 ≤ length b.records)
        × ((b.error_rate_threshold * length b.records ≤ 100 * count_if (λ r. r.error) b.records)
            ⊎ (b.p95_latency_threshold ≤ (stats b).2)))
unfolding maybe_trip stats
maybe_trip-stats now b h = (λ e. ground arith, λ e. ground arith)

-- A closed breaker trips exactly when it has five samples or more and either the failed ones are at
-- the error-rate threshold or above, or so few samples are faster than the latency threshold that the
-- 95th percentile is not among them: no more than 95% of the samples less one, rounded.
pub maybe_trip_iff :
    (now : ℕ) (b : Breaker)
    → b.state ≡ closed
    → ((maybe_trip now b).state ≡ opened) ↔ (
        (5 ≤ length b.records)
        × ((b.error_rate_threshold * length b.records ≤ 100 * count_if (λ r. r.error) b.records)
            ⊎ (count_if (λ r. ltb r.duration b.p95_latency_threshold) b.records
                ≤ round_half_even (95 * (length b.records - 1)) 100)))
maybe_trip_iff now b h = (
  λ e. ground (arith, (maybe_trip-stats now b h).0 e, p95_iff b b.p95_latency_threshold),
  λ e. (maybe_trip-stats now b h).1 (ground (arith, e, p95_iff b b.p95_latency_threshold)),
)

-- An open breaker refuses every call before its cooldown is over, and a refusal changes nothing.
pub acquire_while_cooling :
    (now : ℕ) (b : Breaker) {t : ℕ}
    → b.state ≡ opened
    → b.opened_at ≡ some t
    → now < t + b.cooldown
    → acquire now b ≡ (b, circuit_open b.last_trip_reason)
unfolding acquire
acquire_while_cooling now b s o h = ground arith

-- Once the cooldown is over, the first call of a sound open breaker is let through as a probe, and
-- every call after it is refused, whatever the time, until an outcome is recorded.
pub acquire_single_probe :
    (now later : ℕ) (b : Breaker) {t : ℕ}
    → IsSound b
    → b.state ≡ opened
    → b.opened_at ≡ some t
    → t + b.cooldown ≤ now
    → let probing = record b { state = half_open; probe_in_flight = true } in
      (acquire now b ≡ (probing, permitted))
      × (acquire later probing ≡ (probing, circuit_open b.last_trip_reason))
unfolding acquire
acquire_single_probe now later b v s o h = ground arith

-- The outcome of the probe decides about the calls within one cooldown of it: after a success the
-- next call is let through, after a failure it is refused.
pub probe_decides :
    (stamp now later latency next : ℕ) (b : Breaker)
    → b.state ≡ half_open
    → b.probe_in_flight ≡ true
    → next < later + b.cooldown
    → ((acquire next (record_success stamp now later latency b)).1 ≡ permitted)
      × ((acquire next (record_failure stamp now later latency b)).1
          ≡ circuit_open (some probe_failed))
unfolding acquire record_success record_failure
probe_decides stamp now later latency next b s p h = ground arith

-- A probe's mark is set and the breaker is not closed.
abbrev pub IsStranded : Breaker → Type 0
IsStranded b = (b.state ≢ closed) × (b.probe_in_flight ≡ true)

unfoldable pub acquire_each : List ℕ → Breaker → List Permission
acquire_each [] b = []
acquire_each (now ∷ times) b = let (b', p) = acquire now b in p ∷ acquire_each times b'

acquire-IsStranded :
    (now : ℕ) (b : Breaker)
    → IsStranded b
    → IsStranded (acquire now b).0 × ((acquire now b).1 ≢ permitted)
unfolding acquire
acquire-IsStranded now b h = ground arith

pub acquire_each_stranded :
    (times : List ℕ) (b : Breaker) → IsStranded b → All (λ p. p ≢ permitted) (acquire_each times b)
unfolding acquire_each
acquire_each_stranded [] b h = tt
acquire_each_stranded (now ∷ times) b h =
    let (stranded, refused) = acquire-IsStranded now b h in
    (refused, acquire_each_stranded times (acquire now b).0 stranded)

-- a run of recorded failures: the readings of the clock, and the latency
unfoldable pub fail_each : List (ℕ × ℕ × ℕ × ℕ) → Breaker → Breaker
fail_each [] b = b
fail_each ((stamp, now, later, latency) ∷ fs) b =
    fail_each fs (record_failure stamp now later latency b)

abbrev IsMarked : Breaker → Type 0
IsMarked b = (b.state ≢ half_open) × (b.probe_in_flight ≡ true)

record_failure-IsMarked :
    (stamp now later latency : ℕ) (b : Breaker)
    → IsMarked b
    → IsMarked (record_failure stamp now later latency b)
unfolding record_failure
record_failure-IsMarked stamp now later latency b h = ground arith

fail_each-IsMarked :
    (fs : List (ℕ × ℕ × ℕ × ℕ)) (b : Breaker) → IsMarked b → IsMarked (fail_each fs b)
unfolding fail_each
fail_each-IsMarked [] b h = h
fail_each-IsMarked ((stamp, now, later, latency) ∷ fs) b h =
    fail_each-IsMarked fs (record_failure stamp now later latency b)
      (record_failure-IsMarked stamp now later latency b h)

-- A reset while a probe is in flight leaves the probe's mark behind: once recorded failures have
-- tripped the breaker again, every call that asks before a further outcome is recorded is refused,
-- however long the cooldown has been over.
pub reset_under_probe :
    (fs : List (ℕ × ℕ × ℕ × ℕ)) (times : List ℕ) (b : Breaker)
    → b.probe_in_flight ≡ true
    → (fail_each fs (reset b)).state ≡ opened
    → All (λ p. p ≢ permitted) (acquire_each times (fail_each fs (reset b)))
reset_under_probe fs times b p h =
    let marked : IsMarked (fail_each fs (reset b)) =
      fail_each-IsMarked fs (reset b) (unfold reset in ground arith) in
    acquire_each_stranded times (fail_each fs (reset b)) (ground arith)
