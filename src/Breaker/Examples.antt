-- ===== src/Breaker/Examples.antt =====
-- The breaker of the LLM tier at concrete readings of the clock: tests, and the theorems at inputs.
use asoe.Prelude.{
  count_if, ltb, ◌-◌, round_half_even, ℕ, ◌*◌, ◌≤◌, ◌≡◌, ◌≢◌, ◌↔◌, ◌⊎◌, refl, true, false, some,
  List, [], ◌∷◌, arith, length, All,
}
use asoe.Breaker.{
  Breaker, permitted, circuit_open, probe_failed, error_rate, opened, half_open, new_breaker, stats,
  maybe_trip, acquire, record_success, record_failure, reset,
}
use asoe.Breaker.Invariant.{
  IsSound, new_breaker-IsSound, acquire_call, success_call, failure_call, snapshot_call, Call,
  run_calls, run_calls-IsSound,
}
use asoe.Breaker.Probe.{
  maybe_trip_iff, acquire_single_probe, probe_decides, acquire_each, fail_each, reset_under_probe,
}

abbrev fresh : Breaker
fresh = new_breaker 25 15000 300000

abbrev five_failures : List (ℕ × ℕ × ℕ × ℕ)
five_failures =
    (1000, 1001, 1002, 40)
    ∷ (2000, 2001, 2002, 40)
    ∷ (3000, 3001, 3002, 40)
    ∷ (4000, 4001, 4002, 40)
    ∷ (5000, 5001, 5002, 40)
    ∷ []

-- five failures in a row trip the breaker at the fifth
abbrev tripped : Breaker
tripped = fail_each five_failures fresh

tripped_state :
    (tripped.state ≡ opened)
    × (tripped.opened_at ≡ some 5002)
    × (tripped.last_trip_reason ≡ some (error_rate 5 5))
unfolding fail_each record_failure new_breaker stats
tripped_state = (refl, refl, refl)

tripped-IsSound : IsSound tripped
unfolding fail_each record_failure new_breaker
tripped-IsSound = ground arith

-- four fast calls and a slow one, none of which failed
abbrev slow : Breaker
slow = record fresh {
  records =
      record { timestamp = 1; duration = 40; error = false }
      ∷ record { timestamp = 2; duration = 40; error = false }
      ∷ record { timestamp = 3; duration = 20000; error = false }
      ∷ record { timestamp = 4; duration = 40; error = false }
      ∷ record { timestamp = 5; duration = 40; error = false }
      ∷ [];
}

slow_trips : (maybe_trip 9 slow).state ≡ opened
unfolding new_breaker maybe_trip stats
slow_trips = refl

maybe_trip_iff_example : ((maybe_trip 9 slow).state ≡ opened) ↔ (
    (5 ≤ length slow.records)
    × ((25 * length slow.records ≤ 100 * count_if (λ r. r.error) slow.records)
        ⊎ (count_if (λ r. ltb r.duration 15000) slow.records
            ≤ round_half_even (95 * (length slow.records - 1)) 100)))
unfolding new_breaker
maybe_trip_iff_example = maybe_trip_iff 9 slow refl

abbrev probing : Breaker
probing = record tripped { state = half_open; probe_in_flight = true }

acquire_single_probe_example :
    (acquire 305002 tripped ≡ (probing, permitted))
    × (acquire 999999 probing ≡ (probing, circuit_open (some (error_rate 5 5))))
unfolding fail_each record_failure new_breaker stats
acquire_single_probe_example =
    acquire_single_probe 305002 999999 tripped {t = 5002} tripped-IsSound refl refl (omega arith)

probe_decides_example :
    ((acquire 306004 (record_success 306000 306001 306002 9 probing)).1 ≡ permitted)
    × ((acquire 306004 (record_failure 306000 306001 306002 9 probing)).1
        ≡ circuit_open (some probe_failed))
unfolding fail_each record_failure new_breaker stats
probe_decides_example = probe_decides 306000 306001 306002 9 306004 probing refl refl (omega arith)

reset_under_probe_example :
    All
      (λ p. p ≢ permitted)
      (acquire_each (400000 ∷ 800000 ∷ []) (fail_each five_failures (reset probing)))
unfolding fail_each record_failure new_breaker stats reset
reset_under_probe_example = reset_under_probe five_failures (400000 ∷ 800000 ∷ []) probing refl refl

abbrev busy : List Call
busy = acquire_call 1 ∷ success_call 2 3 4 50 ∷ failure_call 5 6 7 90 ∷ snapshot_call 8 9 ∷ []

run_calls-IsSound_example : IsSound (run_calls busy fresh)
run_calls-IsSound_example = run_calls-IsSound busy fresh (new_breaker-IsSound 25 15000 300000)
