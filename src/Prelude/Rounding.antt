-- ===== src/Prelude/Rounding.antt =====
-- Python's `round`: to the nearest integer, and to the even one of two that are equally near.
use Prim.Native.Nat.{ℕ, ◌+◌, ◌*◌, ◌/◌, ◌%◌}
use asoe.Prelude.Tests.{ltb, if◌then◌else◌}

-- `round(a / b)` for b > 0
unfoldable pub round_half_even : ℕ → ℕ → ℕ
round_half_even a b =
    let q = a / b in
    let r = a % b in if ltb (2 * r) b then q else if ltb b (2 * r) then q + 1 else q + q % 2
