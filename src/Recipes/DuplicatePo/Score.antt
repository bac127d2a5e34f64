-- ===== src/Recipes/DuplicatePo/Score.antt =====
-- recipes/DuplicatePORecipe.py: the weighted contribution of one signal, in order and in bounds.
use asoe.Prelude.{ℕ, zero, suc, ◌+◌, ◌*◌, ◌≤◌, ◌≡◌, refl, ap, ◌∙◌, arith, round_half_even}
use asoe.Prelude.Int.{ℤ, pos, negsuc, sub_ℕ, ◌*ℤ◌, ◌≤ℤ◌, abs_ℤ}
use native.Mathlib.Nat.{mul-le-mul_left}
use asoe.Recipes.DuplicatePo.{signed, contribution}

-- `round(a / 1000000)`
abbrev micro : ℕ → ℕ
micro a = round_half_even a 1000000

micro_mono : (a b : ℕ) → a ≤ b → micro a ≤ micro b
unfolding round_half_even
micro_mono a b h = ground (arith, h)

micro-le : (a n : ℕ) → a ≤ n * 1000000 → micro a ≤ n
unfolding round_half_even
micro-le a n h = ground (arith, h)

mul-pos : (n a : ℕ) → pos n *ℤ pos a ≡ pos (n * a)
unfolding ◌*ℤ◌
mul-pos n a = ground arith

mul-negsuc : (n a : ℕ) → pos n *ℤ negsuc a ≡ sub_ℕ 0 (n * suc a)
unfolding ◌*ℤ◌
mul-negsuc n a = ground arith

sub_ℕ-suc : (k : ℕ) → sub_ℕ 0 (suc k) ≡ negsuc k
sub_ℕ-suc k = ground arith

signed-minus : (m : ℕ) → signed (sub_ℕ 0 m) (micro (abs_ℤ (sub_ℕ 0 m))) ≡ sub_ℕ 0 (micro m)
unfolding round_half_even
signed-minus zero = refl
signed-minus (suc k) =
    let same : 0 + suc k ≡ suc k = omega arith in
    ap (λ x. signed x (micro (abs_ℤ x))) (sub_ℕ-suc k) ∙ ap (λ m. sub_ℕ 0 (micro m)) same

contribution-pos : (n a : ℕ) → contribution (pos n) (pos a) ≡ pos (micro (n * a))
unfolding contribution
contribution-pos n a = ap (λ x. signed x (micro (abs_ℤ x))) (mul-pos n a) ∙ ground arith

contribution-negsuc : (n a : ℕ) → contribution (pos n) (negsuc a) ≡ sub_ℕ 0 (micro (n * suc a))
unfolding contribution
contribution-negsuc n a =
    ap (λ x. signed x (micro (abs_ℤ x))) (mul-negsuc n a) ∙ signed-minus (n * suc a)

-- a score of at most one counts for its weight at most
pub contribution_bounds :
    (n a : ℕ)
    → a ≤ 1000000
    → (pos 0 ≤ℤ contribution (pos n) (pos a)) × (contribution (pos n) (pos a) ≤ℤ pos n)
contribution_bounds n a h =
    rw (contribution-pos n a) (omega arith, omega (arith, micro-le (n * a) n (mul-le-mul_left n h)))

-- under a weight that is not negative, a higher score counts for no less
pub contribution_mono :
    (n : ℕ) (s s' : ℤ) → s ≤ℤ s' → contribution (pos n) s ≤ℤ contribution (pos n) s'
contribution_mono n (pos a) (pos b) h =
    let le : a ≤ b = omega (arith, h) in
    rw (contribution-pos n a, contribution-pos n b)
      (omega (arith, micro_mono (n * a) (n * b) (mul-le-mul_left n le)))
contribution_mono n (negsuc a) (pos b) h =
    rw (contribution-negsuc n a, contribution-pos n b) (ground arith)
contribution_mono n (negsuc a) (negsuc b) h =
    let le : suc b ≤ suc a = omega (arith, h) in
    rw (contribution-negsuc n a, contribution-negsuc n b)
      (ground (arith, micro_mono (n * suc b) (n * suc a) (mul-le-mul_left n le)))
contribution_mono n (pos a) (negsuc b) h = absurd (omega (arith, h))
