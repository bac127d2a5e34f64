-- ===== src/Breaker/Window.antt =====
-- The sliding window of a breaker: eviction, the sorted latencies, and the rank of the percentile.
use mathlib.Core.List.{Perm}
use mathlib.Core.List.Perm
use asoe.Prelude.{
  ℕ, suc, ◌+◌, ◌-◌, ◌*◌, ◌≤◌, ◌<◌, ◌≡◌, refl, ap, ◌∙◌, Bool, List, [], ◌∷◌, arith, inl, inr,
  Bool-cases, leb, length, keep_if, All, round_half_even,
}
use asoe.Breaker.{CallRecord, evict, sorted, insert_sorted, window_ms}

-- The samples that a reading of the clock keeps.
abbrev pub in_window : ℕ → CallRecord → Bool
in_window now r = leb now (r.timestamp + window_ms)

-- Appended in the order of the clock.
abbrev pub IsChronological : List CallRecord → Type 0
IsChronological [] = Unit
IsChronological (r ∷ rs) = All (λ s. r.timestamp ≤ s.timestamp) rs × IsChronological rs

keep_if_later :
    (now stamp : ℕ) (rs : List CallRecord)
    → now ≤ stamp + window_ms
    → All (λ s. stamp ≤ s.timestamp) rs
    → keep_if (in_window now) rs ≡ rs
keep_if_later now stamp [] h later = refl
keep_if_later now stamp (r ∷ rs) h later = ground (arith, keep_if_later now stamp rs h later.1)

-- On samples in chronological order, dropping from the front keeps exactly the samples of the
-- last sixty seconds.
pub evict-eq-keep_if :
    (now : ℕ) (rs : List CallRecord)
    → IsChronological rs
    → evict now rs ≡ keep_if (in_window now) rs
unfolding evict
evict-eq-keep_if now [] h = refl
evict-eq-keep_if now (r ∷ rs) h =
    ground (arith, evict-eq-keep_if now rs h.1, keep_if_later now r.timestamp rs)

insert_sorted-perm : (x : ℕ) (ys : List ℕ) → Perm (insert_sorted x ys) (x ∷ ys)
unfolding insert_sorted
insert_sorted-perm x [] = Perm.refl (x ∷ [])
insert_sorted-perm x (y ∷ ys) = elim (Bool-cases (leb x y)) [
  | inl first ↦ rw first (Perm.refl (x ∷ y ∷ ys))
  | inr later ↦ rw later (Perm.trans (Perm.cons y (insert_sorted-perm x ys)) (Perm.swap x y ys))
]

pub sorted-perm : (xs : List ℕ) → Perm (sorted xs) xs
unfolding sorted
sorted-perm [] = Perm.refl []
sorted-perm (x ∷ xs) = Perm.trans (insert_sorted-perm x (sorted xs)) (Perm.cons x (sorted-perm xs))

length-insert_sorted : (x : ℕ) (ys : List ℕ) → length (insert_sorted x ys) ≡ suc (length ys)
unfolding insert_sorted
length-insert_sorted x [] = refl
length-insert_sorted x (y ∷ ys) = ground (arith, length-insert_sorted x ys)

pub length-sorted : (xs : List ℕ) → length (sorted xs) ≡ length xs
unfolding sorted
length-sorted [] = refl
length-sorted (x ∷ xs) = length-insert_sorted x (sorted xs) ∙ ap suc (length-sorted xs)

-- The rank of the 95th percentile is an index of the samples, so the read is in bounds.
pub percentile_rank-lt : (n : ℕ) → 0 < n → round_half_even (95 * (n - 1)) 100 < n
unfolding round_half_even
percentile_rank-lt n h = ground arith
