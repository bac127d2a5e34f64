-- ===== src/Breaker/Percentile.antt =====
-- The latency that `snapshot` and the trip read out of the sorted window: it is at a threshold exactly
-- when few enough samples are below it.
use asoe.Prelude.{
  ℕ, zero, suc, ◌-◌, ◌*◌, ◌≤◌, ◌<◌, ◌≡◌, ◌↔◌, refl, ◌∙◌, ap, List, [], ◌∷◌, arith, ltb, map, length,
  get_or, count_if, All, round_half_even, if◌then◌else◌,
}
use asoe.Prelude.Assoc.{All-mono}
use asoe.Breaker.{Breaker, CallRecord, sorted, insert_sorted, stats}
use asoe.Breaker.Window.{length-sorted, percentile_rank-lt}

abbrev IsAscending : List ℕ → Type 0
IsAscending [] = Unit
IsAscending (x ∷ xs) = All (λ y. x ≤ y) xs × IsAscending xs

abbrev below : ℕ → List ℕ → ℕ
below t = count_if (λ x. ltb x t)

insert_sorted-All :
    (t x : ℕ) (ys : List ℕ) → t ≤ x → All (λ y. t ≤ y) ys → All (λ y. t ≤ y) (insert_sorted x ys)
unfolding insert_sorted
insert_sorted-All t x [] h a = (h, tt)
insert_sorted-All t x (y ∷ ys) h a = ground (arith, insert_sorted-All t x ys)

All-trans : (x y : ℕ) (ys : List ℕ) → x ≤ y → All (λ z. y ≤ z) ys → All (λ z. x ≤ z) ys
All-trans x y ys h a = All-mono (λ z. y ≤ z) (λ z. x ≤ z) ys (λ z g. omega arith) a

insert_sorted-IsAscending :
    (x : ℕ) (ys : List ℕ) → IsAscending ys → IsAscending (insert_sorted x ys)
unfolding insert_sorted
insert_sorted-IsAscending x [] a = (tt, tt)
insert_sorted-IsAscending x (y ∷ ys) a =
    ground (arith, a, All-trans x y ys, insert_sorted-All y x ys, insert_sorted-IsAscending x ys)

sorted-IsAscending : (xs : List ℕ) → IsAscending (sorted xs)
unfolding sorted
sorted-IsAscending [] = tt
sorted-IsAscending (x ∷ xs) = insert_sorted-IsAscending x (sorted xs) (sorted-IsAscending xs)

below-insert_sorted : (t x : ℕ) (ys : List ℕ) → below t (insert_sorted x ys) ≡ below t (x ∷ ys)
unfolding insert_sorted
below-insert_sorted t x [] = refl
below-insert_sorted t x (y ∷ ys) = ground (arith, below-insert_sorted t x ys)

below-sorted : (t : ℕ) (xs : List ℕ) → below t (sorted xs) ≡ below t xs
unfolding sorted
below-sorted t [] = refl
below-sorted t (x ∷ xs) =
    below-insert_sorted t x (sorted xs)
    ∙ ap (λ (n : ℕ). if ltb x t then suc n else n) (below-sorted t xs)

below-durations :
    (t : ℕ) (rs : List CallRecord)
    → below t (map (λ r. r.duration) rs) ≡ count_if (λ r. ltb r.duration t) rs
below-durations t [] = refl
below-durations t (r ∷ rs) = ground (arith, below-durations t rs)

below_none : (t : ℕ) (xs : List ℕ) → All (λ x. t ≤ x) xs → below t xs ≡ 0
below_none t [] a = refl
below_none t (x ∷ xs) a = ground (arith, below_none t xs a.1)

get_or_iff :
    (t k : ℕ) (xs : List ℕ)
    → IsAscending xs
    → k < length xs
    → (t ≤ get_or xs k 0) ↔ (below t xs ≤ k)
get_or_iff t k [] a h = absurd (omega arith)
get_or_iff t zero (x ∷ xs) a h = ground (arith, All-trans t x xs, below_none t xs)
get_or_iff t (suc k) (x ∷ xs) a h =
    ground (arith, All-trans t x xs, below_none t xs, get_or_iff t k xs a.1)

length-durations : (rs : List CallRecord) → length (map (λ r. r.duration) rs) ≡ length rs
length-durations [] = refl
length-durations (r ∷ rs) = ap suc (length-durations rs)

pub p95_iff :
    (b : Breaker) (t : ℕ)
    → 0 < length b.records
    → (t ≤ (stats b).2) ↔ (
        count_if (λ r. ltb r.duration t) b.records
        ≤ round_half_even (95 * (length b.records - 1)) 100)
unfolding stats
p95_iff b t h =
    let xs = map (λ r. r.duration) b.records in
    let k = round_half_even (95 * (length b.records - 1)) 100 in
    let rank : k < length b.records = percentile_rank-lt (length b.records) h in
    let size : length (sorted xs) ≡ length b.records =
      length-sorted xs ∙ length-durations b.records in
    let counted = below-sorted t xs ∙ below-durations t b.records in
    rw counted at (get_or_iff t k (sorted xs) (sorted-IsAscending xs) (omega arith))
