-- ===== src/Monitoring/Histogram/Percentiles.antt =====
-- The percentiles of a histogram (pkg/monitoring/histogram.go).
use quic_flow.Prelude.{
  ℕ, ◌≤◌, ◌<◌, ◌≡◌, refl, ap, ◌∙◌, ◌⊎◌, inl, inr, leb, ◌==◌, if◌then◌else◌, Bool-cases, false, List,
  [], ◌∷◌, length, All, arith,
}
use quic_flow.Prelude.Word.{add64, i64_leb_lem, i64_neg}
use quic_flow.Monitoring.Histogram.{upper_bound, find_bucket, percentile}
use quic_flow.Monitoring.Histogram.Samples.{
  observe_all, below, inside, inside_below, counts, observe_all-counts,
}

-- The least of the bounds 10, 50, 100 and 200 with as many samples below it as asked for, or 500.
abbrev pub IsLeast : ℕ → ℕ → List ℕ → Type 0
IsLeast q target xs =
    ((q ≡ 500) ⊎ (target ≤ below q xs))
    × All (λ b. (q ≤ b) ⊎ (below b xs < target)) (10 ∷ 50 ∷ 100 ∷ 200 ∷ [])

-- The bound that the numbers of samples below 10, 50, 100 and 200 lead to.
choice : ℕ → ℕ → ℕ → ℕ → ℕ → ℕ
choice target a b c d =
    if leb target a
    then 10
    else if leb target b
    then 50
    else if leb target c
    then 100
    else if leb target d
    then 200
    else 500

find_bucket-choice :
    (target : ℕ) (xs : List ℕ)
    → length xs < i64_neg
    → target ≤ length xs
    → find_bucket target 0 0 (counts xs)
      ≡ choice target (below 10 xs) (below 50 xs) (below 100 xs) (below 200 xs)
unfolding find_bucket upper_bound choice
find_bucket-choice target xs few fits =
    let (a, b, c, d, total) = inside_below xs in
    let s1 : add64 0 (inside 0 xs) ≡ below 10 xs = ground arith in
    let s2 : add64 (below 10 xs) (inside 1 xs) ≡ below 50 xs = ground arith in
    let s3 : add64 (below 50 xs) (inside 2 xs) ≡ below 100 xs = ground arith in
    let s4 : add64 (below 100 xs) (inside 3 xs) ≡ below 200 xs = ground arith in
    let t1 = i64_leb_lem target (below 10 xs) (omega arith) (omega arith) in
    let t2 = i64_leb_lem target (below 50 xs) (omega arith) (omega arith) in
    let t3 = i64_leb_lem target (below 100 xs) (omega arith) (omega arith) in
    let t4 = i64_leb_lem target (below 200 xs) (omega arith) (omega arith) in
    simp (s1, s2, s3, s4, t1, t2, t3, t4) (ground arith)

choice-IsLeast :
    (target : ℕ) (xs : List ℕ)
    → IsLeast (choice target (below 10 xs) (below 50 xs) (below 100 xs) (below 200 xs)) target xs
unfolding choice
choice-IsLeast target xs = elim (Bool-cases (leb target (below 10 xs))) [
  | inl le ↦ rw le (
    inr (ground arith),
    (inl (omega arith), (inl (omega arith), (inl (omega arith), (inl (omega arith), tt)))),
  )
  | inr gt ↦ elim (Bool-cases (leb target (below 50 xs))) [
    | inl le ↦
        simp (gt, le)
          (
            inr (ground arith),
            (inr (ground arith), (inl (omega arith), (inl (omega arith), (inl (omega arith), tt)))),
          )
    | inr gt2 ↦ elim (Bool-cases (leb target (below 100 xs))) [
      | inl le ↦
          simp (gt, gt2, le)
            (
              inr (ground arith),
              (
                inr (ground arith),
                (inr (ground arith), (inl (omega arith), (inl (omega arith), tt))),
              ),
            )
      | inr gt3 ↦ elim (Bool-cases (leb target (below 200 xs))) [
        | inl le ↦
            simp (gt, gt2, gt3, le)
              (
                inr (ground arith),
                (
                  inr (ground arith),
                  (inr (ground arith), (inr (ground arith), (inl (omega arith), tt))),
                ),
              )
        | inr gt4 ↦
            simp (gt, gt2, gt3, gt4)
              (
                inl refl,
                (
                  inr (ground arith),
                  (inr (ground arith), (inr (ground arith), (inr (ground arith), tt))),
                ),
              )
      ]
    ]
  ]
]

-- A percentile of some samples, fewer than 2 ^ 63 of them and one at least, where the product with
-- the count is at most the count: it is the least of the bounds 10, 50, 100 and 200 with as many
-- samples below it as the product says, and 500 where none of them has.
pub percentile-IsLeast :
    (target : ℕ → ℕ) (xs : List ℕ)
    → 0 < length xs
    → length xs < i64_neg
    → target (length xs) ≤ length xs
    → IsLeast (percentile target (observe_all xs)) (target (length xs)) xs
unfolding percentile
percentile-IsLeast target xs some_sample few fits =
    let (same, n) = observe_all-counts xs few in
    let not_none : ((observe_all xs).count == 0) ≡ false = ground arith in
    let found =
      ap (λ ns. find_bucket (target (observe_all xs).count) 0 0 ns) same
      ∙ ap (λ k. find_bucket (target k) 0 0 (counts xs)) n
      ∙ find_bucket-choice (target (length xs)) xs few fits in
    rw not_none (rw found (choice-IsLeast (target (length xs)) xs))
