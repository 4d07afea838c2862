-- ===== src/Monitoring/Histogram/Samples.antt =====
-- What a histogram knows of the samples that it was given (pkg/monitoring/histogram.go).
use quic_flow.Prelude.{
  ℕ, suc, ◌+◌, ◌<◌, ◌≡◌, refl, ap, ◌∙◌, ltb, ◌==◌, if◌then◌else◌, List, [], ◌∷◌, length, arith,
}
use quic_flow.Prelude.Word.{i64_neg}
use quic_flow.Monitoring.Histogram.{Histogram, new_histogram, bucket_of, bump, observe}

-- The histogram of some samples, the last one first.
unfoldable pub observe_all : List ℕ → Histogram
observe_all [] = new_histogram
observe_all (x ∷ xs) = observe x (observe_all xs)

-- How many samples are below a bound, and how many fall into a bucket.
unfoldable pub below : ℕ → List ℕ → ℕ
below b [] = 0
below b (x ∷ xs) = if ltb x b then suc (below b xs) else below b xs

unfoldable pub inside : ℕ → List ℕ → ℕ
inside i [] = 0
inside i (x ∷ xs) = if bucket_of x == i then suc (inside i xs) else inside i xs

pub inside_below :
    (xs : List ℕ)
    → (inside 0 xs ≡ below 10 xs)
      × (inside 0 xs + inside 1 xs ≡ below 50 xs)
      × (inside 0 xs + inside 1 xs + inside 2 xs ≡ below 100 xs)
      × (inside 0 xs + inside 1 xs + inside 2 xs + inside 3 xs ≡ below 200 xs)
      × (inside 0 xs + inside 1 xs + inside 2 xs + inside 3 xs + inside 4 xs ≡ length xs)
unfolding inside below bucket_of
inside_below [] = (refl, refl, refl, refl, refl)
inside_below (x ∷ xs) = let (a, b, c, d, e) = inside_below xs in ground arith

abbrev pub counts : List ℕ → List ℕ
counts xs = inside 0 xs ∷ inside 1 xs ∷ inside 2 xs ∷ inside 3 xs ∷ inside 4 xs ∷ []

bump-counts :
    (x : ℕ) (xs : List ℕ)
    → suc (length xs) < i64_neg
    → bump (bucket_of x) (counts xs) ≡ counts (x ∷ xs)
unfolding bump bucket_of inside
bump-counts x xs few = let (a, b, c, d, total) = inside_below xs in ground arith

-- Below 2 ^ 63 samples, the counters are exact.
pub observe_all-counts :
    (xs : List ℕ)
    → length xs < i64_neg
    → ((observe_all xs).buckets ≡ counts xs) × ((observe_all xs).count ≡ length xs)
unfolding observe_all observe inside new_histogram
observe_all-counts [] few = (refl, refl)
observe_all-counts (x ∷ xs) few =
    let (same, n) = observe_all-counts xs (omega arith) in
    (ap (bump (bucket_of x)) same ∙ bump-counts x xs few, rw n (ground arith))
