-- ===== src/Monitoring/Histogram/Examples.antt =====
-- Tests of the histogram, and its theorem at concrete samples.
use quic_flow.Prelude.{ℕ, ◌*◌, ◌/◌, ◌≡◌, refl, List, [], ◌∷◌, arith}
use quic_flow.Prelude.Word.{i64_leb}
use quic_flow.Monitoring.Histogram.{new_histogram, observe, mean, percentile}
use quic_flow.Monitoring.Histogram.Samples.{observe_all}
use quic_flow.Monitoring.Histogram.Percentiles.{IsLeast, percentile-IsLeast}

abbrev half : ℕ → ℕ
half n = n * 50 / 100

abbrev nearly_all : ℕ → ℕ
nearly_all n = n * 99 / 100

abbrev latencies : List ℕ
latencies = 300 ∷ 120 ∷ 60 ∷ 5 ∷ []

observed :
    observe_all latencies ≡ record { buckets = 1 ∷ 0 ∷ 1 ∷ 1 ∷ 1 ∷ []; count = 4; sum = 485000 }
unfolding observe_all observe new_histogram
observed = refl

median : percentile half (observe_all latencies) ≡ 100
unfolding observe_all observe new_histogram percentile i64_leb
median = refl

average : mean (observe_all latencies) ≡ 121
unfolding observe_all observe new_histogram mean
average = refl

-- The product is rounded down: one slow sample alone is above the 99th percentile.
one_slow_sample : percentile nearly_all (observe_all (300 ∷ [])) ≡ 10
unfolding observe_all observe new_histogram percentile i64_leb
one_slow_sample = refl

percentile-IsLeast_example : IsLeast (percentile half (observe_all latencies)) 2 latencies
percentile-IsLeast_example =
    percentile-IsLeast half latencies (omega arith) (omega arith) (omega arith)
