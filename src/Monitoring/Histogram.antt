-- ===== src/Monitoring/Histogram.antt =====
-- pkg/monitoring/histogram.go: latencies in five buckets. A latency is in milliseconds and not
-- negative. The counters are int64 as bit patterns; the divisions read them as they are below
-- 2 ^ 63. The product of the count with a percentile, which is a float64 and is first brought between
-- 0 and 1, is an argument: a function of the count.
pub mod Samples
pub mod Percentiles
mod Examples
use quic_flow.Prelude.{
  ℕ, zero, suc, ◌+◌, ◌*◌, ◌/◌, ltb, ◌==◌, if◌then◌else◌, Bool, true, false, List, [], ◌∷◌,
}
use quic_flow.Prelude.Word.{add64, i64_leb}

pub record Histogram : Type 0 where
  pub buckets : List ℕ
  pub count : ℕ
  pub sum : ℕ  -- microseconds

unfoldable pub new_histogram : Histogram
new_histogram = record { buckets = 0 ∷ 0 ∷ 0 ∷ 0 ∷ 0 ∷ []; count = 0; sum = 0 }

-- The switch of Observe.
unfoldable pub bucket_of : ℕ → ℕ
bucket_of latency =
    if ltb latency 10
    then 0
    else if ltb latency 50
    then 1
    else if ltb latency 100
    then 2
    else if ltb latency 200
    then 3
    else 4

-- buckets[i].Add(1).
unfoldable pub bump : ℕ → List ℕ → List ℕ
bump i [] = []
bump zero (n ∷ ns) = add64 n 1 ∷ ns
bump (suc i) (n ∷ ns) = n ∷ bump i ns

unfoldable pub observe : ℕ → Histogram → Histogram
unfolding bucket_of bump
observe latency h = record {
  buckets = bump (bucket_of latency) h.buckets;
  count = add64 h.count 1;
  sum = add64 h.sum (latency * 1000);
}

unfoldable pub mean : Histogram → ℕ
mean h = if h.count == 0 then 0 else h.sum / h.count / 1000

unfoldable pub sum_of : Histogram → ℕ
sum_of h = h.sum / 1000

unfoldable pub upper_bound : ℕ → ℕ
upper_bound i =
    if i == 0
    then 10
    else if i == 1
    then 50
    else if i == 2
    then 100
    else if i == 3
    then 200
    else if i == 4
    then 500
    else 1000

-- The loop over the buckets that are left, from the i-th.
unfoldable pub find_bucket : ℕ → ℕ → ℕ → List ℕ → ℕ
unfolding upper_bound
find_bucket target cumulative i [] = upper_bound 4
find_bucket target cumulative i (n ∷ ns) =
    let rest = find_bucket target (add64 cumulative n) (suc i) ns in
    if i64_leb target (add64 cumulative n) then upper_bound i else rest

unfoldable pub percentile : (ℕ → ℕ) → Histogram → ℕ
unfolding find_bucket
percentile target h = if h.count == 0 then 0 else find_bucket (target h.count) 0 0 h.buckets

unfoldable pub reset : Histogram → Histogram
unfolding new_histogram
reset h = new_histogram

pub record HistogramSnapshot : Type 0 where
  pub count : ℕ
  pub sum : ℕ
  pub mean_latency : ℕ
  pub p50 : ℕ
  pub p95 : ℕ
  pub p99 : ℕ
  pub bucket_counts : List ℕ

-- With the products for 0.50, 0.95 and 0.99.
unfoldable pub get_snapshot : (ℕ → ℕ) → (ℕ → ℕ) → (ℕ → ℕ) → Histogram → HistogramSnapshot
unfolding sum_of mean percentile
get_snapshot half most nearly_all h = record {
  count = h.count;
  sum = sum_of h;
  mean_latency = mean h;
  p50 = percentile half h;
  p95 = percentile most h;
  p99 = percentile nearly_all h;
  bucket_counts = h.buckets;
}
