-- ===== src/Dispatcher/Config.antt =====
-- The configuration of the dispatchers (pkg/dispatcher/dispatcher.go and multi_queue.go): defaults,
-- and how the workers are split over the queues. A count that is not positive is 0 here.
use native.Mathlib.Nat.{zero-add, add-zero, div-add-mod, mod-lt}
use quic_flow.Prelude.{
  ℕ, zero, suc, ◌+◌, ◌*◌, ◌/◌, ◌%◌, ◌≤◌, ◌<◌, ◌≡◌, ltb, ◌==◌, if◌then◌else◌, List, [], ◌∷◌, arith,
  All,
}

pub record DispatcherConfig : Type 0 where
  pub worker_count : ℕ
  pub task_queue_size : ℕ

abbrev or_default : ℕ → ℕ → ℕ
or_default n d = if n == 0 then d else n

unfoldable pub with_defaults : DispatcherConfig → DispatcherConfig
with_defaults c = record {
  worker_count = or_default c.worker_count 10;
  task_queue_size = or_default c.task_queue_size 1000;
}

abbrev at_most : ℕ → ℕ → ℕ
at_most n bound = if ltb bound n then bound else n

-- The queue count for a configuration with its defaults: 4 unless it is set, no more than the
-- workers, and no more than 32.
unfoldable pub queue_count : DispatcherConfig → ℕ → ℕ
queue_count c n = at_most (at_most (or_default n 4) c.worker_count) 32

-- The workers of queue `i` of `n`.
unfoldable pub workers_of : ℕ → ℕ → ℕ → ℕ
workers_of workers n i = if ltb i (workers % n) then workers / n + 1 else workers / n

-- The loop that creates the queues: `k` of them, from index `i` on.
unfoldable pub worker_counts : ℕ → ℕ → ℕ → ℕ → List ℕ
worker_counts workers n zero i = []
worker_counts workers n (suc k) i = workers_of workers n i ∷ worker_counts workers n k (suc i)

-- The room of each queue.
unfoldable pub queue_room : DispatcherConfig → ℕ → ℕ
queue_room c n = c.task_queue_size / n + 1

pub sum : List ℕ → ℕ
sum [] = 0
sum (x ∷ xs) = x + sum xs

-- 1 ≤ queue count ≤ min(workers, 32).
pub queue_count_bounds :
    (c : DispatcherConfig) (n : ℕ)
    → let d = with_defaults c in
      (0 < queue_count d n) × (queue_count d n ≤ d.worker_count) × (queue_count d n ≤ 32)
unfolding with_defaults queue_count
queue_count_bounds c n = ground arith

-- The workers of the first `i` queues.
taken : ℕ → ℕ → ℕ → ℕ
taken workers n i = i * (workers / n) + (if ltb i (workers % n) then i else workers % n)

taken-suc : (workers n i : ℕ) → taken workers n (suc i) ≡ taken workers n i + workers_of workers n i
unfolding taken workers_of
taken-suc workers n i = ground arith

sum-worker_counts :
    (workers n k i : ℕ)
    → taken workers n i + sum (worker_counts workers n k i) ≡ taken workers n (k + i)
unfolding sum worker_counts
sum-worker_counts workers n zero i = rw (zero-add, add-zero)
sum-worker_counts workers n (suc k) i =
    let shift : suc k + i ≡ k + suc i = omega arith in
    rw shift (omega (arith, sum-worker_counts workers n k (suc i), taken-suc workers n i))

taken-all : (workers n : ℕ) → 0 < n → taken workers n n ≡ workers
unfolding taken
taken-all workers n h = grind (arith, div-add-mod workers n, mod-lt)

sum-worker_counts_all : (workers n : ℕ) → 0 < n → sum (worker_counts workers n n 0) ≡ workers
sum-worker_counts_all workers n h =
    let none_taken : taken workers n 0 ≡ 0 = unfold taken in ground arith in
    let all_taken : taken workers n (n + 0) ≡ workers = rw add-zero (taken-all workers n h) in
    omega (arith, sum-worker_counts workers n n 0, none_taken, all_taken)

div_pos : (workers n : ℕ) → 0 < n → n ≤ workers → 0 < workers / n
div_pos workers n h b = grind (arith, div-add-mod workers n, mod-lt)

-- Every queue has a worker, and the counts differ by at most one.
abbrev pub IsEven : ℕ → ℕ → List ℕ → Type 0
IsEven workers n = All (λ c. (0 < c) × (workers / n ≤ c) × (c ≤ workers / n + 1))

worker_counts-IsEven :
    (workers n k i : ℕ) → 0 < n → n ≤ workers → IsEven workers n (worker_counts workers n k i)
unfolding worker_counts workers_of
worker_counts-IsEven workers n zero i h b = tt
worker_counts-IsEven workers n (suc k) i h b =
    (ground (arith, div_pos workers n h b), worker_counts-IsEven workers n k (suc i) h b)

-- For any configuration there are between 1 and 32 queues, no more than workers. Every worker
-- belongs to exactly one queue, every queue has one, and the counts differ by at most one.
pub worker_split :
    (c : DispatcherConfig) (n : ℕ)
    → let d = with_defaults c in
      let queues = queue_count d n in
      let counts = worker_counts d.worker_count queues queues 0 in
      (0 < queues)
      × (queues ≤ 32)
      × (queues ≤ d.worker_count)
      × (sum counts ≡ d.worker_count)
      × IsEven d.worker_count queues counts
worker_split c n =
    let d = with_defaults c in
    let queues = queue_count d n in
    let (some_queue, few, bounded) = queue_count_bounds c n in
    (
      some_queue,
      bounded,
      few,
      sum-worker_counts_all d.worker_count queues some_queue,
      worker_counts-IsEven d.worker_count queues queues 0 some_queue few,
    )
