-- ===== src/Batch/Job/Fitting.antt =====
-- The counters and the status of a job (pkg/batch/executor.go): the invariant, and how executeJob
-- keeps it when it launches tasks, stops and sets the final status.
use quic_flow.Prelude.{
  ℕ, ◌+◌, ◌≤◌, ◌<◌, ◌≡◌, refl, ltb, ◌==◌, if◌then◌else◌, Bool, Bool-cases, true, false, List, [],
  ◌∷◌, ◌++◌, length, length-append, arith, inl, inr,
}
use quic_flow.Prelude.Text.{Text}
use quic_flow.Batch.Job.{
  BatchJobStatus, pending, running_job, completed, failed_job, cancelled, waiting, launching, over,
  JobRun, final_status, settle, settle_as, launch_next, abandon,
}

-- What a status says of the tasks.
abbrev pub IsFitting : BatchJobStatus → JobRun → Type 0
IsFitting pending r = r.phase ≡ waiting
IsFitting running_job r = r.phase ≡ launching
IsFitting completed r =
    (r.phase ≡ over) × (r.left ≡ []) × (r.tasks ≡ []) × (0 < r.job.success_count)
IsFitting failed_job r =
    (r.phase ≡ over)
    × (r.left ≡ [])
    × (r.tasks ≡ [])
    × (r.job.success_count ≡ 0)
    × (r.job.failed_count ≡ r.job.total_count)
IsFitting cancelled r = Unit

pub record IsTallied (total : ℕ) (r : JobRun) : Type 0 where
  pub total_count : r.job.total_count ≡ total
  pub counted : r.job.success_count + r.job.failed_count + length r.tasks + length r.left ≡ total
  pub pending_count : r.job.pending_count ≡ length r.tasks + length r.left
  pub concurrency : length r.tasks ≤ r.max_concurrency
  pub fitting : IsFitting r.job.status r

module _ (total : ℕ) (some_target : 0 < total) where
  pub launch_next-IsTallied :
      (l : List Text) (r : JobRun)
      → IsTallied total r
      → r.phase ≡ launching
      → r.left ≡ l
      → IsTallied total (launch_next l r)
  unfolding launch_next
  launch_next-IsTallied [] r k p e = k
  launch_next-IsTallied (c ∷ rest) r k p e =
      elim (Bool-cases (ltb (length r.tasks) r.max_concurrency)) [
        | inr full ↦ simp full k
        | inl room ↦ simp room (
            let counted = k.counted in
            let pending_count = k.pending_count in
            let longer = length-append r.tasks (c ∷ []) in
            record {
              total_count = k.total_count;
              counted = ground arith;
              pending_count = ground arith;
              concurrency = ground arith;
              fitting = launched r.job.status k.fitting;
            })
      ]
    where
      launched :
          (s : BatchJobStatus)
          → IsFitting s r
          → IsFitting s (record r { left = rest; tasks = r.tasks ++ (c ∷ []) })
      launched pending f = f
      launched running_job f = f
      launched completed f = absurd (ground arith)
      launched failed_job f = absurd (ground arith)
      launched cancelled f = tt

  pub abandon-IsTallied :
      (l : List Text) (r : JobRun) → IsTallied total r → r.left ≡ l → IsTallied total (abandon l r)
  unfolding abandon settle
  abandon-IsTallied [] r k e = k
  abandon-IsTallied (c ∷ rest) r k e = record {
    total_count = k.total_count;
    counted = k.counted;
    pending_count = k.pending_count;
    concurrency = k.concurrency;
    fitting = tt;
  }

  final-IsFitting :
      (r : JobRun) (s : BatchJobStatus)
      → IsTallied total r
      → r.left ≡ []
      → r.tasks ≡ []
      → (no_failure no_success : Bool) → (r.job.failed_count == 0) ≡ no_failure
      → (r.job.success_count == 0) ≡ no_success
      → IsFitting
          (if no_failure then completed else if no_success then failed_job else completed)
          (record r { job = record r.job { status = s }; phase = over })
  final-IsFitting r s k l t true b e e2 =
      let counted = k.counted in
      let none_tasks : length r.tasks ≡ 0 = ground arith in
      let none_left : length r.left ≡ 0 = ground arith in (refl, l, t, ground arith)
  final-IsFitting r s k l t false true e e2 =
      let counted = k.counted in
      let total_count = k.total_count in
      let none_tasks : length r.tasks ≡ 0 = ground arith in
      let none_left : length r.left ≡ 0 = ground arith in (refl, l, t, ground arith, ground arith)
  final-IsFitting r s k l t false false e e2 = (refl, l, t, ground arith)

  pub settle_as-IsTallied :
      (s : BatchJobStatus) (r : JobRun)
      → IsTallied total r
      → r.job.status ≡ s
      → IsFitting s r
      → r.phase ≡ launching
      → r.left ≡ []
      → r.tasks ≡ []
      → IsTallied total (record r { job = settle_as s r.job; phase = over })
  unfolding settle_as final_status
  settle_as-IsTallied pending r k e f p l t = absurd (ground arith)
  settle_as-IsTallied completed r k e f p l t = absurd (ground arith)
  settle_as-IsTallied failed_job r k e f p l t = absurd (ground arith)
  settle_as-IsTallied cancelled r k e f p l t = record {
    total_count = k.total_count;
    counted = k.counted;
    pending_count = k.pending_count;
    concurrency = k.concurrency;
    fitting = rw e tt;
  }
  settle_as-IsTallied running_job r k e f p l t = record {
    total_count = k.total_count;
    counted = k.counted;
    pending_count = k.pending_count;
    concurrency = k.concurrency;
    fitting =
        final-IsFitting r (final_status r.job) k l t (r.job.failed_count == 0)
          (r.job.success_count == 0) refl refl;
  }
