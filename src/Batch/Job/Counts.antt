-- ===== src/Batch/Job/Counts.antt =====
-- The counters and the status of a job (pkg/batch/executor.go) through every sequence of steps.
use mathlib.Core.Path.{subst}
use quic_flow.Prelude.{
  ℕ, ◌<◌, ◌≡◌, refl, ◌∙◌, Option, none, some, List, [], ◌∷◌, length, pick, length-pick, arith,
}
use quic_flow.Prelude.Word.{i64_neg}
use quic_flow.Prelude.Text.{Text}
use quic_flow.Batch.Task.{Outcome, succeeded, failed}
use quic_flow.Batch.Job.{
  BatchJobStatus, pending, running_job, completed, failed_job, cancelled, BatchJob, job_for,
  new_job, execute, Phase, waiting, launching, over, JobRun, Event, start, launch, give_up,
  finish_job, cancel, finish, count_task, settle, cancel_as, launch_next, abandon, conclude,
  finish_task, begun, cancel_job, when_launching, step, run, begin,
}
use quic_flow.Batch.Job.Fitting.{
  IsFitting, IsTallied, launch_next-IsTallied, abandon-IsTallied, settle_as-IsTallied,
}

module _ (total : ℕ) (some_target : 0 < total) (few : total < i64_neg) where
  conclude-IsTallied :
      (l t : List Text) (r : JobRun)
      → IsTallied total r
      → r.phase ≡ launching
      → r.left ≡ l
      → r.tasks ≡ t
      → IsTallied total (conclude l t r)
  unfolding conclude settle
  conclude-IsTallied [] [] r k p e e2 =
      settle_as-IsTallied total some_target r.job.status r k refl k.fitting p e e2
  conclude-IsTallied [] (c ∷ t) r k p e e2 = k
  conclude-IsTallied (c ∷ l) t r k p e e2 = k

  -- Where a task runs, the job has no final status.
  counted-IsFitting :
      (s : BatchJobStatus) (r r' : JobRun)
      → IsFitting s r
      → 0 < length r.tasks
      → r'.phase ≡ r.phase
      → IsFitting s r'
  counted-IsFitting pending r r' f h p = p ∙ f
  counted-IsFitting running_job r r' f h p = p ∙ f
  counted-IsFitting completed r r' f h p = absurd (ground arith)
  counted-IsFitting failed_job r r' f h p = absurd (ground arith)
  counted-IsFitting cancelled r r' f h p = tt

  finish_task-IsTallied :
      (p : Option (Text × List Text)) (i : ℕ) (o : Outcome) (r : JobRun)
      → IsTallied total r
      → pick i r.tasks ≡ p
      → IsTallied total (finish_task p o r)
  unfolding finish_task count_task
  finish_task-IsTallied none i o r k e = k
  finish_task-IsTallied (some (c, rest)) i (succeeded x) r k e =
      let counted = k.counted in
      let pending_count = k.pending_count in
      let concurrency = k.concurrency in
      let shorter = length-pick i r.tasks c rest e in
      record {
        total_count = k.total_count;
        counted = grind arith;
        pending_count = grind arith;
        concurrency = omega arith;
        fitting = counted-IsFitting r.job.status r _ k.fitting (omega arith) refl;
      }
  finish_task-IsTallied (some (c, rest)) i (failed x) r k e =
      let counted = k.counted in
      let pending_count = k.pending_count in
      let concurrency = k.concurrency in
      let shorter = length-pick i r.tasks c rest e in
      record {
        total_count = k.total_count;
        counted = grind arith;
        pending_count = grind arith;
        concurrency = omega arith;
        fitting = counted-IsFitting r.job.status r _ k.fitting (omega arith) refl;
      }

  begun-IsTallied :
      (p : Phase) (r : JobRun) → IsTallied total r → r.phase ≡ p → IsTallied total (begun p r)
  begun-IsTallied waiting r k e = record {
    total_count = k.total_count;
    counted = k.counted;
    pending_count = k.pending_count;
    concurrency = k.concurrency;
    fitting = refl;
  }
  begun-IsTallied launching r k e = k
  begun-IsTallied over r k e = k

  cancelled-IsTallied :
      (r : JobRun)
      → IsTallied total r
      → IsTallied total (record r { job = record r.job { status = cancelled } })
  cancelled-IsTallied r k = record {
    total_count = k.total_count;
    counted = k.counted;
    pending_count = k.pending_count;
    concurrency = k.concurrency;
    fitting = tt;
  }

  cancel_as-IsTallied :
      (s : BatchJobStatus) (r : JobRun)
      → IsTallied total r
      → IsTallied total (record r { job = cancel_as s r.job })
  unfolding cancel_as
  cancel_as-IsTallied pending r k = cancelled-IsTallied r k
  cancel_as-IsTallied running_job r k = cancelled-IsTallied r k
  cancel_as-IsTallied completed r k = k
  cancel_as-IsTallied failed_job r k = k
  cancel_as-IsTallied cancelled r k = k

  when-IsTallied :
      (p : Phase) (r' r : JobRun)
      → IsTallied total r
      → r.phase ≡ p
      → (r.phase ≡ launching → IsTallied total r')
      → IsTallied total (when_launching p r' r)
  when-IsTallied waiting r' r k e f = k
  when-IsTallied launching r' r k e f = f e
  when-IsTallied over r' r k e f = k

  step-IsTallied : (e : Event) (r : JobRun) → IsTallied total r → IsTallied total (step e r)
  unfolding step cancel_job
  step-IsTallied start r k = begun-IsTallied r.phase r k refl
  step-IsTallied launch r k =
      when-IsTallied r.phase (launch_next r.left r) r k refl
        (λ p. launch_next-IsTallied total some_target r.left r k p refl)
  step-IsTallied give_up r k =
      when-IsTallied r.phase (abandon r.left r) r k refl
        (λ p. abandon-IsTallied total some_target r.left r k refl)
  step-IsTallied finish_job r k =
      when-IsTallied r.phase (conclude r.left r.tasks r) r k refl
        (λ p. conclude-IsTallied r.left r.tasks r k p refl refl)
  step-IsTallied cancel r k = cancel_as-IsTallied r.job.status r k
  step-IsTallied (finish i o) r k = finish_task-IsTallied (pick i r.tasks) i o r k refl

  steps-IsTallied : (es : List Event) (r : JobRun) → IsTallied total r → IsTallied total (run es r)
  unfolding run
  steps-IsTallied [] r k = k
  steps-IsTallied (e ∷ es) r k = steps-IsTallied es (step e r) (step-IsTallied e r k)

given_job : {i j : BatchJob} → some i ≡ some j → i ≡ j
given_job e = ground arith

job_for-begin :
    (clients : List Text) (max_concurrency : ℕ) (j : BatchJob)
    → job_for clients ≡ some j
    → (0 < length j.target_clients) × IsTallied (length j.target_clients) (begin max_concurrency j)
unfolding job_for begin new_job
job_for-begin [] m j e = absurd (ground arith)
job_for-begin (c ∷ cs) m j e =
    let same : new_job (c ∷ cs) ≡ j = given_job e in
    subst (λ i. (0 < length i.target_clients) × IsTallied (length i.target_clients) (begin m i))
      same
      (
        omega arith,
        record {
          total_count = refl;
          counted = omega arith;
          pending_count = omega arith;
          concurrency = omega arith;
          fitting = refl;
        },
      )

-- For a job of fewer than 2 ^ 63 clients and any sequence of steps: each client is counted once, as a
-- success, as a failure, among the tasks that run or among those to come; the pending count is that
-- of the last two; no more tasks run than MaxConcurrency; and a job that is completed or has failed
-- has no client left, the failed one without a success and the completed one with one at least.
pub run-IsTallied :
    (online targets : List Text) (j : BatchJob) (max_concurrency : ℕ) (es : List Event)
    → execute online targets ≡ some j
    → length j.target_clients < i64_neg
    → IsTallied (length j.target_clients) (run es (begin max_concurrency j))
unfolding execute
run-IsTallied online [] j m es e few =
    let (some_target, k) = job_for-begin online m j e in
    steps-IsTallied (length j.target_clients) some_target few es (begin m j) k
run-IsTallied online (c ∷ cs) j m es e few =
    let (some_target, k) = job_for-begin (c ∷ cs) m j e in
    steps-IsTallied (length j.target_clients) some_target few es (begin m j) k
