-- ===== src/Batch/Examples.antt =====
-- Tests and examples for pkg/batch/executor.go.
use quic_flow.Prelude.{
  ℕ, ◌≡◌, refl, ◌==◌, if◌then◌else◌, Bool, true, false, none, some, List, [], ◌∷◌, arith,
}
use quic_flow.Prelude.Text.{Text}
use quic_flow.Batch.Task.{
  send_error, Attempt, not_sent, sent, acked, Outcome, succeeded, failed, execute_task,
}
use quic_flow.Batch.Task.Retries.{IsTried, execute_task-IsTried}
use quic_flow.Batch.Job.{
  BatchJob, pending, completed, execute, Event, start, launch, finish_job, cancel, finish, run,
  begin,
}
use quic_flow.Batch.Job.Fitting.{IsTallied}
use quic_flow.Batch.Job.Counts.{run-IsTallied}

-- The first attempt is not sent, the second is acknowledged.
abbrev second_time : ℕ → Attempt
second_time i = if i == 0 then not_sent 7 else sent (acked true (b'k' ∷ []) [])

abbrev never_ends : ℕ → Bool
never_ends i = false

execute_task-IsTried_example :
    IsTried true second_time never_ends 2
      (b'a' ∷ [])
      (execute_task true second_time never_ends 2 (b'a' ∷ []))
execute_task-IsTried_example = execute_task-IsTried true second_time never_ends 2 (b'a' ∷ [])

-- A client that reports a failure without a text counts as a success of the job.
silent_failure :
    execute_task true (λ i. sent (acked false [] [])) never_ends 2 (b'a' ∷ [])
    ≡ succeeded (record {
      client_id = b'a' ∷ [];
      success = false;
      result = [];
      error = none;
      retry_count = 0;
    })
unfolding execute_task
silent_failure = refl

abbrev two_clients : List Text
two_clients = (b'a' ∷ []) ∷ (b'b' ∷ []) ∷ []

abbrev two_job : BatchJob
two_job = record {
  target_clients = two_clients;
  status = pending;
  total_count = 2;
  success_count = 0;
  failed_count = 0;
  pending_count = 2;
  results = [];
  errors = [];
}

abbrev done_task : Outcome
done_task =
    succeeded
      (record { client_id = []; success = true; result = []; error = none; retry_count = 0 })

abbrev failed_task : Outcome
failed_task = failed (record {
  client_id = [];
  success = false;
  result = [];
  error = some (send_error 7);
  retry_count = 0;
})

abbrev some_steps : List Event
some_steps =
    start ∷ launch ∷ launch ∷ finish 1 done_task ∷ finish 0 failed_task ∷ finish_job ∷ cancel ∷ []

some_steps_end : (run some_steps (begin 2 two_job)).job.status ≡ completed
unfolding run begin
some_steps_end = refl

run-IsTallied_example : IsTallied 2 (run some_steps (begin 2 two_job))
unfolding execute
run-IsTallied_example = run-IsTallied [] two_clients two_job 2 some_steps refl (omega arith)
