-- ===== src/Batch/Job.antt =====
-- A job of pkg/batch/executor.go: Execute, executeJob with the tasks that run beside it, CancelJob.
-- The goroutines are steps in any order: executeJob starts, hands a client to a task if the semaphore
-- has room, sees that its context is done, or ends; a task ends; CancelJob is called. The counters
-- are atomic int64, as bit patterns. The callbacks, the times and the map of active jobs are left
-- out: the job is in that map until five minutes after its end.
pub mod Fitting
pub mod Counts
use quic_flow.Prelude.{
  ℕ, ltb, ◌==◌, if◌then◌else◌, Bool, true, false, Option, none, some, List, [], ◌∷◌, ◌++◌, length,
  pick,
}
use quic_flow.Prelude.Word.{add64, dec64}
use quic_flow.Prelude.Text.{Text}
use quic_flow.Prelude.Map.{Map, insert}
use quic_flow.Batch.Task.{TaskError, TaskResult, Outcome, succeeded, failed}

pub data BatchJobStatus : Type 0 where
  pending running_job completed failed_job cancelled : BatchJobStatus

pub record BatchJob : Type 0 where
  pub target_clients : List Text
  pub status : BatchJobStatus
  pub total_count : ℕ
  pub success_count : ℕ
  pub failed_count : ℕ
  pub pending_count : ℕ
  pub results : Map TaskResult
  pub errors : Map (Option TaskError)

new_job : List Text → BatchJob
new_job clients = record {
  target_clients = clients;
  status = pending;
  total_count = length clients;
  success_count = 0;
  failed_count = 0;
  pending_count = length clients;
  results = [];
  errors = [];
}

job_for : List Text → Option BatchJob
unfolding new_job
job_for [] = none
job_for (c ∷ cs) = some (new_job (c ∷ cs))

-- The given clients, or all those online; `none` where there are none.
unfoldable pub execute : List Text → List Text → Option BatchJob
unfolding job_for
execute online [] = job_for online
execute online (c ∷ cs) = job_for (c ∷ cs)

-- Where executeJob stands.
pub data Phase : Type 0 where
  waiting launching over : Phase

-- A job, the clients not yet handed to a task and the clients whose tasks run.
pub record JobRun : Type 0 where
  pub job : BatchJob
  pub phase : Phase
  pub left : List Text
  pub tasks : List Text
  pub max_concurrency : ℕ

pub data Event : Type 0 where
  start launch give_up finish_job cancel : Event
  finish : ℕ → Outcome → Event

-- The end of executeTask.
unfoldable pub count_task : Text → Outcome → BatchJob → BatchJob
count_task client (succeeded r) j = record j {
  results = insert client r j.results;
  success_count = add64 j.success_count 1;
  pending_count = dec64 j.pending_count;
}
count_task client (failed r) j = record j {
  results = insert client r j.results;
  errors = insert client r.error j.errors;
  failed_count = add64 j.failed_count 1;
  pending_count = dec64 j.pending_count;
}

final_status : BatchJob → BatchJobStatus
final_status j =
    if j.failed_count == 0
    then completed
    else if j.success_count == 0
    then failed_job
    else completed

-- The final status, unless the job has been cancelled.
pub settle_as : BatchJobStatus → BatchJob → BatchJob
unfolding final_status
settle_as running_job j = record j { status = final_status j }
settle_as _ j = j

unfoldable pub settle : BatchJob → BatchJob
unfolding settle_as
settle j = settle_as j.status j

pub launch_next : List Text → JobRun → JobRun
launch_next [] r = r
launch_next (c ∷ rest) r =
    if ltb (length r.tasks) r.max_concurrency
    then record r { left = rest; tasks = r.tasks ++ (c ∷ []) }
    else r

-- `goto done` from the loop over the clients: the tasks that run are not awaited.
pub abandon : List Text → JobRun → JobRun
unfolding settle
abandon [] r = r
abandon (c ∷ rest) r = record r { job = settle (record r.job { status = cancelled }); phase = over }

-- The end of the loop and of wg.Wait().
conclude : List Text → List Text → JobRun → JobRun
unfolding settle
conclude [] [] r = record r { job = settle r.job; phase = over }
conclude _ _ r = r

finish_task : Option (Text × List Text) → Outcome → JobRun → JobRun
unfolding count_task
finish_task none o r = r
finish_task (some (c, rest)) o r = record r { job = count_task c o r.job; tasks = rest }

abbrev begun : Phase → JobRun → JobRun
begun waiting r = record r { job = record r.job { status = running_job }; phase = launching }
begun _ r = r

cancel_as : BatchJobStatus → BatchJob → BatchJob
cancel_as pending j = record j { status = cancelled }
cancel_as running_job j = record j { status = cancelled }
cancel_as _ j = j

unfoldable pub cancel_job : BatchJob → BatchJob
unfolding cancel_as
cancel_job j = cancel_as j.status j

-- A step that does not come in the phase where executeJob stands changes nothing.
abbrev when_launching : Phase → JobRun → JobRun → JobRun
when_launching launching r' r = r'
when_launching _ r' r = r

unfoldable pub step : Event → JobRun → JobRun
unfolding launch_next abandon conclude finish_task cancel_job
step start r = begun r.phase r
step launch r = when_launching r.phase (launch_next r.left r) r
step give_up r = when_launching r.phase (abandon r.left r) r
step finish_job r = when_launching r.phase (conclude r.left r.tasks r) r
step cancel r = record r { job = cancel_job r.job }
step (finish k o) r = finish_task (pick k r.tasks) o r

unfoldable pub run : List Event → JobRun → JobRun
unfolding step
run [] r = r
run (e ∷ es) r = run es (step e r)

unfoldable pub begin : ℕ → BatchJob → JobRun
begin max_concurrency j = record {
  job = j;
  phase = waiting;
  left = j.target_clients;
  tasks = [];
  max_concurrency = max_concurrency;
}
