-- ===== src/Release/Retry.antt =====
-- pkg/release/callback/retry_queue.go: callbacks that are sent again when they failed.
-- Tasks are shared by pointer between the map of pending tasks and the queue, so they stand once, in
-- `tasks`, under their ids, and the map and the queue hold ids. The new id of a task, the time, the
-- float64 product of the backoff and the outcome of a callback are arguments. The records of the
-- database are left out. MaxAttempts is 0 where it is not positive. Each call of Enqueue is given a
-- task of its own; the same one given again, which gets a new id under its old key, is not covered.
pub mod Bounds
pub mod Resend
use quic_flow.Prelude.{
  ℕ, ◌+◌, ltb, leb, if◌then◌else◌, Bool, true, false, not, Option, none, some, List, [], ◌∷◌, ◌++◌,
  length, keep,
}
use quic_flow.Prelude.Text.{Text, text_eq}
use quic_flow.Prelude.Map.{Map, lookup, insert, delete, modify}

pub record RetryTask : Type 0 where
  pub id : Text
  pub task_id : Text
  pub callback_id : Text
  pub channel_type : Text
  pub event_type : Text
  pub attempt_count : ℕ
  pub max_attempts : ℕ
  pub next_retry_time : Option ℕ  -- `none` is the zero time
  pub created_at : ℕ

pub record RetryConfig : Type 0 where
  pub max_attempts : ℕ
  pub max_backoff : ℕ
  pub queue_size : ℕ

pub record RetryQueue : Type 0 where
  pub config : RetryConfig
  pub queue : List Text
  pub room : ℕ
  pub tasks : Map RetryTask
  pub pending_tasks : List Text
  pub task_history : Map ℕ

pub data RetryError : Type 0 where
  task_is_nil : RetryError
  max_attempts_reached : ℕ → RetryError
  queue_is_full : RetryError

abbrev pub default_queue_size : ℕ
default_queue_size = 1000

unfoldable pub new_retry_queue : RetryConfig → RetryQueue
new_retry_queue config = record {
  config = config;
  queue = [];
  room = if ltb 0 config.queue_size then config.queue_size else default_queue_size;
  tasks = [];
  pending_tasks = [];
  task_history = [];
}

-- `power` is InitialBackoff * BackoffFactor ^ attempt.
unfoldable pub calculate_backoff : (ℕ → ℕ) → RetryConfig → ℕ → ℕ
calculate_backoff power config attempt =
    if ltb config.max_backoff (power attempt) then config.max_backoff else power attempt

unfoldable pub get_task_key : RetryTask → Text
get_task_key t =
    t.task_id ++ (b':' ∷ (t.callback_id ++ (b':' ∷ (t.channel_type ++ (b':' ∷ t.event_type)))))

-- taskHistory[key], which is 0 where the key is missing.
unfoldable pub attempts_of : Text → Map ℕ → ℕ
attempts_of key m = elim (lookup key m) [ none ↦ 0 | some n ↦ n ]

-- pendingTasks[id] = task and delete(pendingTasks, id).
unfoldable pub without : Text → List Text → List Text
without id ids = keep (λ i. not (text_eq i id)) ids

unfoldable pub with_id : Text → List Text → List Text
unfolding without
with_id id ids = without id ids ++ (id ∷ [])

-- The part of Enqueue behind the test of the attempts.
started : (ℕ → ℕ) → ℕ → Text → RetryTask → RetryConfig → RetryTask
unfolding calculate_backoff
started power now id t config = record t {
  id = id;
  created_at = now;
  next_retry_time = elim t.next_retry_time [
    | none ↦ some (now + calculate_backoff power config t.attempt_count)
    | some time ↦ some time
  ];
}

push_task : Text → RetryQueue → RetryQueue × Option RetryError
unfolding without
push_task id q =
    if ltb (length q.queue) q.room
    then (record q { queue = q.queue ++ (id ∷ []) }, none)
    else (record q { pending_tasks = without id q.pending_tasks }, some queue_is_full)

unfoldable pub enqueue :
    (ℕ → ℕ) → ℕ → Text → Option RetryTask → RetryQueue → RetryQueue × Option RetryError
unfolding get_task_key attempts_of with_id started push_task
enqueue power now id none q = (q, some task_is_nil)
enqueue power now id (some t) q =
    let key = get_task_key t in
    let attempts = attempts_of key q.task_history in
    if leb q.config.max_attempts attempts
    then (q, some (max_attempts_reached attempts))
    else push_task id (record q {
      tasks = insert id (started power now id t q.config) q.tasks;
      task_history = insert key (attempts + 1) q.task_history;
      pending_tasks = with_id id q.pending_tasks;
    })

-- processTask after the callback: `sent` says whether it succeeded.
failed : (ℕ → ℕ) → ℕ → RetryTask → RetryQueue → RetryQueue
unfolding get_task_key calculate_backoff with_id
failed power now t q =
    let count = t.attempt_count + 1 in
    if leb t.max_attempts count
    then record q {
      tasks = insert t.id (record t { attempt_count = count }) q.tasks;
      task_history = delete (get_task_key t) q.task_history;
    }
    else record q {
      tasks =
          insert t.id
            (record t {
              attempt_count = count;
              next_retry_time = some (now + calculate_backoff power q.config count);
            })
            q.tasks;
      pending_tasks = with_id t.id q.pending_tasks;
    }

unfoldable pub process_task : (ℕ → ℕ) → ℕ → Bool → RetryTask → RetryQueue → RetryQueue
unfolding failed get_task_key
process_task power now true t q = record q { task_history = delete (get_task_key t) q.task_history }
process_task power now false t q = failed power now t q

process_found : (ℕ → ℕ) → ℕ → Bool → Option RetryTask → RetryQueue → RetryQueue
unfolding process_task
process_found power now sent none q = q
process_found power now sent (some t) q = process_task power now sent t q

work_on : (ℕ → ℕ) → ℕ → Bool → List Text → RetryQueue → RetryQueue
unfolding process_found
work_on power now sent [] q = q
work_on power now sent (id ∷ rest) q =
    process_found power now sent (lookup id q.tasks) (record q { queue = rest })

-- A worker takes the next task, or waits.
unfoldable pub worker : (ℕ → ℕ) → ℕ → Bool → RetryQueue → RetryQueue
unfolding work_on
worker power now sent q = work_on power now sent q.queue q

unfoldable pub is_due : ℕ → Option RetryTask → Bool
is_due now none = false
is_due now (some t) = elim t.next_retry_time [ none ↦ true | some time ↦ leb time now ]

-- A pending task that is due goes to the queue if there is room.
check_task : ℕ → Text → RetryQueue → RetryQueue
unfolding is_due without
check_task now id q =
    if is_due now (lookup id q.tasks)
    then (if ltb (length q.queue) q.room
        then record q { pending_tasks = without id q.pending_tasks; queue = q.queue ++ (id ∷ []) }
        else q)
    else q

check_each : ℕ → List Text → RetryQueue → RetryQueue
unfolding check_task
check_each now [] q = q
check_each now (id ∷ ids) q = check_each now ids (check_task now id q)

-- One tick of the scheduler.
unfoldable pub check_pending_tasks : ℕ → RetryQueue → RetryQueue
unfolding check_each
check_pending_tasks now q = check_each now q.pending_tasks q
