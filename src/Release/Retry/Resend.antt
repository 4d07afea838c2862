-- ===== src/Release/Retry/Resend.antt =====
-- A callback that succeeds at its first retry is sent again by the retry queue of
-- pkg/release/callback/retry_queue.go: Enqueue puts the task both into the queue, from which a worker
-- takes it at once, and among the pending tasks, and a success does not take it from there.
use quic_flow.Prelude.{ℕ, ◌+◌, ◌≤◌, ◌<◌, ◌≡◌, ap, ◌∙◌, true, none, some, List, [], ◌∷◌, arith}
use quic_flow.Prelude.Text.{Text, text_eq_refl}
use quic_flow.Prelude.Map.{
  Map, IsMap, lookup, insert, delete, lookup-insert_self, lookup-delete, insert-IsMap,
}
use quic_flow.Release.Retry.{
  RetryTask, RetryConfig, RetryQueue, enqueue, push_task, get_task_key, attempts_of, worker,
  work_on, process_found, process_task, check_pending_tasks, check_each, check_task,
  calculate_backoff, is_due, with_id, without, started,
}

-- A queue with nothing waiting or pending.
abbrev pub quiet : RetryConfig → ℕ → Map RetryTask → Map ℕ → RetryQueue
quiet config room tasks history = record {
  config = config;
  queue = [];
  room = room;
  tasks = tasks;
  pending_tasks = [];
  task_history = history;
}

abbrev waiting : List Text → List Text → RetryConfig → ℕ → Map RetryTask → Map ℕ → RetryQueue
waiting queue pending config room tasks history = record {
  config = config;
  queue = queue;
  room = room;
  tasks = tasks;
  pending_tasks = pending;
  task_history = history;
}

enqueue-quiet :
    (config : RetryConfig) (power : ℕ → ℕ) (room now : ℕ) (id : Text) (t : RetryTask)
    (tasks : Map RetryTask) (history : Map ℕ)
    → 0 < room
    → attempts_of (get_task_key t) history < config.max_attempts
    → (enqueue power now id (some t) (quiet config room tasks history)).0
      ≡ waiting
          (id ∷ [])
          (id ∷ [])
          config
          room
          (insert id (started power now id t config) tasks)
          (insert (get_task_key t) (attempts_of (get_task_key t) history + 1) history)
unfolding enqueue push_task with_id without
enqueue-quiet config power room now id t tasks history some_room few = ground arith

worker-sent :
    (config : RetryConfig) (power : ℕ → ℕ) (room later : ℕ) (id : Text) (t : RetryTask)
    (tasks : Map RetryTask) (history : Map ℕ)
    → lookup id tasks ≡ some t
    → worker power later true (waiting (id ∷ []) (id ∷ []) config room tasks history)
      ≡ waiting [] (id ∷ []) config room tasks (delete (get_task_key t) history)
unfolding worker work_on process_found process_task
worker-sent config power room later id t tasks history found = ground (arith, found)

check-due :
    (config : RetryConfig) (room due : ℕ) (id : Text) (t : RetryTask) (tasks : Map RetryTask)
    (history : Map ℕ)
    → 0 < room
    → lookup id tasks ≡ some t
    → is_due due (some t) ≡ true
    → (check_pending_tasks due (waiting [] (id ∷ []) config room tasks history)).queue ≡ id ∷ []
unfolding check_pending_tasks check_each check_task
check-due config room due id t tasks history some_room found now = rw found (rw now (ground arith))

started-due :
    (power : ℕ → ℕ) (now due : ℕ) (id : Text) (t : RetryTask) (config : RetryConfig)
    → t.next_retry_time ≡ none
    → now + calculate_backoff power config t.attempt_count ≤ due
    → is_due due (some (started power now id t config)) ≡ true
unfolding is_due started
started-due power now due id t config fresh waited = ground (arith, fresh)

gone : (key : Text) (m : Map ℕ) → IsMap m → lookup key (delete key m) ≡ none
gone key m u = ground (arith, lookup-delete key key m u, text_eq_refl key)

-- A task without a time of its own, that a queue with nothing waiting accepts, and whose callback then
-- succeeds: the queue forgets the task's attempts, and yet at any tick from the backoff on it queues
-- the task a second time.
pub enqueue-sent_again :
    (config : RetryConfig) (power : ℕ → ℕ) (room now later due : ℕ) (id : Text) (t : RetryTask)
    (tasks : Map RetryTask) (history : Map ℕ)
    → IsMap history
    → t.next_retry_time ≡ none
    → 0 < room
    → attempts_of (get_task_key t) history < config.max_attempts
    → now + calculate_backoff power config t.attempt_count ≤ due
    → let accepted = (enqueue power now id (some t) (quiet config room tasks history)).0 in
      let sent = worker power later true accepted in
      (sent.queue ≡ [])
      × (lookup (get_task_key t) sent.task_history ≡ none)
      × ((check_pending_tasks due sent).queue ≡ id ∷ [])
unfolding started get_task_key
enqueue-sent_again config power room now later due id t tasks history u fresh some_room few waited =
    let key = get_task_key t in
    let task = started power now id t config in
    let held = insert id task tasks in
    let counts = insert key (attempts_of key history + 1) history in
    let found = lookup-insert_self id task tasks in
    let e =
      ap (worker power later true)
        (enqueue-quiet config power room now id t tasks history some_room few)
      ∙ worker-sent config power room later id task held counts found in
    (
      ap (λ (q : RetryQueue). q.queue) e,
      ap (λ (q : RetryQueue). lookup key q.task_history) e
          ∙ gone key counts (insert-IsMap key (attempts_of key history + 1) history u),
      ap (λ (q : RetryQueue). (check_pending_tasks due q).queue) e
          ∙ check-due config room due id task held (delete key counts) some_room found
              (started-due power now due id t config fresh waited),
    )
