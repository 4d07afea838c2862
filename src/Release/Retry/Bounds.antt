-- ===== src/Release/Retry/Bounds.antt =====
-- Bounds that hold in every history of the retry queue of pkg/release/callback/retry_queue.go.
use mathlib.Core.Path.{subst}
use quic_flow.Prelude.{
  ℕ, ◌+◌, ◌≤◌, ◌≡◌, refl, sym, ap, ◌∙◌, ltb, leb, if◌then◌else◌, Bool, true, false, Option, none,
  some, List, [], ◌∷◌, ◌++◌, length, length-append, arith,
}
use quic_flow.Prelude.Text.{Text}
use quic_flow.Prelude.Map.{
  Map, IsMap, lookup, insert, delete, lookup-insert, lookup-delete, insert-IsMap, delete-IsMap,
}
use quic_flow.Release.Retry.{
  RetryTask, RetryConfig, RetryQueue, new_retry_queue, enqueue, push_task, get_task_key,
  attempts_of, worker, work_on, process_found, process_task, failed, check_pending_tasks,
  check_each, check_task, is_due, without, with_id, started, queue_is_full, RetryError,
  max_attempts_reached,
}

pub data Event : Type 0 where
  enqueues : ℕ → Text → Option RetryTask → Event
  works : ℕ → Bool → Event
  ticks : ℕ → Event

unfoldable pub step : (ℕ → ℕ) → Event → RetryQueue → RetryQueue
step power (enqueues now id t) q = (enqueue power now id t q).0
step power (works now sent) q = worker power now sent q
step power (ticks now) q = check_pending_tasks now q

unfoldable pub run : (ℕ → ℕ) → List Event → RetryQueue → RetryQueue
run power [] q = q
run power (e ∷ es) q = run power es (step power e q)

pub record IsBounded (c : RetryConfig) (q : RetryQueue) : Type 0 where
  pub configured : q.config ≡ c
  pub fits : length q.queue ≤ q.room
  pub counted : IsMap q.task_history
  pub attempts : (key : Text) → attempts_of key q.task_history ≤ c.max_attempts

attempts-insert :
    (key j : Text) (n bound : ℕ) (m : Map ℕ)
    → n ≤ bound
    → attempts_of j m ≤ bound
    → attempts_of j (insert key n m) ≤ bound
unfolding attempts_of
attempts-insert key j n bound m h k = ground (arith, lookup-insert key j n m)

attempts-delete :
    (key j : Text) (bound : ℕ) (m : Map ℕ)
    → IsMap m
    → attempts_of j m ≤ bound
    → attempts_of j (delete key m) ≤ bound
unfolding attempts_of
attempts-delete key j bound m u k = ground (arith, lookup-delete key j m u)

if-IsBounded :
    (c : RetryConfig) (b : Bool) (x y : RetryQueue)
    → (b ≡ true → IsBounded c x)
    → (b ≡ false → IsBounded c y)
    → IsBounded c (if b then x else y)
if-IsBounded c true x y h k = h refl
if-IsBounded c false x y h k = k refl

if-IsBounded_first :
    (c : RetryConfig) (b : Bool) (x y : RetryQueue × Option RetryError)
    → (b ≡ true → IsBounded c x.0)
    → (b ≡ false → IsBounded c y.0)
    → IsBounded c (if b then x else y).0
if-IsBounded_first c true x y h k = h refl
if-IsBounded_first c false x y h k = k refl

-- What grows a queue, the pending tasks and the history apart.
queued-IsBounded :
    (c : RetryConfig) (q q' : RetryQueue) (id : Text)
    → IsBounded c q
    → ltb (length q.queue) q.room ≡ true
    → q'.config ≡ q.config
    → q'.room ≡ q.room
    → q'.task_history ≡ q.task_history
    → q'.queue ≡ q.queue ++ (id ∷ [])
    → IsBounded c q'
queued-IsBounded c q q' id k room e1 e2 e3 e4 =
    let len = length-append q.queue (id ∷ []) in
    let f = k.fits in
    record {
      configured = e1 ∙ k.configured;
      fits = rw (e2, e4, len) (ground arith);
      counted = subst IsMap (sym e3) k.counted;
      attempts = λ key. rw e3 (k.attempts key);
    }

push_task-IsBounded :
    (c : RetryConfig) (id : Text) (q : RetryQueue) → IsBounded c q → IsBounded c (push_task id q).0
unfolding push_task
push_task-IsBounded c id q k =
    if-IsBounded_first c (ltb (length q.queue) q.room)
      (record q { queue = q.queue ++ (id ∷ []) }, none)
      (record q { pending_tasks = without id q.pending_tasks }, some queue_is_full)
      (λ e.
        queued-IsBounded c q (record q { queue = q.queue ++ (id ∷ []) }) id k e refl refl refl refl)
      (λ e. record {
        configured = k.configured;
        fits = k.fits;
        counted = k.counted;
        attempts = k.attempts;
      })

-- Behind a change of one key of the history.
history-IsBounded :
    (c : RetryConfig) (q : RetryQueue) (tasks : Map RetryTask) (pending : List Text) (m : Map ℕ)
    → IsBounded c q
    → IsMap m
    → ((j : Text) → attempts_of j m ≤ c.max_attempts)
    → IsBounded c (record q { tasks = tasks; task_history = m; pending_tasks = pending })
history-IsBounded c q tasks pending m k u h = record {
  configured = k.configured;
  fits = k.fits;
  counted = u;
  attempts = h;
}

enqueue-IsBounded :
    (c : RetryConfig) (power : ℕ → ℕ) (now : ℕ) (id : Text) (t : Option RetryTask) (q : RetryQueue)
    → IsBounded c q
    → IsBounded c (enqueue power now id t q).0
unfolding enqueue
enqueue-IsBounded c power now id none q k = k
enqueue-IsBounded c power now id (some t) q k =
    let key = get_task_key t in
    let n = attempts_of key q.task_history in
    let tasks = insert id (started power now id t q.config) q.tasks in
    let pending = with_id id q.pending_tasks in
    let history = insert key (n + 1) q.task_history in
    let same = ap (λ (x : RetryConfig). x.max_attempts) k.configured in
    let counted = λ (e : leb q.config.max_attempts n ≡ false) (j : Text).
      attempts-insert key j (n + 1) c.max_attempts q.task_history (ground arith) (k.attempts j) in
    let held = λ (e : leb q.config.max_attempts n ≡ false).
      history-IsBounded c q tasks pending history k
        (insert-IsMap key (n + 1) q.task_history k.counted) (counted e) in
    let full = record q { tasks = tasks; task_history = history; pending_tasks = pending } in
    if-IsBounded_first c (leb q.config.max_attempts n) (q, some (max_attempts_reached n))
      (push_task id full) (λ e. k) (λ e. push_task-IsBounded c id full (held e))

failed-IsBounded :
    (c : RetryConfig) (power : ℕ → ℕ) (now : ℕ) (t : RetryTask) (q : RetryQueue)
    → IsBounded c q
    → IsBounded c (failed power now t q)
unfolding failed
failed-IsBounded c power now t q k =
    let key = get_task_key t in
    let m = delete key q.task_history in
    let gone =
      history-IsBounded c q (insert t.id (record t { attempt_count = t.attempt_count + 1 }) q.tasks)
        q.pending_tasks m k (delete-IsMap key q.task_history k.counted)
        (λ j. attempts-delete key j c.max_attempts q.task_history k.counted (k.attempts j)) in
    if-IsBounded c (leb t.max_attempts (t.attempt_count + 1)) _ _ (λ e. gone)
      (λ e. record {
        configured = k.configured;
        fits = k.fits;
        counted = k.counted;
        attempts = k.attempts;
      })

process_task-IsBounded :
    (c : RetryConfig) (power : ℕ → ℕ) (now : ℕ) (sent : Bool) (t : RetryTask) (q : RetryQueue)
    → IsBounded c q
    → IsBounded c (process_task power now sent t q)
unfolding process_task
process_task-IsBounded c power now true t q k =
    let key = get_task_key t in
    history-IsBounded c q q.tasks q.pending_tasks (delete key q.task_history) k
      (delete-IsMap key q.task_history k.counted)
      (λ j. attempts-delete key j c.max_attempts q.task_history k.counted (k.attempts j))
process_task-IsBounded c power now false t q k = failed-IsBounded c power now t q k

work_on-IsBounded :
    (c : RetryConfig) (power : ℕ → ℕ) (now : ℕ) (sent : Bool) (ids : List Text) (q : RetryQueue)
    → length ids ≤ length q.queue
    → IsBounded c q
    → IsBounded c (work_on power now sent ids q)
unfolding work_on process_found
work_on-IsBounded c power now sent [] q b k = k
work_on-IsBounded c power now sent (id ∷ rest) q b k = go (lookup id q.tasks)
  where
    left : IsBounded c (record q { queue = rest })
    left =
        let f = k.fits in
        record {
          configured = k.configured;
          fits = omega arith;
          counted = k.counted;
          attempts = k.attempts;
        }

    go :
        (o : Option RetryTask)
        → IsBounded c (process_found power now sent o (record q { queue = rest }))
    go none = left
    go (some t) = process_task-IsBounded c power now sent t (record q { queue = rest }) left

check_task-IsBounded :
    (c : RetryConfig) (now : ℕ) (id : Text) (q : RetryQueue)
    → IsBounded c q
    → IsBounded c (check_task now id q)
unfolding check_task
check_task-IsBounded c now id q k =
    let moved = record q {
      pending_tasks = without id q.pending_tasks;
      queue = q.queue ++ (id ∷ []);
    } in
    if-IsBounded c (is_due now (lookup id q.tasks))
      (if ltb (length q.queue) q.room then moved else q) q
      (λ due.
        if-IsBounded c (ltb (length q.queue) q.room) moved q
          (λ e. queued-IsBounded c q moved id k e refl refl refl refl) (λ e. k))
      (λ e. k)

check_each-IsBounded :
    (c : RetryConfig) (now : ℕ) (ids : List Text) (q : RetryQueue)
    → IsBounded c q
    → IsBounded c (check_each now ids q)
unfolding check_each
check_each-IsBounded c now [] q k = k
check_each-IsBounded c now (id ∷ ids) q k =
    check_each-IsBounded c now ids (check_task now id q) (check_task-IsBounded c now id q k)

step-IsBounded :
    (c : RetryConfig) (power : ℕ → ℕ) (e : Event) (q : RetryQueue)
    → IsBounded c q
    → IsBounded c (step power e q)
unfolding step worker check_pending_tasks
step-IsBounded c power (enqueues now id t) q k = enqueue-IsBounded c power now id t q k
step-IsBounded c power (works now sent) q k =
    work_on-IsBounded c power now sent q.queue q (omega arith) k
step-IsBounded c power (ticks now) q k = check_each-IsBounded c now q.pending_tasks q k

-- In every history of a new retry queue, whatever the callbacks' outcomes: the queue never holds more
-- tasks than it has room for, and the count of attempts of no key passes the configured maximum.
pub run-IsBounded :
    (c : RetryConfig) (power : ℕ → ℕ) (es : List Event)
    → IsBounded c (run power es (new_retry_queue c))
unfolding run
run-IsBounded c power es = from es (new_retry_queue c) (
    unfold new_retry_queue lookup attempts_of in
    record { configured = refl; fits = omega arith; counted = tt; attempts = λ key. omega arith })
  where
    from : (es : List Event) (q : RetryQueue) → IsBounded c q → IsBounded c (run power es q)
    from [] q k = k
    from (e ∷ es) q k = from es (step power e q) (step-IsBounded c power e q k)
