-- ===== src/Dispatcher/Batch.antt =====
-- DispatchBatchSync of pkg/dispatcher/dispatcher.go, with the workers that run beside it.
-- The goroutines are steps in any order: the caller dispatches its next message, a worker takes the
-- task at the front of the queue, a worker that has a task finishes it, the caller's context is
-- done, the dispatcher is stopped. The response channel of message `i` has the number `i`.
pub mod Due
pub mod Answers
pub mod Finishing
pub mod Results
mod Examples
use quic_flow.Prelude.{
  pick, in_front, ℕ, zero, suc, ◌+◌, ltb, ◌==◌, ◌||◌, if◌then◌else◌, Bool, true, false, Option,
  none, some, List, [], ◌∷◌, ◌++◌, length, map, Outcome, returns, panics, bind_outcome,
}
use quic_flow.Dispatcher.Queues.{DataMessage, DispatchTask, DispatchError, Choice}
use quic_flow.Dispatcher.Workers.{
  Dispatcher, TaskError, DispatchResponse, Channel, dispatch, halt, process_task,
}

-- A call of DispatchBatchSync: the messages dispatched and those to come, the error it fails with.
pub record BatchCall (H E : Type 0) : Type 0 where
  pub dispatcher : Dispatcher H
  pub channels : ℕ → Channel E
  pub in_flight : List DispatchTask
  pub dispatched : List (Option DataMessage)
  pub left : List (Option DataMessage)
  pub context_done : Bool
  pub failed : Option DispatchError

pub data Event : Type 0 where
  submit : Choice → Event
  take : Event
  finish : ℕ → Event
  cancel : Event
  stop : Event

abbrev pub fresh_channel : {E : Type 0} → Channel E
fresh_channel = record { capacity = 1; contents = []; is_closed = false }

unfoldable pub begin : {H E : Type 0} → List (Option DataMessage) → Dispatcher H → BatchCall H E
begin msgs d = record {
  dispatcher = d;
  channels = λ i. fresh_channel;
  in_flight = [];
  dispatched = [];
  left = msgs;
  context_done = false;
  failed = none;
}

-- `for j := 0; j < n; j++ { close(responseChs[j]) }`.
unfoldable pub close_below : {E : Type 0} → ℕ → (ℕ → Channel E) → ℕ → Channel E
close_below n channels j = if ltb j n then record (channels j) { is_closed = true } else channels j

module _ {H E : Type 0} where
  unfoldable pub after_dispatch :
      Option DataMessage
      → List (Option DataMessage)
      → Option (Dispatcher H × Option DispatchError)
      → BatchCall H E
      → BatchCall H E
  unfolding close_below
  after_dispatch m rest none b = b
  after_dispatch m rest (some (d, none)) b = record b {
    dispatcher = d;
    dispatched = b.dispatched ++ (m ∷ []);
    left = rest;
  }
  after_dispatch m rest (some (d, some e)) b = record b {
    dispatcher = d;
    channels = close_below (length b.dispatched) b.channels;
    left = [];
    failed = some e;
  }

  unfoldable pub submit_next : Choice → List (Option DataMessage) → BatchCall H E → BatchCall H E
  unfolding after_dispatch dispatch
  submit_next choice [] b = b
  submit_next choice (m ∷ rest) b =
      after_dispatch m rest
        (dispatch choice b.context_done m (some (length b.dispatched)) b.dispatcher) b

  unfoldable pub take_next : List DispatchTask → BatchCall H E → BatchCall H E
  take_next [] b = b
  take_next (task ∷ rest) b =
      if ltb (length b.in_flight) b.dispatcher.worker_count
      then record b {
        dispatcher = record b.dispatcher { task_queue = rest };
        in_flight = b.in_flight ++ (task ∷ []);
      }
      else b

module _ {H E : Type 0} (on_message : H → DataMessage → Option DataMessage × Option E) where
  unfoldable pub finish_task :
      Option (DispatchTask × List DispatchTask) → BatchCall H E → Outcome (BatchCall H E)
  unfolding process_task bind_outcome
  finish_task none b = returns b
  finish_task (some (task, rest)) b =
      bind_outcome (process_task on_message b.dispatcher task b.channels)
        (λ channels. returns (record b { channels = channels; in_flight = rest }))

  unfoldable pub step : Event → BatchCall H E → Outcome (BatchCall H E)
  unfolding submit_next take_next finish_task halt
  step (submit choice) b = returns (submit_next choice b.left b)
  step take b = returns (take_next b.dispatcher.task_queue b)
  step (finish k) b = finish_task (pick k b.in_flight) b
  step cancel b = returns (record b { context_done = true })
  step stop b = returns (record b { dispatcher = halt b.dispatcher })

  unfoldable pub run : List Event → BatchCall H E → Outcome (BatchCall H E)
  unfolding step bind_outcome
  run [] b = returns b
  run (e ∷ es) b = bind_outcome (step e b) (run es)

pub record BatchDispatchResult (E : Type 0) : Type 0 where
  pub success_count : ℕ
  pub failed_count : ℕ
  pub responses : List (Option DataMessage)
  pub errors : List (Option (TaskError E))

module _ {E : Type 0} where
  -- The result where the entries from here on are not filled.
  unfoldable pub blank : ℕ → BatchDispatchResult E
  blank zero = record { success_count = 0; failed_count = 0; responses = []; errors = [] }
  blank (suc k) =
      let r = blank k in record r { responses = none ∷ r.responses; errors = none ∷ r.errors }

  -- The response of one channel at the front of those of the rest.
  unfoldable pub count_in : DispatchResponse E → BatchDispatchResult E → BatchDispatchResult E
  count_in resp r = elim resp.error [
    | some e ↦ record r {
      failed_count = r.failed_count + 1;
      responses = none ∷ r.responses;
      errors = some e ∷ r.errors;
    }
    | none ↦ record r {
      success_count = r.success_count + 1;
      responses = resp.response ∷ r.responses;
      errors = none ∷ r.errors;
    }
  ]

  unfoldable pub count_next :
      List (DispatchResponse E)
      → Option (BatchDispatchResult E × Bool)
      → Option (BatchDispatchResult E × Bool)
  unfolding count_in
  count_next [] rest = none
  count_next (resp ∷ _) none = none
  count_next (resp ∷ _) (some (r, done)) = some (count_in resp r, done)

  -- Collecting the responses of `k` channels from `i` on. At index `seen` the caller's `select` sees
  -- that the context is done. The result is `none` where the caller still waits; the Boolean says
  -- whether it comes with the context's error.
  unfoldable pub collect :
      Option ℕ → ℕ → ℕ → (ℕ → Channel E) → Option (BatchDispatchResult E × Bool)
  unfolding count_next blank
  collect seen zero i channels = some (blank 0, false)
  collect seen (suc k) i channels =
      let rest = collect seen k (suc i) channels in
      if (elim seen [ none ↦ false | some at ↦ at == i ])
      then some (blank (suc k), true)
      else count_next (channels i).contents rest
