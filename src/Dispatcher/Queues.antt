-- ===== src/Dispatcher/Queues.antt =====
-- pkg/dispatcher/multi_queue.go: the queues of MultiQueueDispatcher.
-- A message is what the code reads of protocol.DataMessage; `none` is a nil message. A task's
-- response channel is known by a number. The array of queues is a function of the index, which is
-- always taken modulo the queue count. `select` picks any of its ready cases: the choice is an
-- argument, and the result is `none` where that case is not ready, so that the call waits.
-- dispatchIndex is a uint64.
pub mod Order
pub mod RoundRobin
use quic_flow.Prelude.{
  ℕ, zero, suc, ◌+◌, ◌%◌, ltb, ◌==◌, if◌then◌else◌, Bool, true, false, Option, none, some, List, [],
  ◌∷◌, ◌++◌, length,
}
use quic_flow.Prelude.Word.{add64}
use quic_flow.Prelude.Text.{Text}
use quic_flow.Hash.{fnv_hash}
use quic_flow.Dispatcher.Config.{DispatcherConfig, with_defaults, queue_count, queue_room}

pub record DataMessage : Type 0 where
  pub msg_id : Text
  pub msg_type : ℕ
  pub payload : Text

pub record DispatchTask : Type 0 where
  pub message : DataMessage
  pub response_ch : Option ℕ

pub record MultiQueueDispatcher : Type 0 where
  pub queue_count : ℕ
  pub room : ℕ
  pub queues : ℕ → List DispatchTask
  pub dispatch_index : ℕ
  pub is_stopped : Bool
  pub received_bytes : ℕ

pub data DispatchError : Type 0 where
  message_is_nil context_done dispatcher_is_stopped : DispatchError

-- The cases of the `select` of Dispatch.
pub data Choice : Type 0 where
  send_task see_context see_stop : Choice

unfoldable pub new_multi_queue_dispatcher : DispatcherConfig → ℕ → MultiQueueDispatcher
new_multi_queue_dispatcher config n =
    let c = with_defaults config in
    let queues = queue_count c n in
    record {
      queue_count = queues;
      room = queue_room c queues;
      queues = λ i. [];
      dispatch_index = 0;
      is_stopped = false;
      received_bytes = 0;
    }

unfoldable pub stop : MultiQueueDispatcher → MultiQueueDispatcher
stop d = record d { is_stopped = true }

-- queues[i] = q.
abbrev pub put : ℕ → List DispatchTask → (ℕ → List DispatchTask) → ℕ → List DispatchTask
put i q queues j = if i == j then q else queues j

enqueue : ℕ → DispatchTask → MultiQueueDispatcher → MultiQueueDispatcher
enqueue i task d = record d {
  queues = put i (d.queues i ++ (task ∷ [])) d.queues;
  received_bytes = d.received_bytes + length task.message.payload;
}

-- The `select` that both ways of dispatching end with.
unfoldable pub offer :
    Choice
    → Bool
    → ℕ
    → DispatchTask
    → MultiQueueDispatcher
    → Option (MultiQueueDispatcher × Option DispatchError)
unfolding enqueue
offer send_task done i task d =
    if ltb (length (d.queues i)) d.room then some (enqueue i task d, none) else none
offer see_context done i task d = if done then some (d, some context_done) else none
offer see_stop done i task d = if d.is_stopped then some (d, some dispatcher_is_stopped) else none

-- Round robin. The index moves on also when the message is then not queued.
unfoldable pub dispatch :
    Choice
    → Bool
    → Option DataMessage
    → Option ℕ
    → MultiQueueDispatcher
    → Option (MultiQueueDispatcher × Option DispatchError)
unfolding offer
dispatch choice done none response_ch d = some (d, some message_is_nil)
dispatch choice done (some m) response_ch d =
    let index = add64 d.dispatch_index 1 in
    offer choice done (index % d.queue_count) (record { message = m; response_ch = response_ch })
      (record d { dispatch_index = index })

-- The queue of a message id.
unfoldable pub hash_index : MultiQueueDispatcher → Text → ℕ
hash_index d id = fnv_hash id % d.queue_count

unfoldable pub dispatch_by_hash :
    Choice
    → Bool
    → Option DataMessage
    → Option ℕ
    → MultiQueueDispatcher
    → Option (MultiQueueDispatcher × Option DispatchError)
unfolding offer hash_index
dispatch_by_hash choice done none response_ch d = some (d, some message_is_nil)
dispatch_by_hash choice done (some m) response_ch d =
    offer choice done (hash_index d m.msg_id) (record { message = m; response_ch = response_ch }) d

-- A worker of queue `i` takes a task, and waits where there is none.
take_from :
    List DispatchTask → ℕ → MultiQueueDispatcher → MultiQueueDispatcher × Option DispatchTask
take_from [] i d = (d, none)
take_from (task ∷ rest) i d = (record d { queues = put i rest d.queues }, some task)

unfoldable pub take_task : ℕ → MultiQueueDispatcher → MultiQueueDispatcher × Option DispatchTask
unfolding take_from
take_task i d = take_from (d.queues i) i d

-- GetQueueLengths, for the first `k` queues from index `i` on, and GetTotalQueueLength.
unfoldable pub queue_lengths : ℕ → ℕ → MultiQueueDispatcher → List ℕ
queue_lengths zero i d = []
queue_lengths (suc k) i d = length (d.queues i) ∷ queue_lengths k (suc i) d
