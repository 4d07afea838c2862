-- ===== src/Dispatcher/Workers.antt =====
-- pkg/dispatcher/dispatcher.go: the dispatcher with one queue, its handlers and the response
-- channels; processTask, findHandler and sendResponse are the same code in multi_queue.go.
-- Handlers are a parameter: OnMessage gives a response and an error that depend on the message only,
-- and it returns. Response channels are known by numbers. `select` picks any of its ready cases: the
-- choice is an argument, and the result is `none` where that case is not ready. Metrics other than
-- the bytes received are left out.
use quic_flow.Prelude.{
  ℕ, ◌+◌, ltb, ◌==◌, if◌then◌else◌, Bool, true, false, Option, none, some, List, [], ◌∷◌, ◌++◌,
  length, Outcome, returns, panics,
}
use quic_flow.Dispatcher.Config.{DispatcherConfig, with_defaults}
use quic_flow.Dispatcher.Queues.{
  DataMessage, DispatchTask, DispatchError, message_is_nil, context_done, dispatcher_is_stopped,
  Choice, send_task, see_context, see_stop,
}

pub record Dispatcher (H : Type 0) : Type 0 where
  pub handlers : ℕ → Option H
  pub default_handler : Option H
  pub worker_count : ℕ
  pub room : ℕ
  pub task_queue : List DispatchTask
  pub is_stopped : Bool
  pub received_bytes : ℕ

-- Why a task has no response: there is no handler for the type, or the handler's own error.
pub data TaskError (E : Type 0) : Type 0 where
  no_handler : ℕ → TaskError E
  handler_failed : E → TaskError E

pub record DispatchResponse (E : Type 0) : Type 0 where
  pub response : Option DataMessage
  pub error : Option (TaskError E)

-- A channel with room for `capacity` responses.
pub record Channel (E : Type 0) : Type 0 where
  pub capacity : ℕ
  pub contents : List (DispatchResponse E)
  pub is_closed : Bool

module _ {H : Type 0} where
  unfoldable pub new_dispatcher : DispatcherConfig → Option H → Dispatcher H
  new_dispatcher config default =
      let c = with_defaults config in
      record {
        handlers = λ t. none;
        default_handler = default;
        worker_count = c.worker_count;
        room = c.task_queue_size;
        task_queue = [];
        is_stopped = false;
        received_bytes = 0;
      }

  unfoldable pub register_handler : ℕ → H → Dispatcher H → Dispatcher H
  register_handler msg_type h d = record d {
    handlers = λ t. if msg_type == t then some h else d.handlers t;
  }

  unfoldable pub unregister_handler : ℕ → Dispatcher H → Dispatcher H
  unregister_handler msg_type d = record d {
    handlers = λ t. if msg_type == t then none else d.handlers t;
  }

  unfoldable pub halt : Dispatcher H → Dispatcher H
  halt d = record d { is_stopped = true }

  unfoldable pub push : DispatchTask → Dispatcher H → Dispatcher H
  push task d = record d {
    task_queue = d.task_queue ++ (task ∷ []);
    received_bytes = d.received_bytes + length task.message.payload;
  }

  unfoldable pub select_case :
      Choice → Bool → DispatchTask → Dispatcher H → Option (Dispatcher H × Option DispatchError)
  unfolding push
  select_case send_task done task d =
      if ltb (length d.task_queue) d.room then some (push task d, none) else none
  select_case see_context done task d = if done then some (d, some context_done) else none
  select_case see_stop done task d =
      if d.is_stopped then some (d, some dispatcher_is_stopped) else none

  unfoldable pub dispatch :
      Choice
      → Bool
      → Option DataMessage
      → Option ℕ
      → Dispatcher H
      → Option (Dispatcher H × Option DispatchError)
  unfolding select_case
  dispatch choice done none response_ch d = some (d, some message_is_nil)
  dispatch choice done (some m) response_ch d =
      select_case choice done (record { message = m; response_ch = response_ch }) d

  -- DispatchBatch: each message with the choice of its `select` and whether the context is done.
  pub dispatch_batch :
      List (Choice × Bool × Option DataMessage)
      → Dispatcher H
      → Option (Dispatcher H × Option DispatchError)
  unfolding dispatch
  dispatch_batch [] d = some (d, none)
  dispatch_batch ((choice, done, m) ∷ rest) d = elim (dispatch choice done m none d) [
    | none ↦ none
    | some (d', none) ↦ dispatch_batch rest d'
    | some (d', some e) ↦ some (d', some e)
  ]

  unfoldable pub find_handler : ℕ → Dispatcher H → Option H
  find_handler msg_type d = elim (d.handlers msg_type) [
    | some h ↦ some h
    | none ↦ d.default_handler
  ]

-- What DispatchSync returns once its task is queued.
pub data SyncError (E : Type 0) : Type 0 where
  task_failed : TaskError E → SyncError E
  sync_context_done : SyncError E

module _ {E : Type 0} where
  received : List (DispatchResponse E) → Option (Option DataMessage × Option (SyncError E))
  received [] = none
  received (resp ∷ _) =
      some (resp.response, elim resp.error [ none ↦ none | some e ↦ some (task_failed e) ])

  -- The `select` of DispatchSync on its own channel, which picks the response or, where `seen`, the
  -- end of the context; `none` where it waits.
  pub dispatch_sync_result : Bool → Channel E → Option (Option DataMessage × Option (SyncError E))
  unfolding received
  dispatch_sync_result true c = some (none, some sync_context_done)
  dispatch_sync_result false c = received c.contents

-- `ch[i] = c` on the channels.
abbrev pub set_channel : {E : Type 0} → ℕ → Channel E → (ℕ → Channel E) → ℕ → Channel E
set_channel i c channels j = if i == j then c else channels j

-- A send on a closed channel panics, also in a `select` with a default.
unfoldable pub send_response :
    {E : Type 0} → Option ℕ → DispatchResponse E → (ℕ → Channel E) → Outcome (ℕ → Channel E)
send_response none resp channels = returns channels
send_response (some i) resp channels =
    let c = channels i in
    if c.is_closed
    then panics
    else if ltb (length c.contents) c.capacity
    then returns (set_channel i (record c { contents = c.contents ++ (resp ∷ []) }) channels)
    else returns channels

module _ {H E : Type 0} (on_message : H → DataMessage → Option DataMessage × Option E) where
  unfoldable pub from_handler : Option DataMessage × Option E → DispatchResponse E
  from_handler (r, none) = record { response = r; error = none }
  from_handler (r, some e) = record { response = r; error = some (handler_failed e) }

  unfoldable pub answer_by : Option H → DataMessage → DispatchResponse E
  unfolding from_handler
  answer_by none m = record { response = none; error = some (no_handler m.msg_type) }
  answer_by (some h) m = from_handler (on_message h m)

  -- The response that processTask sends for a message.
  unfoldable pub answer : Dispatcher H → DataMessage → DispatchResponse E
  unfolding answer_by find_handler
  answer d m = answer_by (find_handler m.msg_type d) m

  unfoldable pub process_task :
      Dispatcher H → DispatchTask → (ℕ → Channel E) → Outcome (ℕ → Channel E)
  unfolding answer send_response
  process_task d task channels = send_response task.response_ch (answer d task.message) channels
