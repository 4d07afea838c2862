-- ===== src/Dispatcher/Examples.antt =====
-- Tests and examples for pkg/dispatcher.
use quic_flow.Prelude.{
  ℕ, suc, ◌<◌, ◌≡◌, refl, true, false, none, some, List, [], ◌∷◌, ◌++◌, length, keep, arith,
}
use quic_flow.Prelude.Text.{Text, text_eq}
use quic_flow.Dispatcher.Config.{
  DispatcherConfig, with_defaults, queue_count, worker_counts, workers_of,
}
use quic_flow.Dispatcher.Queues.{MultiQueueDispatcher, DataMessage, send_task, see_stop, hash_index}
use quic_flow.Dispatcher.Queues.RoundRobin.{dispatch_all, dispatch_all-even}
use quic_flow.Dispatcher.Queues.Order.{
  Event, send, spread, work, halt, History, run, begin, of_message, run-in_order,
}

abbrev small : DispatcherConfig
small = record { worker_count = 5; task_queue_size = 0 }

small_split :
    worker_counts 5 (queue_count (with_defaults small) 3) (queue_count (with_defaults small) 3) 0
    ≡ 2 ∷ 2 ∷ 1 ∷ []
unfolding worker_counts workers_of queue_count with_defaults
small_split = refl

abbrev ping : Text → DataMessage
ping id = record { msg_id = id; msg_type = 1; payload = [] }

abbrev two_pings : List DataMessage
two_pings = ping (b'a' ∷ []) ∷ ping (b'b' ∷ []) ∷ []

abbrev idle : MultiQueueDispatcher
idle = record {
  queue_count = 2;
  room = 3;
  queues = λ i. [];
  dispatch_index = 7;
  is_stopped = false;
  received_bytes = 0;
}

dispatch_all-even_example :
    (e : MultiQueueDispatcher) × (dispatch_all two_pings idle ≡ some e)
    × ((j : ℕ) → j < 2 → length (e.queues j) ≡ suc (length (idle.queues j)))
dispatch_all-even_example =
    dispatch_all-even two_pings idle (omega arith) refl (omega arith) (λ j lt. omega arith)

-- Two messages of one id, one of another by its hash and one by the round robin, a worker, a stop and a call refused after it.
abbrev traffic : List Event
traffic =
    send send_task false (ping (b'a' ∷ [])) none
    ∷ send send_task false (ping (b'b' ∷ [])) none
    ∷ spread send_task false (ping (b'c' ∷ [])) none
    ∷ send send_task true (ping (b'a' ∷ [])) (some 4)
    ∷ work (hash_index (begin small 3).dispatcher (b'a' ∷ []))
    ∷ halt
    ∷ send see_stop false (ping (b'a' ∷ [])) none
    ∷ []

abbrev final : History
final = run traffic (begin small 3)

run-in_order_example :
    keep (of_message (b'a' ∷ [])) final.queued
    ≡ keep (of_message (b'a' ∷ [])) final.taken
      ++ keep
          (of_message (b'a' ∷ []))
          (final.dispatcher.queues (hash_index final.dispatcher (b'a' ∷ [])))
unfolding text_eq
run-in_order_example =
    run-in_order small 3 traffic (b'a' ∷ []) (tt, (tt, (refl, (tt, (tt, (tt, (tt, tt)))))))
