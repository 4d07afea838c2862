-- ===== src/Dispatcher/Batch/Examples.antt =====
-- Tests and examples for DispatchBatchSync of pkg/dispatcher/dispatcher.go.
use quic_flow.Prelude.{
  ℕ, ◌≡◌, refl, ◌⊎◌, ◌==◌, if◌then◌else◌, false, Option, none, some, List, [], ◌∷◌, arith, map,
  returns, panics, bind_outcome,
}
use quic_flow.Dispatcher.Queues.{DataMessage, send_task}
use quic_flow.Dispatcher.Workers.{
  Dispatcher, DispatchResponse, Channel, dispatch, process_task, answer, answer_by, from_handler,
  select_case, push, send_response, set_channel, find_handler, no_handler,
}
use quic_flow.Dispatcher.Batch.{
  BatchCall, Event, submit, take, finish, begin, step, run, collect, take_next, submit_next,
  after_dispatch, finish_task, fresh_channel, count_next, count_in, blank,
}
use quic_flow.Dispatcher.Batch.Answers.{is_calm}
use quic_flow.Dispatcher.Batch.Results.{CanCollect, run-collects, run-collects_all, run-panics}

abbrev typed : ℕ → DataMessage
typed t = record { msg_id = []; msg_type = t; payload = [] }

abbrev pair : List DataMessage
pair = typed 1 ∷ typed 2 ∷ []

-- Echoes the message.
abbrev echo : ℕ → DataMessage → Option DataMessage × Option ℕ
echo h m = (some m, none)

-- A handler for type 1 and none for others.
abbrev echoing : Dispatcher ℕ
echoing = record {
  handlers = λ t. if 1 == t then some 0 else none;
  default_handler = none;
  worker_count = 2;
  room = 2;
  task_queue = [];
  is_stopped = false;
  received_bytes = 0;
}

-- Both tasks are taken, and the second is finished first.
abbrev out_of_order : List Event
out_of_order = submit send_task ∷ submit send_task ∷ take ∷ take ∷ finish 1 ∷ finish 0 ∷ []

abbrev responded : DispatchResponse ℕ → Channel ℕ
responded r = record { capacity = 1; contents = r ∷ []; is_closed = false }

abbrev done_both : BatchCall ℕ ℕ
done_both = record {
  dispatcher = echoing;
  channels = set_channel 0 (responded (record { response = some (typed 1); error = none })) (
      set_channel 1 (responded (record { response = none; error = some (no_handler 2) }))
        (λ i. fresh_channel));
  in_flight = [];
  dispatched = some (typed 1) ∷ some (typed 2) ∷ [];
  left = [];
  context_done = false;
  failed = none;
}

both_ran : run echo out_of_order (begin (map some pair) echoing) ≡ returns done_both
unfolding run step submit_next take_next after_dispatch finish_task begin dispatch select_case push
    process_task send_response bind_outcome answer answer_by from_handler find_handler
both_ran = refl

pair_collected :
    collect none 2 0 done_both.channels
    ≡ some (
      record {
        success_count = 1;
        failed_count = 1;
        responses = some (typed 1) ∷ none ∷ [];
        errors = none ∷ some (no_handler 2) ∷ [];
      },
      false,
    )
unfolding collect count_next count_in blank
pair_collected = refl

run-collects_example :
    (b : BatchCall ℕ ℕ) × (run echo out_of_order (begin (map some pair) echoing) ≡ returns b)
    × (b.failed ≡ none)
    × ((collect none 2 0 b.channels ≡ none) ⊎ CanCollect (answer echo echoing) pair 0 b.channels)
unfolding is_calm
run-collects_example =
    run-collects echo echoing pair out_of_order refl refl
      (refl, (refl, (refl, (refl, (refl, (refl, tt))))))

run-collects_all_example : CanCollect (answer echo echoing) pair 0 done_both.channels
unfolding is_calm
run-collects_all_example =
    run-collects_all echo echoing pair out_of_order done_both refl refl
      (refl, (refl, (refl, (refl, (refl, (refl, tt)))))) both_ran refl refl refl

run-panics_example :
    run echo
      (submit send_task ∷ submit send_task ∷ take ∷ finish 0 ∷ [])
      (begin (some (typed 1) ∷ none ∷ []) echoing)
    ≡ panics
run-panics_example = run-panics echo echoing (typed 1) [] refl (omega arith) (omega arith)
