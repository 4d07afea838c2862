-- ===== src/Dispatcher/Batch/Answers.antt =====
-- The invariant of a call of DispatchBatchSync (pkg/dispatcher/dispatcher.go): how its beginning,
-- the dispatches and the workers that take tasks keep it.
use mathlib.Core.List.{append_assoc, append-nil}
use quic_flow.Prelude.{
  ℕ, ◌≡◌, refl, ap, sym, ◌∙◌, inl, inr, ltb, Bool, Bool-cases, true, false, Option, none, some,
  List, [], ◌∷◌, ◌++◌, length, map, arith,
}
use quic_flow.Dispatcher.Queues.{
  DataMessage, DispatchTask, Choice, send_task, see_context, see_stop,
}
use quic_flow.Dispatcher.Workers.{Dispatcher, push, select_case, dispatch, answer, find_handler}
use quic_flow.Dispatcher.Batch.Due.{pending, entry, on_channel, given, pending-append, entry-append}
use quic_flow.Dispatcher.Batch.{
  take_next, after_dispatch, submit_next, BatchCall, Event, submit, take, finish, cancel, stop,
  begin,
}

-- An event other than the end of the context or of the dispatcher.
unfoldable pub is_calm : Event → Bool
is_calm (submit _) = true
is_calm take = true
is_calm (finish _) = true
is_calm cancel = false
is_calm stop = false

module _ {H E : Type 0} (on_message : H → DataMessage → Option DataMessage × Option E) where
  -- Every channel holds its response or has it to come, once; nothing has failed.
  pub record IsAnswered (d : Dispatcher H) (ms : List DataMessage) (b : BatchCall H E)
      : Type 0 where
    pub messages : b.dispatched ++ b.left ≡ map some ms
    pub handlers : b.dispatcher.handlers ≡ d.handlers
    pub default_handler : b.dispatcher.default_handler ≡ d.default_handler
    pub in_time : b.context_done ≡ false
    pub running : b.dispatcher.is_stopped ≡ false
    pub fine : b.failed ≡ none
    pub capacity : (i : ℕ) → (b.channels i).capacity ≡ 1
    pub not_closed : (i : ℕ) → (b.channels i).is_closed ≡ false
    pub responses :
        (i : ℕ)
        → (b.channels i).contents
            ++ (pending (answer on_message d) i b.in_flight
                ++ pending (answer on_message d) i b.dispatcher.task_queue)
          ≡ entry (answer on_message d) i b.dispatched

  pub begin-IsAnswered :
      (d : Dispatcher H) (ms : List DataMessage)
      → d.task_queue ≡ []
      → d.is_stopped ≡ false
      → IsAnswered d ms (begin (map some ms) d)
  unfolding begin pending entry
  begin-IsAnswered d ms idle started = record {
    messages = refl;
    handlers = refl;
    default_handler = refl;
    in_time = refl;
    running = started;
    fine = refl;
    capacity = λ i. refl;
    not_closed = λ i. refl;
    responses = λ i. rw idle refl;
  }

  -- What a task with a channel gives to every channel.
  module _ (d : Dispatcher H) (ms : List DataMessage) where
    pub answer-same :
        (b : BatchCall H E) (m : DataMessage)
        → IsAnswered d ms b
        → answer on_message b.dispatcher m ≡ answer on_message d m
    unfolding answer find_handler
    answer-same b m k =
        let same = ap (λ f. f m.msg_type) k.handlers in
        let same2 = k.default_handler in ground arith

    pub take_next-IsAnswered :
        (b : BatchCall H E) (q : List DispatchTask)
        → IsAnswered d ms b
        → b.dispatcher.task_queue ≡ q
        → IsAnswered d ms (take_next q b)
    unfolding take_next pending
    take_next-IsAnswered b [] k e = k
    take_next-IsAnswered b (task ∷ rest) k e =
        elim (Bool-cases (ltb (length b.in_flight) b.dispatcher.worker_count)) [
          | inr full ↦ rw full k
          | inl free ↦ rw free (record {
            messages = k.messages;
            handlers = k.handlers;
            default_handler = k.default_handler;
            in_time = k.in_time;
            running = k.running;
            fine = k.fine;
            capacity = k.capacity;
            not_closed = k.not_closed;
            responses = λ i.
                let reply = answer on_message d in
                let same = k.responses i in
                let e2 = pending-append reply i b.in_flight (task ∷ []) in
                let e3 = append-nil (on_channel reply i task) in
                let e4 =
                  append_assoc (pending reply i b.in_flight) (on_channel reply i task)
                    (pending reply i rest) in
                ground arith;
          })
        ]

    push-IsAnswered :
        (b : BatchCall H E) (m : DataMessage) (rest : List (Option DataMessage))
        → IsAnswered d ms b
        → b.left ≡ some m ∷ rest
        → IsAnswered d ms (record b {
          dispatcher =
              push (record { message = m; response_ch = some (length b.dispatched) }) b.dispatcher;
          dispatched = b.dispatched ++ (some m ∷ []);
          left = rest;
        })
    unfolding push pending on_channel
    push-IsAnswered b m rest k e = record {
      messages =
          append_assoc b.dispatched (some m ∷ []) rest
          ∙ ap (λ l. b.dispatched ++ l) (sym e)
          ∙ k.messages;
      handlers = k.handlers;
      default_handler = k.default_handler;
      in_time = k.in_time;
      running = k.running;
      fine = k.fine;
      capacity = k.capacity;
      not_closed = k.not_closed;
      responses = λ i.
          let reply = answer on_message d in
          let task : DispatchTask = record {
            message = m;
            response_ch = some (length b.dispatched);
          } in
          let same = k.responses i in
          let e2 = pending-append reply i b.dispatcher.task_queue (task ∷ []) in
          let e3 = append-nil (on_channel reply i task) in
          let e4 = entry-append reply i b.dispatched m in
          let e5 =
            append_assoc (pending reply i b.in_flight) (pending reply i b.dispatcher.task_queue)
              (on_channel reply i task) in
          let e6 =
            append_assoc (b.channels i).contents
              (pending reply i b.in_flight ++ pending reply i b.dispatcher.task_queue)
              (on_channel reply i task) in
          ground arith;
    }

    offer-IsAnswered :
        (choice : Choice) (b : BatchCall H E) (m : DataMessage) (rest : List (Option DataMessage))
        → IsAnswered d ms b
        → b.left ≡ some m ∷ rest
        → IsAnswered d ms (
            after_dispatch
              (some m)
              rest
              (dispatch choice b.context_done (some m) (some (length b.dispatched)) b.dispatcher)
              b)
    unfolding dispatch select_case after_dispatch
    offer-IsAnswered send_task b m rest k e =
        elim (Bool-cases (ltb (length b.dispatcher.task_queue) b.dispatcher.room)) [
          | inr full ↦ rw full k
          | inl free ↦ rw free (push-IsAnswered b m rest k e)
        ]
    offer-IsAnswered see_context b m rest k e = simp k.in_time k
    offer-IsAnswered see_stop b m rest k e = simp k.running k

    pub submit_next-IsAnswered :
        (choice : Choice) (l : List (Option DataMessage)) (b : BatchCall H E)
        → IsAnswered d ms b
        → b.left ≡ l
        → IsAnswered d ms (submit_next choice l b)
    unfolding submit_next
    submit_next-IsAnswered choice [] b k e = k
    submit_next-IsAnswered choice (none ∷ rest) b k e =
        let (x, e2) = given b.dispatched rest none ms (rw⁻¹ e k.messages) in absurd (ground arith)
    submit_next-IsAnswered choice (some m ∷ rest) b k e = offer-IsAnswered choice b m rest k e
    -- The pending responses with one task between the others, and without it.
