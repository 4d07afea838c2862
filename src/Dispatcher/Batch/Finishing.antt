-- ===== src/Dispatcher/Batch/Finishing.antt =====
-- The invariant of DispatchBatchSync (pkg/dispatcher/dispatcher.go) for workers that finish their
-- tasks, and for every sequence of steps.
use quic_flow.Prelude.{
  pick, Parts, pick-Parts, ℕ, ◌≡◌, refl, inl, inr, ◌==◌, Bool-cases, true, false, Option, none,
  some, List, [], ◌∷◌, ◌++◌, arith, All, returns, bind_outcome,
}
use quic_flow.Dispatcher.Queues.{DataMessage, DispatchTask}
use quic_flow.Dispatcher.Workers.{
  Dispatcher, Channel, process_task, answer, send_response, set_channel,
}
use quic_flow.Dispatcher.Batch.Due.{alone, pending, entry, on_channel, pending-append, entry_short}
use quic_flow.Dispatcher.Batch.{
  take_next, submit_next, finish_task, BatchCall, Event, submit, take, finish, cancel, stop, step,
  run,
}
use quic_flow.Dispatcher.Batch.Answers.{
  is_calm, IsAnswered, answer-same, take_next-IsAnswered, submit_next-IsAnswered,
}

module _ {H E : Type 0} (on_message : H → DataMessage → Option DataMessage × Option E)
    (d : Dispatcher H) (ms : List DataMessage) where
  pending-parts :
      (i : ℕ) (a c : List DispatchTask) (task : DispatchTask)
      → let reply = answer on_message d in
        pending reply i (a ++ (task ∷ c))
        ≡ pending reply i a ++ (on_channel reply i task ++ pending reply i c)
  unfolding pending
  pending-parts i a c task = pending-append (answer on_message d) i a (task ∷ c)

  finished :
      (b : BatchCall H E) (channels : ℕ → Channel E) (rest : List DispatchTask)
      → IsAnswered on_message d ms b
      → ((i : ℕ) → (channels i).capacity ≡ 1)
      → ((i : ℕ) → (channels i).is_closed ≡ false)
      → ((i : ℕ)
          → (channels i).contents
              ++ (pending (answer on_message d) i rest
                  ++ pending (answer on_message d) i b.dispatcher.task_queue)
            ≡ entry (answer on_message d) i b.dispatched)
      → IsAnswered on_message d ms (record b { channels = channels; in_flight = rest })
  finished b channels rest k cap closed responses = record {
    messages = k.messages;
    handlers = k.handlers;
    default_handler = k.default_handler;
    in_time = k.in_time;
    running = k.running;
    fine = k.fine;
    capacity = cap;
    not_closed = closed;
    responses = responses;
  }

  unheard :
      (b : BatchCall H E) (task : DispatchTask) (rest : List DispatchTask) (i : ℕ)
      → IsAnswered on_message d ms b
      → Parts b.in_flight task rest
      → on_channel (answer on_message d) i task ≡ []
      → (b.channels i).contents
          ++ (pending (answer on_message d) i rest
              ++ pending (answer on_message d) i b.dispatcher.task_queue)
        ≡ entry (answer on_message d) i b.dispatched
  unheard b task rest i k (a, c, e, e2) off =
      let reply = answer on_message d in
      let same = k.responses i in
      let parts = pending-parts i a c task in
      let joined = pending-append reply i a c in ground arith

  heard :
      (b : BatchCall H E) (task : DispatchTask) (rest : List DispatchTask) (j : ℕ)
      → IsAnswered on_message d ms b
      → Parts b.in_flight task rest
      → on_channel (answer on_message d) j task ≡ answer on_message d task.message ∷ []
      → ((b.channels j).contents ≡ [])
        × ((answer on_message d task.message ∷ [])
              ++ (pending (answer on_message d) j rest
                  ++ pending (answer on_message d) j b.dispatcher.task_queue)
            ≡ entry (answer on_message d) j b.dispatched)
  heard b task rest j k (a, c, e, e2) on =
      let reply = answer on_message d in
      let same = k.responses j in
      let parts = pending-parts j a c task in
      let joined = pending-append reply j a c in
      let short = entry_short reply j b.dispatched in
      let (c1, c2, c3, c4) =
        alone (b.channels j).contents (pending reply j a) (pending reply j c)
          (pending reply j b.dispatcher.task_queue) (entry reply j b.dispatched)
          (reply task.message) (ground arith) short in
      (c1, ground arith)

  finish_on :
      (b : BatchCall H E) (task : DispatchTask) (rest : List DispatchTask) (ch : Option ℕ)
      → IsAnswered on_message d ms b
      → Parts b.in_flight task rest
      → task.response_ch ≡ ch
      → (channels : ℕ → Channel E) × (send_response ch (answer on_message d task.message) b.channels
          ≡ returns channels)
        × IsAnswered on_message d ms (record b { channels = channels; in_flight = rest })
  unfolding send_response on_channel
  finish_on b task rest none k parts e = (
    b.channels,
    refl,
    finished b b.channels rest k k.capacity k.not_closed
        (λ i. unheard b task rest i k parts (ground arith)),
  )
  finish_on b task rest (some j) k parts e =
      let reply = answer on_message d in
      let closed = k.not_closed j in
      let room = k.capacity j in
      let here : on_channel reply j task ≡ reply task.message ∷ [] = ground arith in
      let (empty, filled) = heard b task rest j k parts here in
      let c = b.channels j in
      let c' : Channel E = record c { contents = c.contents ++ (reply task.message ∷ []) } in
      let channels = set_channel j c' b.channels in
      (
        channels,
        ground arith,
        finished b channels rest k (λ i. let cap = k.capacity i in ground arith)
            (λ i. let open' = k.not_closed i in ground arith)
            (λ i. elim (Bool-cases (j == i)) [
              | inl same ↦ let same' : j ≡ i = ground arith in ground arith
              | inr other ↦
                  let off : on_channel reply i task ≡ [] = ground arith in
                  let old = unheard b task rest i k parts off in rw other old
            ]),
      )

  finish_task-IsAnswered :
      (b : BatchCall H E) (p : Option (DispatchTask × List DispatchTask)) (i : ℕ)
      → IsAnswered on_message d ms b
      → pick i b.in_flight ≡ p
      → (b' : BatchCall H E) × (finish_task on_message p b ≡ returns b')
        × IsAnswered on_message d ms b'
  unfolding finish_task process_task bind_outcome
  finish_task-IsAnswered b none i k e = (b, refl, k)
  finish_task-IsAnswered b (some (task, rest)) i k e =
      let parts = pick-Parts i b.in_flight task rest e in
      let (channels, e2, k2) = finish_on b task rest task.response_ch k parts refl in
      let same = answer-same on_message d ms b task.message k in
      (record b { channels = channels; in_flight = rest }, rw (same, e2) refl, k2)

  step-IsAnswered :
      (e : Event) (b : BatchCall H E)
      → is_calm e ≡ true
      → IsAnswered on_message d ms b
      → (b' : BatchCall H E) × (step on_message e b ≡ returns b') × IsAnswered on_message d ms b'
  unfolding step is_calm
  step-IsAnswered (submit choice) b c k = (
    submit_next choice b.left b,
    refl,
    submit_next-IsAnswered on_message d ms choice b.left b k refl,
  )
  step-IsAnswered take b c k = (
    take_next b.dispatcher.task_queue b,
    refl,
    take_next-IsAnswered on_message d ms b b.dispatcher.task_queue k refl,
  )
  step-IsAnswered (finish i) b c k = finish_task-IsAnswered b (pick i b.in_flight) i k refl
  step-IsAnswered cancel b c k = absurd (ground arith)
  step-IsAnswered stop b c k = absurd (ground arith)

  pub run-IsAnswered :
      (es : List Event) (b : BatchCall H E)
      → All (λ e. is_calm e ≡ true) es
      → IsAnswered on_message d ms b
      → (b' : BatchCall H E) × (run on_message es b ≡ returns b') × IsAnswered on_message d ms b'
  unfolding run bind_outcome
  run-IsAnswered [] b c k = (b, refl, k)
  run-IsAnswered (e ∷ es) b (c, cs) k =
      let (b1, e1, k1) = step-IsAnswered e b c k in
      let (b2, e2, k2) = run-IsAnswered es b1 cs k1 in (b2, rw e1 e2, k2)
