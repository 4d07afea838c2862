-- ===== src/Dispatcher/Batch/Results.antt =====
-- What DispatchBatchSync of pkg/dispatcher/dispatcher.go returns: for every order of its steps, and
-- when a dispatch fails.
use mathlib.Core.List.{append-nil}
use mathlib.Core.Path.{subst}
use quic_flow.Prelude.{
  Bool, if◌then◌else◌, keep, not, ℕ, zero, suc, ◌+◌, ◌<◌, ◌≡◌, refl, ap, sym, ◌∙◌, ◌⊎◌, inl, inr,
  true, false, Option, none, some, List, [], ◌∷◌, ◌++◌, length, map, arith, All, returns, panics,
  bind_outcome,
}
use quic_flow.Dispatcher.Queues.{DataMessage, send_task}
use quic_flow.Dispatcher.Workers.{
  TaskError, Dispatcher, DispatchResponse, Channel, dispatch, process_task, answer, select_case,
  push, send_response,
}
use quic_flow.Dispatcher.Batch.{
  BatchDispatchResult, count_in, BatchCall, Event, submit, take, finish, begin, step, run, collect,
  count_next, take_next, submit_next, after_dispatch, finish_task, close_below,
}
use quic_flow.Dispatcher.Batch.Due.{entry, entry_short, front, pending, due}
use quic_flow.Dispatcher.Batch.Answers.{is_calm, IsAnswered, begin-IsAnswered}
use quic_flow.Dispatcher.Batch.Finishing.{run-IsAnswered}

-- Whether a message has been handled without an error.
unfoldable pub is_handled : {E : Type 0} → DispatchResponse E → Bool
is_handled r = elim r.error [ none ↦ true | some _ ↦ false ]

-- The result that the responses of all messages make.
unfoldable pub summary : {E : Type 0} → List (DispatchResponse E) → BatchDispatchResult E
unfolding is_handled
summary rs = record {
  success_count = length (keep is_handled rs);
  failed_count = length (keep (λ r. not (is_handled r)) rs);
  responses = map (λ r. if is_handled r then r.response else none) rs;
  errors = map (λ r. r.error) rs;
}

count_in-summary :
    {E : Type 0} (r : DispatchResponse E) (e : Option (TaskError E))
    (rs : List (DispatchResponse E))
    → r.error ≡ e
    → count_in r (summary rs) ≡ summary (r ∷ rs)
unfolding count_in summary is_handled
count_in-summary r none rs e = ground arith
count_in-summary r (some x) rs e = ground arith

returned : {A : Type 0} {a b : A} → returns a ≡ returns b → a ≡ b
returned e = ground arith

module _ {E : Type 0} (reply : DataMessage → DispatchResponse E) where
  -- A channel that holds a response holds the one that is due.
  entry-front :
      (i : ℕ) (ms left : List (Option DataMessage))
      → (entry reply i ms ≡ []) ⊎ (entry reply i ms ≡ entry reply i (ms ++ left))
  unfolding entry
  entry-front i [] left = inl refl
  entry-front zero (m ∷ ms) left = inr refl
  entry-front (suc i) (m ∷ ms) left = entry-front i ms left

  -- The caller can collect all the responses that are due.
  abbrev pub CanCollect : List DataMessage → ℕ → (ℕ → Channel E) → Type 0
  CanCollect ms i channels =
      collect none (length ms) i channels ≡ some (summary (map reply ms), false)

  collect-all :
      (ms : List DataMessage) (i : ℕ) (channels : ℕ → Channel E)
      → ((k : ℕ) → (channels (i + k)).contents ≡ entry reply k (map some ms))
      → CanCollect ms i channels
  unfolding collect count_next summary entry due
  collect-all [] i channels full = refl
  collect-all (m ∷ ms) i channels full =
      let first : (channels i).contents ≡ reply m ∷ [] =
        ap (λ n. (channels n).contents) (omega arith) ∙ full 0 in
      let rest =
        collect-all ms (suc i) channels
          (λ k. ap (λ n. (channels n).contents) (omega arith) ∙ full (suc k)) in
      let counted = count_in-summary (reply m) (reply m).error (map reply ms) refl in
      rw (first, rest) (ap (λ r. some (r, false)) counted)

  collect-some :
      (ms : List DataMessage) (i : ℕ) (channels : ℕ → Channel E)
      → ((k : ℕ)
          → ((channels (i + k)).contents ≡ [])
            ⊎ ((channels (i + k)).contents ≡ entry reply k (map some ms)))
      → (collect none (length ms) i channels ≡ none) ⊎ CanCollect ms i channels
  unfolding collect count_next summary entry due
  collect-some [] i channels full = inr refl
  collect-some (m ∷ ms) i channels full =
      let same : i ≡ i + 0 = omega arith in
      let rest =
        collect-some ms (suc i) channels
          (λ k. let next : suc i + k ≡ i + suc k = omega arith in rw next (full (suc k))) in
      elim (full 0) [
        | inl empty ↦
            let first : (channels i).contents ≡ [] = ap (λ n. (channels n).contents) same ∙ empty in
            inl (rw first refl)
        | inr filled ↦
            let first : (channels i).contents ≡ reply m ∷ [] =
              ap (λ n. (channels n).contents) same ∙ filled in
            elim rest [
              | inl waits ↦ inl (rw (first, waits) refl)
              | inr done ↦
                  let counted = count_in-summary (reply m) (reply m).error (map reply ms) refl in
                  inr (rw (first, done) (ap (λ r. some (r, false)) counted))
            ]
      ]

module _ {H E : Type 0} (on_message : H → DataMessage → Option DataMessage × Option E) where
  -- Let the dispatcher be idle and the messages not be nil. Whatever the order of the steps, while
  -- neither the context ends nor the dispatcher stops, no worker panics, no dispatch fails, and the
  -- caller either still waits or collects, at the index of each message, what its handler answered.
  pub run-collects :
      (d : Dispatcher H) (ms : List DataMessage) (es : List Event)
      → d.task_queue ≡ []
      → d.is_stopped ≡ false
      → All (λ e. is_calm e ≡ true) es
      → (b : BatchCall H E) × (run on_message es (begin (map some ms) d) ≡ returns b)
        × (b.failed ≡ none)
        × ((collect none (length ms) 0 b.channels ≡ none)
            ⊎ CanCollect (answer on_message d) ms 0 b.channels)
  run-collects d ms es idle started calm =
      let reply = answer on_message d in
      let (b, e, k) =
        run-IsAnswered on_message d ms es (begin (map some ms) d) calm
          (begin-IsAnswered on_message d ms idle started) in
      (
        b,
        e,
        k.fine,
        collect-some reply ms 0 b.channels (λ i.
            let same : 0 + i ≡ i = omega arith in
            let waiting = pending reply i b.in_flight ++ pending reply i b.dispatcher.task_queue in
            let messages = k.messages in
            rw same
              (elim (front (b.channels i).contents waiting (entry reply i b.dispatched)
                (k.responses i) (entry_short reply i b.dispatched)) [
                  | inl empty ↦ inl empty
                  | inr filled ↦ elim (entry-front reply i b.dispatched b.left) [
                    | inl empty ↦ inl (filled ∙ empty)
                    | inr due_now ↦ inr (filled ∙ due_now ∙ ap (entry reply i) messages)
                  ]
                ])),
      )

  -- Once all messages are dispatched and no task waits or is with a worker, the caller collects.
  pub run-collects_all :
      (d : Dispatcher H) (ms : List DataMessage) (es : List Event) (b : BatchCall H E)
      → d.task_queue ≡ []
      → d.is_stopped ≡ false
      → All (λ e. is_calm e ≡ true) es
      → run on_message es (begin (map some ms) d) ≡ returns b
      → b.left ≡ []
      → b.in_flight ≡ []
      → b.dispatcher.task_queue ≡ []
      → CanCollect (answer on_message d) ms 0 b.channels
  unfolding pending
  run-collects_all d ms es b idle started calm ran none_left none_working none_queued =
      let reply = answer on_message d in
      let (b', e, k') =
        run-IsAnswered on_message d ms es (begin (map some ms) d) calm
          (begin-IsAnswered on_message d ms idle started) in
      let same : b' ≡ b = returned (sym e ∙ ran) in
      let k : IsAnswered on_message d ms b = subst (IsAnswered on_message d ms) same k' in
      collect-all reply ms 0 b.channels (λ i.
        let messages = k.messages in
        let responses = k.responses i in
        let bare = append-nil (b.channels i).contents in
        let bare2 = append-nil b.dispatched in
        let shift : 0 + i ≡ i = omega arith in
        let sent : b.dispatched ≡ map some ms = ground arith in
        let filled : (b.channels i).contents ≡ entry reply i b.dispatched = ground arith in
        rw shift (filled ∙ ap (entry reply i) sent))

  -- A message dispatched before a nil message: DispatchBatchSync fails and closes the channel whose
  -- task is still queued, and the worker that answers it sends on the closed channel and panics.
  pub run-panics :
      (d : Dispatcher H) (m : DataMessage) (rest : List (Option DataMessage))
      → d.task_queue ≡ []
      → 0 < d.room
      → 0 < d.worker_count
      → run on_message
          (submit send_task ∷ submit send_task ∷ take ∷ finish 0 ∷ [])
          (begin (some m ∷ none ∷ rest) d)
        ≡ panics
  unfolding run step submit_next take_next after_dispatch finish_task begin dispatch select_case
      push process_task send_response close_below bind_outcome
  run-panics d m rest idle room workers = ground arith
