-- ===== src/Dispatcher/Queues/Order.antt =====
-- The order of tasks that DispatchByHash of pkg/dispatcher/multi_queue.go keeps: a history of calls of
-- DispatchByHash (`send`) and of Dispatch (`spread`), of workers that take tasks, and of Stop, in any
-- order and with any choice in each `select`. A nil message is refused and changes nothing.
use mathlib.Core.List.{append_assoc, append-nil}
use quic_flow.Prelude.{
  ℕ, ◌≡◌, refl, ltb, ◌==◌, if◌then◌else◌, Bool, Bool-cases, true, false, Option, none, some, List,
  [], ◌∷◌, ◌++◌, arith, length, ap, keep, keep-append, All, ◌%◌, inl, inr,
}
use quic_flow.Prelude.Word.{add64}
use quic_flow.Prelude.Text.{Text, text_eq, text_eq_iff}
use quic_flow.Dispatcher.Config.{DispatcherConfig}
use quic_flow.Dispatcher.Queues.{
  MultiQueueDispatcher, DataMessage, DispatchTask, DispatchError, Choice, send_task, see_context,
  see_stop, context_done, dispatcher_is_stopped, offer, enqueue, dispatch, dispatch_by_hash,
  hash_index, take_task, take_from, stop, put, new_multi_queue_dispatcher,
}

pub data Event : Type 0 where
  send : Choice → Bool → DataMessage → Option ℕ → Event
  spread : Choice → Bool → DataMessage → Option ℕ → Event
  work : ℕ → Event
  halt : Event

-- The dispatcher, the tasks that calls have queued and the tasks that workers have taken.
pub record History : Type 0 where
  pub dispatcher : MultiQueueDispatcher
  pub queued : List DispatchTask
  pub taken : List DispatchTask

sending : DispatchTask → Option (MultiQueueDispatcher × Option DispatchError) → History → History
sending task none h = h
sending task (some (d, none)) h = record h { dispatcher = d; queued = h.queued ++ (task ∷ []) }
sending task (some (d, some e)) h = record h { dispatcher = d }

working : MultiQueueDispatcher × Option DispatchTask → History → History
working (d, none) h = record h { dispatcher = d }
working (d, some task) h = record h { dispatcher = d; taken = h.taken ++ (task ∷ []) }

unfoldable pub step : Event → History → History
unfolding sending working
step (send choice done m r) h =
    sending (record { message = m; response_ch = r })
      (dispatch_by_hash choice done (some m) r h.dispatcher) h
step (spread choice done m r) h =
    sending (record { message = m; response_ch = r }) (dispatch choice done (some m) r h.dispatcher)
      h
step (work i) h = working (take_task i h.dispatcher) h
step halt h = record h { dispatcher = stop h.dispatcher }

unfoldable pub run : List Event → History → History
run [] h = h
run (e ∷ es) h = run es (step e h)

unfoldable pub begin : DispatcherConfig → ℕ → History
begin config n = record {
  dispatcher = new_multi_queue_dispatcher config n;
  queued = [];
  taken = [];
}

unfoldable pub of_message : Text → DispatchTask → Bool
of_message id task = text_eq task.message.msg_id id

-- The tasks of one message id wait in one queue, behind those already taken.
record IsOrdered (id : Text) (h : History) : Type 0 where
  in_order :
      keep (of_message id) h.queued
      ≡ keep (of_message id) h.taken
        ++ keep (of_message id) (h.dispatcher.queues (hash_index h.dispatcher id))
  elsewhere :
      (j : ℕ)
      → (j == hash_index h.dispatcher id) ≡ false
      → keep (of_message id) (h.dispatcher.queues j) ≡ []

one : (DispatchTask → Bool) → DispatchTask → List DispatchTask
one f task = if f task then task ∷ [] else []

keep-put :
    (f : DispatchTask → Bool) (i j : ℕ) (task : DispatchTask) (queues : ℕ → List DispatchTask)
    → keep f (put i (queues i ++ (task ∷ [])) queues j)
      ≡ keep f (queues j) ++ (if i == j then one f task else [])
unfolding one
keep-put f i j task queues = ground (
  arith,
  keep-append f (queues i) (task ∷ []),
  append-nil (keep f (queues j)),
  append-nil (keep f (queues i)),
)

offer-IsOrdered :
    (id : Text) (i : ℕ) (task : DispatchTask) (h : History) (k : IsOrdered id h)
    → (of_message id task ≡ true → i ≡ hash_index h.dispatcher id)
    → IsOrdered id
        (record h { dispatcher = enqueue i task h.dispatcher; queued = h.queued ++ (task ∷ []) })
unfolding enqueue hash_index one
offer-IsOrdered id i task h k here = record {
  in_order =
      let f = of_message id in
      let at = hash_index h.dispatcher id in
      let e = keep-append f h.queued (task ∷ []) in
      let e2 = keep-put f i at task h.dispatcher.queues in
      let assoc = append_assoc (keep f h.taken) (keep f (h.dispatcher.queues at)) (one f task) in
      let ord = k.in_order in
      elim (Bool-cases (f task)) [
        | inl mine ↦ let same = here mine in ground arith
        | inr other ↦
            ground
              (arith, append-nil (keep f h.queued), append-nil (keep f (h.dispatcher.queues at)))
      ];
  elsewhere = λ j ne.
      let f = of_message id in
      let e2 = keep-put f i j task h.dispatcher.queues in
      let empty = k.elsewhere j ne in
      elim (Bool-cases (f task)) [
        | inl mine ↦ let same = here mine in ground arith
        | inr other ↦ ground arith
      ];
}

take_from-IsOrdered :
    (id : Text) (i : ℕ) (q : List DispatchTask) (h : History)
    → h.dispatcher.queues i ≡ q
    → IsOrdered id h
    → IsOrdered id (working (take_from q i h.dispatcher) h)
unfolding take_from working hash_index one
take_from-IsOrdered id i [] h e k = record { in_order = k.in_order; elsewhere = k.elsewhere }
take_from-IsOrdered id i (task ∷ rest) h e k = record {
  in_order =
      let f = of_message id in
      let at = hash_index h.dispatcher id in
      let e1 = keep-append f h.taken (task ∷ []) in
      let assoc = append_assoc (keep f h.taken) (one f task) (keep f rest) in
      let ord = k.in_order in
      elim (Bool-cases (i == at)) [
        | inl here ↦ ground arith
        | inr there ↦ let empty = k.elsewhere i there in ground (arith, append-nil (keep f h.taken))
      ];
  elsewhere = λ j ne. let empty = k.elsewhere j ne in ground arith;
}

take-IsOrdered : (id : Text) (i : ℕ) (h : History) → IsOrdered id h → IsOrdered id (step (work i) h)
unfolding step take_task
take-IsOrdered id i h k = take_from-IsOrdered id i (h.dispatcher.queues i) h refl k

send-IsOrdered :
    (id : Text) (i : ℕ) (task : DispatchTask) (room : Bool) (h : History) (k : IsOrdered id h)
    → (of_message id task ≡ true → i ≡ hash_index h.dispatcher id)
    → IsOrdered id
        (sending task (if room then some (enqueue i task h.dispatcher, none) else none) h)
unfolding sending
send-IsOrdered id i task true h k here = offer-IsOrdered id i task h k here
send-IsOrdered id i task false h k here = k

refused-IsOrdered :
    (id : Text) (task : DispatchTask) (e : DispatchError) (ready : Bool) (h : History)
    → IsOrdered id h
    → IsOrdered id (sending task (if ready then some (h.dispatcher, some e) else none) h)
unfolding sending
refused-IsOrdered id task e true h k = record { in_order = k.in_order; elsewhere = k.elsewhere }
refused-IsOrdered id task e false h k = k

-- The round robin: the index moves on, and the task has another message id.
spread-IsOrdered :
    (id : Text) (index i : ℕ) (task : DispatchTask) (room : Bool) (h : History)
    → IsOrdered id h
    → of_message id task ≡ false
    → IsOrdered id (
        sending task
          (if room
            then some (enqueue i task (record h.dispatcher { dispatch_index = index }), none)
            else none)
          h)
unfolding sending hash_index
spread-IsOrdered id index i task true h k other =
    offer-IsOrdered id i task
      (record h { dispatcher = record h.dispatcher { dispatch_index = index } })
      (record { in_order = k.in_order; elsewhere = k.elsewhere })
      (λ mine. absurd (cc (mine, other)))
spread-IsOrdered id index i task false h k other = k

spread_refused-IsOrdered :
    (id : Text) (index : ℕ) (task : DispatchTask) (e : DispatchError) (ready : Bool) (h : History)
    → IsOrdered id h
    → IsOrdered id (
        sending task
          (if ready then some (record h.dispatcher { dispatch_index = index }, some e) else none)
          h)
unfolding sending hash_index
spread_refused-IsOrdered id index task e true h k = record {
  in_order = k.in_order;
  elsewhere = k.elsewhere;
}
spread_refused-IsOrdered id index task e false h k = k

-- A message of the id goes by its hash, not by the round robin.
abbrev pub IsHashed : Text → Event → Type 0
IsHashed id (send choice done m r) = Unit
IsHashed id (spread choice done m r) = text_eq m.msg_id id ≡ false
IsHashed id (work i) = Unit
IsHashed id halt = Unit

step-IsOrdered :
    (id : Text) (e : Event) (h : History) → IsHashed id e → IsOrdered id h → IsOrdered id (step e h)
unfolding step sending dispatch dispatch_by_hash offer stop hash_index of_message
step-IsOrdered id (send send_task done m r) h q k =
    let i = hash_index h.dispatcher m.msg_id in
    send-IsOrdered id i (record { message = m; response_ch = r })
      (ltb (length (h.dispatcher.queues i)) h.dispatcher.room) h k
      (λ e. ap (hash_index h.dispatcher) ((text_eq_iff m.msg_id id).0 e))
step-IsOrdered id (send see_context done m r) h q k =
    refused-IsOrdered id (record { message = m; response_ch = r }) context_done done h k
step-IsOrdered id (send see_stop done m r) h q k =
    refused-IsOrdered id (record { message = m; response_ch = r }) dispatcher_is_stopped
      h.dispatcher.is_stopped h k
step-IsOrdered id (spread send_task done m r) h q k =
    let index = add64 h.dispatcher.dispatch_index 1 in
    let i = index % h.dispatcher.queue_count in
    spread-IsOrdered id index i (record { message = m; response_ch = r })
      (ltb (length (h.dispatcher.queues i)) h.dispatcher.room) h k q
step-IsOrdered id (spread see_context done m r) h q k =
    spread_refused-IsOrdered id (add64 h.dispatcher.dispatch_index 1)
      (record { message = m; response_ch = r }) context_done done h k
step-IsOrdered id (spread see_stop done m r) h q k =
    spread_refused-IsOrdered id (add64 h.dispatcher.dispatch_index 1)
      (record { message = m; response_ch = r }) dispatcher_is_stopped h.dispatcher.is_stopped h k
step-IsOrdered id (work i) h q k = take-IsOrdered id i h k
step-IsOrdered id halt h q k = record { in_order = k.in_order; elsewhere = k.elsewhere }

run-IsOrdered :
    (id : Text) (es : List Event) (h : History)
    → All (IsHashed id) es
    → IsOrdered id h
    → IsOrdered id (run es h)
unfolding run
run-IsOrdered id [] h q k = k
run-IsOrdered id (e ∷ es) h (q, qs) k =
    run-IsOrdered id es (step e h) qs (step-IsOrdered id e h q k)

begin-IsOrdered : (config : DispatcherConfig) (n : ℕ) (id : Text) → IsOrdered id (begin config n)
unfolding begin new_multi_queue_dispatcher
begin-IsOrdered config n id = record { in_order = refl; elsewhere = λ j ne. refl }

-- In every history of a new dispatcher in which messages of an id are sent by DispatchByHash only,
-- and others by either way, the queued tasks of the id are, in the order in which they were queued,
-- first those that the workers have taken, in the order of the taking, and then those that wait in the
-- queue of the id's hash.
pub run-in_order :
    (config : DispatcherConfig) (n : ℕ) (es : List Event) (id : Text)
    → All (IsHashed id) es
    → keep (of_message id) (run es (begin config n)).queued
      ≡ keep (of_message id) (run es (begin config n)).taken
        ++ keep (of_message id) (
            (run es (begin config n)).dispatcher.queues
              (hash_index (run es (begin config n)).dispatcher id))
run-in_order config n es id hashed =
    (run-IsOrdered id es (begin config n) hashed (begin-IsOrdered config n id)).in_order
