-- ===== src/Callback/Manager/Counter.antt =====
-- The promise counter of pkg/callback/manager.go over any history of the manager.
use native.Mathlib.Nat.{zero-add, add-zero, add_assoc}
use quic_flow.Prelude.{
  ℕ, ◌+◌, ◌≤◌, ◌<◌, ◌≡◌, if◌then◌else◌, Bool, true, false, List, [], ◌∷◌, length, arith, ◌==◌,
  Bool-cases, Option-cases, inl, inr,
}
use quic_flow.Prelude.Word.{i64_neg, i64_leb, i64_leb_lem}
use quic_flow.Prelude.Text.{Text}
use quic_flow.Prelude.Map.{
  lookup, modify, IsMap, present, length-insert, length-delete, length-modify, insert-IsMap,
  delete-IsMap, modify-IsMap,
}
use quic_flow.Callback.Promise.{Promise, new_promise, CallbackError, given, complete, fail, timeout}
use quic_flow.Callback.Manager.{
  Result, ok, err, PromiseManager, new_promise_manager, create, remove, remove_all, delay_remove,
  complete_promise, complete_by_id, fail_promise, fail_by_id, on_timeout, timer_timeout,
  receive_item, tick_removals, completed_ids, cleanup, store,
}
use quic_flow.Callback.Manager.Removals.{due_ids, tick_removals-keep}

-- The counter is the number of promises and `drift` more, and stays within the capacity.
pub record IsCounted (drift : ℕ) (pm : PromiseManager) : Type 0 where
  pub unique : IsMap pm.promises
  pub counted : pm.count ≡ length pm.promises + drift
  pub bounded : pm.count ≤ pm.max_capacity
  pub small : pm.max_capacity < i64_neg

-- How much a call of `Create` adds to the drift: 1 if it displaces a promise with the same id.
abbrev pub displaced : Text → PromiseManager → ℕ
displaced msg_id pm =
    if i64_leb pm.max_capacity pm.count then 0 else present (lookup msg_id pm.promises)

abbrev pub created_or : PromiseManager → Result (PromiseManager × Promise) → PromiseManager
created_or pm (ok (pm', p)) = pm'
created_or pm (err e) = pm

abbrev ok_or : PromiseManager → Result PromiseManager → PromiseManager
ok_or pm (ok pm') = pm'
ok_or pm (err e) = pm

create-IsCounted :
    (d : ℕ) (msg_id : Text) (patience now : ℕ) (pm : PromiseManager)
    → IsCounted d pm
    → IsCounted (displaced msg_id pm + d) (created_or pm (create msg_id patience now pm))
unfolding create
create-IsCounted d msg_id patience now pm v =
    let effective = if patience == 0 then pm.default_timeout else patience in
    let promise = new_promise msg_id effective now in
    elim (Bool-cases (i64_leb pm.max_capacity pm.count)) [
      | inl full ↦ rw full (ground (arith, v))
      | inr room ↦
          let order = i64_leb_lem pm.max_capacity pm.count v.small (omega arith) in
          rw room (record {
            unique = insert-IsMap msg_id promise pm.promises v.unique;
            counted = ground (arith, order, length-insert msg_id promise pm.promises);
            bounded = ground (arith, order);
            small = v.small;
          })
    ]

remove-IsCounted :
    (d : ℕ) (msg_id : Text) (pm : PromiseManager) → IsCounted d pm → IsCounted d (remove msg_id pm)
unfolding remove
remove-IsCounted d msg_id pm v =
    ground (arith, length-delete msg_id pm.promises, delete-IsMap msg_id pm.promises)

delay_remove-IsCounted :
    (d : ℕ) (msg_id : Text) (now : ℕ) (pm : PromiseManager)
    → IsCounted d pm
    → IsCounted d (delay_remove msg_id now pm)
unfolding delay_remove
delay_remove-IsCounted d msg_id now pm v = ground (arith, remove-IsCounted d msg_id pm v)

store-IsCounted :
    (d : ℕ) (msg_id : Text) (f : Promise → Promise) (pm : PromiseManager)
    → IsCounted d pm
    → IsCounted d (record pm { promises = modify msg_id f pm.promises })
store-IsCounted d msg_id f pm v =
    ground (arith, modify-IsMap msg_id f pm.promises, length-modify msg_id f pm.promises)

remove_all-IsCounted :
    (d : ℕ) (ids : List Text) (pm : PromiseManager)
    → IsCounted d pm
    → IsCounted d (remove_all ids pm)
unfolding remove_all
remove_all-IsCounted d [] pm v = v
remove_all-IsCounted d (id ∷ ids) pm v =
    remove_all-IsCounted d ids (remove id pm) (remove-IsCounted d id pm v)

complete_promise-IsCounted :
    (d : ℕ) (msg_id : Text) (now : ℕ) (r : Promise × Bool) (pm : PromiseManager)
    → IsCounted d pm
    → IsCounted d (ok_or pm (complete_promise msg_id now r pm))
unfolding complete_promise
complete_promise-IsCounted d msg_id now (p, false) pm v = v
complete_promise-IsCounted d msg_id now (p, true) pm v =
    let pm' = store msg_id p pm in
    delay_remove-IsCounted d msg_id now (record pm' { completed = pm.completed + 1 })
      (ground (arith, store-IsCounted d msg_id (λ _. p) pm v))

fail_promise-IsCounted :
    (d : ℕ) (msg_id : Text) (now : ℕ) (r : Promise × Bool) (pm : PromiseManager)
    → IsCounted d pm
    → IsCounted d (ok_or pm (fail_promise msg_id now r pm))
unfolding fail_promise
fail_promise-IsCounted d msg_id now (p, false) pm v = v
fail_promise-IsCounted d msg_id now (p, true) pm v =
    delay_remove-IsCounted d msg_id now (store msg_id p pm) (store-IsCounted d msg_id (λ _. p) pm v)

complete_by_id-IsCounted :
    (d : ℕ) (msg_id : Text) (ack now : ℕ) (pm : PromiseManager)
    → IsCounted d pm
    → IsCounted d (ok_or pm (complete_by_id msg_id ack now pm))
unfolding complete_by_id
complete_by_id-IsCounted d msg_id ack now pm v = elim (Option-cases (lookup msg_id pm.promises)) [
  | inl e ↦ rw (e, complete_by_id) v
  | inr (p, e) ↦
      rw (e, complete_by_id) (complete_promise-IsCounted d msg_id now (complete ack p) pm v)
]

fail_by_id-IsCounted :
    (d : ℕ) (msg_id : Text) (e : CallbackError) (now : ℕ) (pm : PromiseManager)
    → IsCounted d pm
    → IsCounted d (ok_or pm (fail_by_id msg_id e now pm))
unfolding fail_by_id
fail_by_id-IsCounted d msg_id x now pm v = elim (Option-cases (lookup msg_id pm.promises)) [
  | inl e ↦ rw (e, fail_by_id) v
  | inr (p, e) ↦ rw (e, fail_by_id) (fail_promise-IsCounted d msg_id now (fail x p) pm v)
]

-- What the manager's clients, timers and goroutines do, in any order. A timer calls `on_timeout`
-- also for a promise that the map no longer holds; `expires` says whether the map holds the timer's
-- promise.
pub data Call : Type 0 where
  creates : Text → ℕ → ℕ → Call
  completes fails : Text → ℕ → ℕ → Call
  removes : Text → Call
  fires : Text → ℕ → Call
  expires : Bool → Text → Call
  receives cleans : Call
  ticks : ℕ → Call

unfoldable pub step : Call → PromiseManager → PromiseManager
unfolding create
step (creates id patience now) pm = created_or pm (create id patience now pm)
step (completes id ack now) pm = ok_or pm (complete_by_id id ack now pm)
step (fails id e now) pm = ok_or pm (fail_by_id id (given e) now pm)
step (removes id) pm = remove id pm
step (fires id now) pm = on_timeout id now pm
step (expires held id) pm = timer_timeout held id pm
step receives pm = receive_item pm
step cleans pm = cleanup pm
step (ticks now) pm = tick_removals now pm

pub run : List Call → PromiseManager → PromiseManager
run [] pm = pm
run (c ∷ cs) pm = run cs (step c pm)

-- The promises that the calls displace.
abbrev step_drift : Call → PromiseManager → ℕ
step_drift (creates id patience now) pm = displaced id pm
step_drift c pm = 0

unfoldable pub drift : List Call → PromiseManager → ℕ
unfolding step
drift [] pm = 0
drift (c ∷ cs) pm = drift cs (step c pm) + step_drift c pm

step-IsCounted :
    (d : ℕ) (c : Call) (pm : PromiseManager)
    → IsCounted d pm
    → IsCounted (step_drift c pm + d) (step c pm)
unfolding step on_timeout timer_timeout receive_item cleanup
step-IsCounted d (creates id patience now) pm v = create-IsCounted d id patience now pm v
step-IsCounted d (completes id ack now) pm v =
    rw zero-add (complete_by_id-IsCounted d id ack now pm v)
step-IsCounted d (fails id e now) pm v = rw zero-add (fail_by_id-IsCounted d id (given e) now pm v)
step-IsCounted d (removes id) pm v = rw zero-add (remove-IsCounted d id pm v)
step-IsCounted d (fires id now) pm v =
    rw zero-add (delay_remove-IsCounted d id now _ (ground (arith, v)))
step-IsCounted d (expires false id) pm v = rw zero-add v
step-IsCounted d (expires true id) pm v =
    rw zero-add (store-IsCounted d id (λ p. (timeout p).0) pm v)
step-IsCounted d receives pm v = rw zero-add (ground (arith, v))
step-IsCounted d cleans pm v = rw zero-add (remove_all-IsCounted d (completed_ids pm.promises) pm v)
step-IsCounted d (ticks now) pm v =
    rw (zero-add, tick_removals-keep now pm)
      (ground (arith, remove_all-IsCounted d (due_ids now pm.pending) pm v))

run-IsCounted_from :
    (d : ℕ) (cs : List Call) (pm : PromiseManager)
    → IsCounted d pm
    → IsCounted (drift cs pm + d) (run cs pm)
unfolding run drift
run-IsCounted_from d [] pm v = rw zero-add v
run-IsCounted_from d (c ∷ cs) pm v =
    rw (add_assoc)
      (run-IsCounted_from (step_drift c pm + d) cs (step c pm) (step-IsCounted d c pm v))

-- After any history of a new manager the counter never passes the capacity, and exceeds the number
-- of registered promises by exactly the number of `Create` calls that displaced a promise with the
-- same id.
pub run-IsCounted :
    (cs : List Call) (max patience : ℕ) (hooks : Bool)
    → max < i64_neg
    → let pm = new_promise_manager max patience hooks in IsCounted (drift cs pm) (run cs pm)
unfolding new_promise_manager
run-IsCounted cs max patience hooks m = rw add-zero at (
    run-IsCounted_from 0 cs (new_promise_manager max patience hooks)
      (ground (arith, i64_leb_lem max 0)))
