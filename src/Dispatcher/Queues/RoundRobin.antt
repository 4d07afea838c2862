-- ===== src/Dispatcher/Queues/RoundRobin.antt =====
-- The round robin of pkg/dispatcher/multi_queue.go spreads messages evenly.
use native.Mathlib.Nat.{mod-eq_of_lt, mod-lt, add-mod_right}
use quic_flow.Prelude.{
  ℕ, zero, suc, ◌+◌, ◌%◌, ◌≤◌, ◌<◌, ◌≡◌, refl, ltb, ◌==◌, if◌then◌else◌, false, Option, none, some,
  List, [], ◌∷◌, arith, length, ◌∙◌, ap, length-append,
}
use quic_flow.Prelude.Word.{add64, i64_mod}
use quic_flow.Dispatcher.Queues.{
  MultiQueueDispatcher, DataMessage, DispatchError, send_task, offer, enqueue, dispatch,
}

-- How often `j` is among the queues of `k` calls, where the first call has the index `start`.
unfoldable pub hits : ℕ → ℕ → ℕ → ℕ → ℕ
hits q j start zero = 0
hits q j start (suc k) =
    let rest = hits q j (suc start) k in if (start % q) == j then suc rest else rest

hits_first :
    (q j k start : ℕ)
    → start + k ≤ q
    → hits q j start k ≡ (if ltb j start then 0 else (if ltb j (start + k) then 1 else 0))
unfolding hits
hits_first q j zero start h = ground arith
hits_first q j (suc k) start h =
    let p : start % q ≡ start = mod-eq_of_lt (omega arith) in
    let ih = hits_first q j k (suc start) (omega arith) in ground arith

hits_last :
    (q j k start : ℕ)
    → hits q j start (suc k) ≡ hits q j start k + (if ((start + k) % q) == j then 1 else 0)
unfolding hits
hits_last q j zero start = ground arith
hits_last q j (suc k) start =
    let ih = hits_last q j k (suc start) in
    let e : suc start + k ≡ start + suc k = omega arith in ground arith

hits-suc :
    (q j start k : ℕ)
    → hits q j start (suc k)
      ≡ (if (start % q) == j then suc (hits q j (suc start) k) else hits q j (suc start) k)
unfolding hits
hits-suc q j start k = refl

-- Any `q` calls in a row use each of the `q` queues once.
pub hits_all : (q j start : ℕ) → 0 < q → j < q → hits q j start q ≡ 1
hits_all q j zero p h = let e = hits_first q j q 0 (omega arith) in ground arith
hits_all q j (suc start) p h =
    let ih = hits_all q j start p h in
    let last = hits_last q j q start in
    let around : (start + q) % q ≡ start % q = add-mod_right start q in
    let step = hits-suc q j start q in ground arith

-- Dispatch of each message in turn, where every one is queued: `none` when one has to wait.
unfoldable pub dispatch_all : List DataMessage → MultiQueueDispatcher → Option MultiQueueDispatcher
dispatch_all [] d = some d
dispatch_all (m ∷ ms) d = elim (dispatch send_task false (some m) none d) [
  | none ↦ none
  | some (e, _) ↦ dispatch_all ms e
]

-- The queue that the next call uses, and the dispatcher after it.
abbrev next : MultiQueueDispatcher → ℕ
next d = suc d.dispatch_index % d.queue_count

abbrev sent : DataMessage → MultiQueueDispatcher → MultiQueueDispatcher
unfolding enqueue
sent m d =
    enqueue (next d) (record { message = m; response_ch = none })
      (record d { dispatch_index = suc d.dispatch_index })

dispatch-room :
    (m : DataMessage) (d : MultiQueueDispatcher)
    → suc d.dispatch_index < i64_mod
    → length (d.queues (next d)) < d.room
    → dispatch send_task false (some m) none d ≡ some (sent m d, none)
unfolding dispatch offer enqueue
dispatch-room m d h room =
    let e : add64 d.dispatch_index 1 ≡ suc d.dispatch_index = ground arith in ground (arith, e)

sent-length :
    (m : DataMessage) (d : MultiQueueDispatcher) (j : ℕ)
    → length ((sent m d).queues j)
      ≡ (if next d == j then suc (length (d.queues j)) else length (d.queues j))
unfolding enqueue
sent-length m d j =
    ground (arith, length-append (d.queues j) (record { message = m; response_ch = none } ∷ []))

and_then :
    List DataMessage
    → Option (MultiQueueDispatcher × Option DispatchError)
    → Option MultiQueueDispatcher
and_then ms none = none
and_then ms (some (e, _)) = dispatch_all ms e

hits-nil : (q j start n : ℕ) → n ≡ n + hits q j start zero
unfolding hits
hits-nil q j start n = omega arith

-- One message more: the length of a queue after it and the hits of the others.
sent-hits :
    (m : DataMessage) (d : MultiQueueDispatcher) (j k : ℕ)
    → length ((sent m d).queues j) + hits d.queue_count j (suc (suc d.dispatch_index)) k
      ≡ length (d.queues j) + hits d.queue_count j (suc d.dispatch_index) (suc k)
sent-hits m d j k =
    ground (arith, sent-length m d j, hits-suc d.queue_count j (suc d.dispatch_index) k)

dispatch_all-hits :
    (ms : List DataMessage) (d : MultiQueueDispatcher)
    → 0 < d.queue_count
    → d.dispatch_index + length ms < i64_mod
    → ((j : ℕ)
        → j < d.queue_count
        → length (d.queues j) + hits d.queue_count j (suc d.dispatch_index) (length ms) ≤ d.room)
    → (e : MultiQueueDispatcher) × (dispatch_all ms d ≡ some e)
      × ((j : ℕ)
          → length (e.queues j)
            ≡ length (d.queues j) + hits d.queue_count j (suc d.dispatch_index) (length ms))
unfolding dispatch_all sent and_then
dispatch_all-hits [] d p h room =
    (d, refl, λ j. hits-nil d.queue_count j (suc d.dispatch_index) (length (d.queues j)))
dispatch_all-hits (m ∷ ms) d p h room =
    let here = room (next d) (mod-lt (suc d.dispatch_index) p) in
    let used = hits-suc d.queue_count (next d) (suc d.dispatch_index) (length ms) in
    let fits : length (d.queues (next d)) < d.room = ground arith in
    let e = sent m d in
    let first = dispatch-room m d (omega arith) fits in
    let more = λ (j : ℕ). sent-hits m d j (length ms) in
    let (end, runs, lengths) =
      dispatch_all-hits ms e p (omega arith)
        (λ j lt. let a = room j lt in let b = more j in omega arith) in
    (end, ap (and_then ms) first ∙ runs, λ j. lengths j ∙ more j)

-- A dispatcher with room for one more task in each of its queues, and as many messages as it has
-- queues, where the index does not reach 2 ^ 64: dispatching all the messages, each queued as its
-- turn comes, succeeds, and each queue then holds exactly one task more.
pub dispatch_all-even :
    (ms : List DataMessage) (d : MultiQueueDispatcher)
    → 0 < d.queue_count
    → length ms ≡ d.queue_count
    → d.dispatch_index + length ms < i64_mod
    → ((j : ℕ) → j < d.queue_count → length (d.queues j) < d.room)
    → (e : MultiQueueDispatcher) × (dispatch_all ms d ≡ some e)
      × ((j : ℕ) → j < d.queue_count → length (e.queues j) ≡ suc (length (d.queues j)))
dispatch_all-even ms d p full h room =
    let once = λ (j : ℕ) (lt : j < d.queue_count).
      ap (λ k. hits d.queue_count j (suc d.dispatch_index) k) full
      ∙ hits_all d.queue_count j (suc d.dispatch_index) p lt in
    let (end, runs, lengths) =
      dispatch_all-hits ms d p h (λ j lt. let a = room j lt in let b = once j lt in omega arith) in
    (end, runs, λ j lt. let a = lengths j in let b = once j lt in omega arith)
