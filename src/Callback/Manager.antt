-- ===== src/Callback/Manager.antt =====
-- pkg/callback/manager.go: the registry of promises, with its delayed removals.
-- The map holds pointers to promises: a write to a promise is a write to its entry. `metrics` are
-- the three promise counters of the metrics; `timeouts_hooked` are the ids given to the hook,
-- newest first. Durations and times are in nanoseconds; a timeout that is not positive is 0 here.
-- `ready` is the content of delayedRemoveCh, oldest first, and `pending` the slice that
-- delayedRemoveLoop keeps. Calls come one after another: Create compares the counter and adds to it
-- in two steps without a lock, so that calls at the same time may pass the capacity.
pub mod Removals
pub mod Counter
pub mod Delivery
pub mod Cleanup
use quic_flow.Prelude.{
  ℕ, zero, suc, ◌+◌, ◌*◌, ◌<◌, ltb, leb, ◌==◌, if◌then◌else◌, Bool, true, false, not, ◌||◌, Option,
  none, some, List, [], ◌∷◌, ◌++◌, length, take, get_elem?, set,
}
use quic_flow.Prelude.Word.{add64, dec64, i64_leb}
use quic_flow.Prelude.Text.{Text}
use quic_flow.Prelude.Map.{Map, lookup, insert, delete, modify}
use quic_flow.Callback.Promise.{
  Promise, CallbackError, promise_not_found, promise_capacity_full, already_completed, new_promise,
  complete, fail, timeout, fire, is_completed,
}

pub data Result {ℓ} (A : Type ℓ) : Type ℓ where
  ok : A → Result A
  err : CallbackError → Result A

abbrev pub max_promise_capacity : ℕ
max_promise_capacity = 50000

abbrev pub millisecond : ℕ
millisecond = 1000000

abbrev pub second : ℕ
second = 1000000000

abbrev pub delayed_remove_delay : ℕ
delayed_remove_delay = 100 * millisecond

-- The buffer of delayedRemoveCh.
abbrev pub delayed_room : ℕ
delayed_room = 1000

pub record DelayedRemove : Type 0 where
  pub msg_id : Text
  pub remove_at : ℕ

pub record PromiseManager : Type 0 where
  pub promises : Map Promise
  pub count : ℕ  -- atomic.Int64, as a bit pattern
  pub max_capacity : ℕ  -- int64, as a bit pattern
  pub default_timeout : ℕ
  pub ready : List DelayedRemove
  pub pending : List DelayedRemove
  pub created : ℕ
  pub completed : ℕ
  pub timed_out : ℕ
  pub has_hooks : Bool
  pub timeouts_hooked : List Text

-- A capacity that is not positive and a timeout of 0 take their defaults.
unfoldable pub new_promise_manager : ℕ → ℕ → Bool → PromiseManager
new_promise_manager max_capacity default_timeout hooks = record {
  promises = [];
  count = 0;
  max_capacity = if i64_leb max_capacity 0 then max_promise_capacity else max_capacity;
  default_timeout = if default_timeout == 0 then 30 * second else default_timeout;
  ready = [];
  pending = [];
  created = 0;
  completed = 0;
  timed_out = 0;
  has_hooks = hooks;
  timeouts_hooked = [];
}

unfoldable pub create : Text → ℕ → ℕ → PromiseManager → Result (PromiseManager × Promise)
create msg_id timeout now pm =
    let effective = if timeout == 0 then pm.default_timeout else timeout in
    let promise = new_promise msg_id effective now in
    if i64_leb pm.max_capacity pm.count
    then err promise_capacity_full
    else ok (
      record pm {
        promises = insert msg_id promise pm.promises;
        count = add64 pm.count 1;
        created = pm.created + 1;
      },
      promise,
    )

unfoldable pub get : Text → PromiseManager → Result Promise
get msg_id pm = elim (lookup msg_id pm.promises) [ none ↦ err promise_not_found | some p ↦ ok p ]

unfoldable pub remove : Text → PromiseManager → PromiseManager
remove msg_id pm = elim (lookup msg_id pm.promises) [
  | none ↦ pm
  | some p ↦ record pm { promises = delete msg_id pm.promises; count = dec64 pm.count }
]

-- The send on delayedRemoveCh; with the channel full the promise is removed at once.
unfoldable pub delay_remove : Text → ℕ → PromiseManager → PromiseManager
delay_remove msg_id now pm =
    if ltb (length pm.ready) delayed_room
    then record pm {
      ready = pm.ready ++ (record { msg_id = msg_id; remove_at = now + delayed_remove_delay } ∷ []);
    }
    else remove msg_id pm

abbrev store : Text → Promise → PromiseManager → PromiseManager
store msg_id p pm = record pm { promises = modify msg_id (λ _. p) pm.promises }

complete_promise : Text → ℕ → Promise × Bool → PromiseManager → Result PromiseManager
complete_promise msg_id now (p, false) pm = err already_completed
complete_promise msg_id now (p, true) pm =
    let pm' = store msg_id p pm in
    ok (delay_remove msg_id now (record pm' { completed = pm.completed + 1 }))

unfoldable pub complete_by_id : Text → ℕ → ℕ → PromiseManager → Result PromiseManager
unfolding complete_promise
complete_by_id msg_id ack now pm = elim (lookup msg_id pm.promises) [
  | none ↦ err promise_not_found
  | some p ↦ complete_promise msg_id now (complete ack p) pm
]

fail_promise : Text → ℕ → Promise × Bool → PromiseManager → Result PromiseManager
fail_promise msg_id now (p, false) pm = err already_completed
fail_promise msg_id now (p, true) pm = ok (delay_remove msg_id now (store msg_id p pm))

unfoldable pub fail_by_id : Text → CallbackError → ℕ → PromiseManager → Result PromiseManager
unfolding fail_promise
fail_by_id msg_id e now pm = elim (lookup msg_id pm.promises) [
  | none ↦ err promise_not_found
  | some p ↦ fail_promise msg_id now (fail e p) pm
]

-- The callback that a fired timer calls first, whatever has become of its promise.
unfoldable pub on_timeout : Text → ℕ → PromiseManager → PromiseManager
on_timeout msg_id now pm =
    let hooked = if pm.has_hooks then msg_id ∷ pm.timeouts_hooked else pm.timeouts_hooked in
    delay_remove msg_id now (record pm { timed_out = pm.timed_out + 1; timeouts_hooked = hooked })

-- What a fired timer calls then, on its own promise. Where another promise with its id has displaced
-- that one, or it has been removed, the map does not hold it, and the call changes nothing in the map.
unfoldable pub timer_timeout : Bool → Text → PromiseManager → PromiseManager
timer_timeout false msg_id pm = pm
timer_timeout true msg_id pm = record pm {
  promises = modify msg_id (λ p. (timeout p).0) pm.promises;
}

-- delayedRemoveLoop receives an item.
unfoldable pub receive_item : PromiseManager → PromiseManager
receive_item pm = elim pm.ready [
  | [] ↦ pm
  | item ∷ rest ↦ record pm { ready = rest; pending = pm.pending ++ (item ∷ []) }
]

-- `now.After(item.removeAt) || now.Equal(item.removeAt)`
abbrev pub is_due : ℕ → DelayedRemove → Bool
is_due now item = ltb item.remove_at now || now == item.remove_at

-- The loop over `pending`, which compacts the slice in place: `n` rounds are left, `k` is the index
-- that is read and `i` the one that is written.
compact_loop :
    ℕ → ℕ → ℕ → ℕ → List DelayedRemove → PromiseManager → List DelayedRemove × ℕ × PromiseManager
compact_loop now zero k i items pm = (items, i, pm)
compact_loop now (suc n) k i items pm = elim (get_elem? items k) [
  | none ↦ (items, i, pm)
  | some item ↦
      let due = compact_loop now n (suc k) i items (remove item.msg_id pm) in
      let kept = compact_loop now n (suc k) (suc i) (set items i item) pm in
      if is_due now item then due else kept
]

-- delayedRemoveLoop at a tick.
unfoldable pub tick_removals : ℕ → PromiseManager → PromiseManager
unfolding compact_loop
tick_removals now pm =
    let (items, i, pm') = compact_loop now (length pm.pending) 0 0 pm.pending pm in
    record pm' { pending = take i items }

-- The ids that cleanup collects.
completed_ids : Map Promise → List Text
completed_ids [] = []
completed_ids ((msg_id, p) ∷ m) =
    let rest = completed_ids m in if is_completed p then msg_id ∷ rest else rest

unfoldable pub remove_all : List Text → PromiseManager → PromiseManager
remove_all [] pm = pm
remove_all (msg_id ∷ rest) pm = remove_all rest (remove msg_id pm)

unfoldable pub cleanup : PromiseManager → PromiseManager
unfolding completed_ids remove_all
cleanup pm = remove_all (completed_ids pm.promises) pm
