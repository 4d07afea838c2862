-- ===== src/Session/TimeWheel/Rounds/History.antt =====
-- Histories of the time wheel of pkg/session/timewheel.go: sessions that register, send heartbeats
-- and unregister, and ticks, in any order.
use mathlib.Core.Path.{subst}
use native.Mathlib.Nat.{mod-eq_of_lt}
use quic_flow.Prelude.{
  ℕ, suc, ◌+◌, ◌≤◌, ◌<◌, ◌≡◌, refl, sym, ap, ◌∙◌, ◌==◌, if◌then◌else◌, Bool, true, false, Option,
  none, some, List, [], ◌∷◌, length, arith,
}
use quic_flow.Prelude.Word.{i32_leb, i64_neg}
use quic_flow.Prelude.Text.{Text}
use quic_flow.Prelude.Map.{lookup, listed}
use quic_flow.Session.Client.{ClientSession, increment_timeout_count, close}
use quic_flow.Session.Manager.{SessionManager, conn_closed, Result, ok, err, get, remove, is_stale}
use quic_flow.Session.TimeWheel.{
  TimeWheel, new_time_wheel, register, leave_slot, leave_from, forget, update_heartbeat, unregister,
  advance, expired_clients,
}
use quic_flow.Session.TimeWheel.Rounds.{
  Round, store, note, expire_hook, removed, expire_remove, expire_with, list_timeout, strike,
  refresh, visit_found, visit, and_then, process_expired_sessions, on_tick,
}
use quic_flow.Session.TimeWheel.OnTime.{
  IsWheel, no_one, new_register-IsWheel, update_heartbeat-IsWheel, unregister-IsWheel,
  advance-IsWheel, expired_on_time,
}

pub data Event : Type 0 where
  joins : Text → Event
  beats : Text → Event
  leaves : Text → Event
  ticks : ℕ → Event

unfoldable pub next_manager : Option Round → Option (TimeWheel × SessionManager)
next_manager none = none
next_manager (some r) = some (r.wheel, r.manager)

unfoldable pub step : Event → TimeWheel → SessionManager → Option (TimeWheel × SessionManager)
unfolding next_manager
step (joins id) tw sm = some (register id tw, sm)
step (beats id) tw sm = some (update_heartbeat id tw, sm)
step (leaves id) tw sm = some (unregister id tw, sm)
step (ticks now) tw sm = next_manager (on_tick now tw sm)

unfoldable pub run :
    List Event → Option (TimeWheel × SessionManager) → Option (TimeWheel × SessionManager)
run es none = none
run [] (some s) = some s
run (e ∷ es) (some (tw, sm)) = run es (step e tw sm)

-- The wheel is sound and its tick is `n`.
abbrev IsAt : ℕ → TimeWheel → Type 0
IsAt n tw = IsWheel no_one tw × (tw.tick ≡ n)

abbrev IsRoundAt : ℕ → Option Round → Type 0
IsRoundAt n none = Unit
IsRoundAt n (some r) = IsAt n r.wheel

tick-leave_from :
    (id : Text) (slot : Option ℕ) (tw : TimeWheel) → (leave_from id slot tw).tick ≡ tw.tick
unfolding leave_from
tick-leave_from id none tw = refl
tick-leave_from id (some slot) tw = refl

update_heartbeat-IsAt :
    (id : Text) (n : ℕ) (tw : TimeWheel) → IsAt n tw → IsAt n (update_heartbeat id tw)
unfolding update_heartbeat register leave_slot
update_heartbeat-IsAt id n tw (k, e) =
    (update_heartbeat-IsWheel id tw k, tick-leave_from id (lookup id tw.session_to_slot) tw ∙ e)

unregister-IsAt : (id : Text) (n : ℕ) (tw : TimeWheel) → IsAt n tw → IsAt n (unregister id tw)
unfolding unregister leave_slot forget
unregister-IsAt id n tw (k, e) =
    (unregister-IsWheel id tw k, tick-leave_from id (lookup id tw.session_to_slot) tw ∙ e)

removed-wheel :
    (id : Text) (x : Result SessionManager) (r : Round) → (removed id x r).wheel ≡ r.wheel
unfolding removed
removed-wheel id (err e) r = refl
removed-wheel id (ok sm) r = refl

expire_remove-IsAt :
    (id : Text) (n : ℕ) (r : Round) → IsAt n r.wheel → IsAt n (expire_remove id r).wheel
unfolding expire_remove
expire_remove-IsAt id n r k =
    let r' = removed id (remove id r.manager) r in
    let e : r'.wheel ≡ r.wheel = removed-wheel id (remove id r.manager) r in
    unregister-IsAt id n r'.wheel (subst (IsAt n) (sym e) k)

expire_hook-wheel : (id : Text) (r : Round) → (expire_hook id r).wheel ≡ r.wheel
unfolding expire_hook note
expire_hook-wheel id r = ground arith

list_timeout-wheel :
    (id : Text) (s : ClientSession) (r : Round) → (list_timeout id s r).wheel ≡ r.wheel
unfolding list_timeout
list_timeout-wheel id s r = ground arith

expire_with-IsAt :
    (id : Text) (n : ℕ) (s : Option ClientSession) (r : Round)
    → IsAt n r.wheel
    → IsRoundAt n (expire_with id s r)
unfolding expire_with note store
expire_with-IsAt id n none r k = tt
expire_with-IsAt id n (some s) r k =
    expire_remove-IsAt id n (note (conn_closed id) (store id s r)) k

either-IsAt :
    (n : ℕ) (b : Bool) (x y : Option Round)
    → IsRoundAt n x
    → IsRoundAt n y
    → IsRoundAt n (if b then x else y)
either-IsAt n true x y h k = h
either-IsAt n false x y h k = k

strike-IsAt :
    (id : Text) (n : ℕ) (s : ClientSession) (r : Round)
    → IsAt n r.wheel
    → IsRoundAt n (strike id s r)
unfolding strike store
strike-IsAt id n s r k =
    let r' = list_timeout id s (store id s r) in
    let e : r'.wheel ≡ r.wheel = list_timeout-wheel id s (store id s r) in
    let k' : IsAt n r'.wheel = subst (IsAt n) (sym e) k in
    let hooked = subst (IsAt n) (sym (expire_hook-wheel id r')) k' in
    either-IsAt n (i32_leb r.wheel.max_timeout_count s.timeout_count)
      (expire_with id (close s) (expire_hook id r')) (some r')
      (expire_with-IsAt id n (close s) (expire_hook id r') hooked) k'

visit_found-IsAt :
    (now : ℕ) (id : Text) (n : ℕ) (x : Result ClientSession) (r : Round)
    → IsAt n r.wheel
    → IsRoundAt n (visit_found now id x r)
unfolding visit_found refresh store
visit_found-IsAt now id n (err e) r k = unregister-IsAt id n r.wheel k
visit_found-IsAt now id n (ok s) r k =
    either-IsAt n (is_stale now s) (strike id (increment_timeout_count s) r) (some (refresh id s r))
      (strike-IsAt id n (increment_timeout_count s) r k) (update_heartbeat-IsAt id n r.wheel k)

process-IsAt :
    (now : ℕ) (ids : List Text) (n : ℕ) (r : Option Round)
    → IsRoundAt n r
    → IsRoundAt n (and_then (process_expired_sessions now ids) r)
unfolding and_then process_expired_sessions visit
process-IsAt now ids n none k = tt
process-IsAt now [] n (some r) k = k
process-IsAt now (id ∷ ids) n (some r) k =
    process-IsAt now ids n (visit now id r) (visit_found-IsAt now id n (get id r.manager) r k)

-- The wheel is sound at some tick up to `n`.
abbrev IsBy : ℕ → Option (TimeWheel × SessionManager) → Type 0
IsBy n none = Unit
IsBy n (some (tw, sm)) = IsWheel no_one tw × (tw.tick ≤ n)

next_manager-IsBy : (n t : ℕ) (r : Option Round) → t ≤ n → IsRoundAt t r → IsBy n (next_manager r)
unfolding next_manager
next_manager-IsBy n t none b k = tt
next_manager-IsBy n t (some r) b (k, e) = (k, omega arith)

tick-advance : (tw : TimeWheel) → suc tw.tick < i64_neg → (advance tw).tick ≡ suc tw.tick
unfolding advance
tick-advance tw b = ground arith

on_tick-IsBy :
    (now n : ℕ) (tw : TimeWheel) (sm : SessionManager)
    → suc n < i64_neg
    → IsWheel no_one tw
    → tw.tick ≤ n
    → IsBy (suc n) (next_manager (on_tick now tw sm))
unfolding on_tick and_then
on_tick-IsBy now n tw sm b k t =
    let moved = advance tw in
    let start : Round = record {
      wheel = moved;
      manager = sm;
      timeout_clients = [];
      removed_clients = [];
    } in
    let bound : suc tw.tick < i64_neg = omega arith in
    let at =
      process-IsAt now (expired_clients moved) (suc tw.tick) (some start)
        (advance-IsWheel tw bound k, tick-advance tw bound) in
    next_manager-IsBy (suc n) (suc tw.tick)
      (process_expired_sessions now (expired_clients moved) start) (omega arith) at

step-IsBy :
    (e : Event) (n : ℕ) (tw : TimeWheel) (sm : SessionManager)
    → suc n < i64_neg
    → IsWheel no_one tw
    → tw.tick ≤ n
    → IsBy (suc n) (step e tw sm)
unfolding step register update_heartbeat unregister
step-IsBy (joins id) n tw sm b k t = (new_register-IsWheel id tw k, omega arith)
step-IsBy (beats id) n tw sm b k t =
    let (k', e) = update_heartbeat-IsAt id tw.tick tw (k, refl) in (k', omega arith)
step-IsBy (leaves id) n tw sm b k t =
    let (k', e) = unregister-IsAt id tw.tick tw (k, refl) in (k', omega arith)
step-IsBy (ticks now) n tw sm b k t = on_tick-IsBy now n tw sm b k t

run-IsBy :
    (es : List Event) (n : ℕ) (s : Option (TimeWheel × SessionManager))
    → n + length es < i64_neg
    → IsBy n s
    → IsBy (n + length es) (run es s)
unfolding run
run-IsBy es n none b k = tt
run-IsBy [] n (some (tw, sm)) b (k, t) = (k, omega arith)
run-IsBy (e ∷ es) n (some (tw, sm)) b (k, t) =
    let same : suc n + length es ≡ n + suc (length es) = omega arith in
    subst (λ m. IsBy m (run es (step e tw sm))) same
      (run-IsBy es (suc n) (step e tw sm) (omega arith) (step-IsBy e n tw sm (omega arith) k t))

new-IsBy :
    (size interval timeout max : ℕ) (hooks : Bool) (sm : SessionManager)
    → IsBy 0 (some (new_time_wheel size interval timeout max hooks, sm))
unfolding new_time_wheel lookup
new-IsBy size interval timeout max hooks sm = (
  record {
    some_slot = ground arith;
    pointer = sym (mod-eq_of_lt (ground arith));
    slot_map = tt;
    expiry_map = tt;
    entered = λ j e always h. ground arith;
  },
  omega arith,
)

kept_expiry :
    (tw : TimeWheel) (id : Text) (e : ℕ)
    → lookup id tw.session_expiry ≡ some e
    → lookup id (advance tw).session_expiry ≡ some e
unfolding advance
kept_expiry tw id e h = h

-- In every history of a new wheel of fewer than 2 ^ 63 events: a session whose expiry lies ahead is
-- among the clients that the next tick checks exactly when that tick is its expiry.
pub run_on_time :
    (es : List Event) (size interval timeout max : ℕ) (hooks : Bool) (sm sm' : SessionManager)
    (tw : TimeWheel) (id : Text) (e : ℕ)
    → length es < i64_neg
    → run es (some (new_time_wheel size interval timeout max hooks, sm)) ≡ some (tw, sm')
    → lookup id tw.session_expiry ≡ some e
    → tw.tick < e
    → e < i64_neg
    → listed id (expired_clients (advance tw)) ≡ (e == suc tw.tick)
run_on_time es size interval timeout max hooks sm sm' tw id e b runs h ahead bound =
    let start : Option (TimeWheel × SessionManager) =
      some (new_time_wheel size interval timeout max hooks, sm) in
    let from_zero : 0 + length es ≡ length es = omega arith in
    let all = run-IsBy es 0 start (omega arith) (new-IsBy size interval timeout max hooks sm) in
    let (k, t) = subst (IsBy (length es)) runs (subst (λ m. IsBy m (run es start)) from_zero all) in
    let next : (advance tw).tick ≡ suc tw.tick = tick-advance tw (omega arith) in
    expired_on_time (advance tw) id e (advance-IsWheel tw (omega arith) k) (kept_expiry tw id e h)
      (omega arith) bound
    ∙ ap (λ m. e == m) next
