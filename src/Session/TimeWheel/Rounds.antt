-- ===== src/Session/TimeWheel/Rounds.antt =====
-- processExpiredSessions and onTick of pkg/session/timewheel.go.
-- The wheel reaches the sessions through the interface Manager, here the registry of
-- pkg/session/manager.go. As there, `none` is a panic: `Close` on a session without a connection.
pub mod History
mod Examples
use quic_flow.Prelude.{
  ℕ, ◌==◌, if◌then◌else◌, Bool, true, false, Option, none, some, List, [], ◌∷◌, ◌++◌,
}
use quic_flow.Prelude.Word.{i32_leb}
use quic_flow.Prelude.Text.{Text}
use quic_flow.Prelude.Map.{modify}
use quic_flow.Session.Client.{ClientSession, increment_timeout_count, close}
use quic_flow.Session.Manager.{
  SessionManager, Event, heartbeat_timeout_hook, conn_closed, Result, ok, err, get, remove,
  is_stale, calm,
}
use quic_flow.Session.TimeWheel.{TimeWheel, update_heartbeat, unregister, advance, expired_clients}

pub record Round : Type 0 where
  pub wheel : TimeWheel
  pub manager : SessionManager
  pub timeout_clients : List Text
  pub removed_clients : List Text

store : Text → ClientSession → Round → Round
store id s r =
    let sm = r.manager in
    record r { manager = record sm { sessions = modify id (λ _. s) sm.sessions } }

note : Event → Round → Round
note e r = let sm = r.manager in record r { manager = record sm { events = e ∷ sm.events } }

expire_hook : Text → Round → Round
unfolding note
expire_hook id r = if r.wheel.has_hooks then note (heartbeat_timeout_hook id) r else r

removed : Text → Result SessionManager → Round → Round
removed id (err e) r = r
removed id (ok sm) r = record r { manager = sm; removed_clients = r.removed_clients ++ (id ∷ []) }

-- Behind `Close`: the removal from the manager, then from the wheel.
expire_remove : Text → Round → Round
unfolding removed
expire_remove id r =
    let r' = removed id (remove id r.manager) r in record r' { wheel = unregister id r'.wheel }

expire_with : Text → Option ClientSession → Round → Option Round
unfolding expire_remove note store
expire_with id none r = none
expire_with id (some s) r = some (expire_remove id (note (conn_closed id) (store id s r)))

list_timeout : Text → ClientSession → Round → Round
list_timeout id s r =
    if s.timeout_count == 1
    then record r { timeout_clients = r.timeout_clients ++ (id ∷ []) }
    else r

-- A session whose last heartbeat is more than 15 seconds ago; `s` is already incremented.
strike : Text → ClientSession → Round → Option Round
unfolding store list_timeout expire_with expire_hook
strike id s r =
    let r' = list_timeout id s (store id s r) in
    let gone = expire_with id (close s) (expire_hook id r') in
    if i32_leb r.wheel.max_timeout_count s.timeout_count then gone else some r'

-- A session heard from in time moves to a new slot.
refresh : Text → ClientSession → Round → Round
unfolding store
refresh id s r = let r' = store id (calm s) r in record r' { wheel = update_heartbeat id r'.wheel }

visit_found : ℕ → Text → Result ClientSession → Round → Option Round
unfolding strike refresh
visit_found now id (err e) r = some (record r { wheel = unregister id r.wheel })
visit_found now id (ok s) r =
    let struck = strike id (increment_timeout_count s) r in
    if is_stale now s then struck else some (refresh id s r)

visit : ℕ → Text → Round → Option Round
unfolding visit_found
visit now id r = visit_found now id (get id r.manager) r

and_then : (Round → Option Round) → Option Round → Option Round
and_then f none = none
and_then f (some r) = f r

unfoldable pub process_expired_sessions : ℕ → List Text → Round → Option Round
unfolding visit and_then
process_expired_sessions now [] r = some r
process_expired_sessions now (id ∷ ids) r =
    and_then (process_expired_sessions now ids) (visit now id r)

unfoldable pub on_tick : ℕ → TimeWheel → SessionManager → Option Round
unfolding process_expired_sessions
on_tick now tw sm =
    let moved = advance tw in
    process_expired_sessions now (expired_clients moved)
      (record { wheel = moved; manager = sm; timeout_clients = []; removed_clients = [] })
