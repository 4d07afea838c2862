-- ===== src/Session/Manager.antt =====
-- pkg/session/manager.go: the registry of sessions and its heartbeat checker.
-- The map holds pointers to sessions: a write to a session is a write to its entry. `has_hooks`
-- says whether event hooks are set; `events` is what the manager did to the outside, newest first.
-- The calls are taken one after another: `Add` tests and stores in two steps, so two calls for one
-- id at once are not covered.
pub mod Registry
pub mod Sweeps
pub mod Rounds
pub mod Strikes
pub mod Calls
use quic_flow.Prelude.{
  ℕ, ◌*◌, ◌==◌, ltb, if◌then◌else◌, Bool, true, false, Option, none, some, List, [], ◌∷◌, ◌++◌, map,
}
use quic_flow.Prelude.Word.{add64, dec64, i32_leb}
use quic_flow.Prelude.Text.{Text, is_empty}
use quic_flow.Prelude.Map.{Map, lookup, insert, delete, modify, keys}
use quic_flow.Session.Client.{
  ClientSession, second, get_time_since_last_heartbeat, increment_timeout_count,
  reset_timeout_count, update_last_heartbeat, close, get_remote_addr,
}

pub data Error : Type 0 where
  invalid_config invalid_client_id session_already_exists session_not_found : Error

pub data Result {ℓ} (A : Type ℓ) : Type ℓ where
  ok : A → Result A
  err : Error → Result A

pub data Event : Type 0 where
  heartbeat_timeout_hook : Text → Event
  conn_closed : Text → Event

pub record SessionManager : Type 0 where
  pub sessions : Map ClientSession
  pub count : ℕ  -- atomic.Int64, as a bit pattern
  pub heartbeat_interval : ℕ
  pub heartbeat_timeout : ℕ
  pub max_timeout_count : ℕ  -- int32, as a bit pattern
  pub has_hooks : Bool
  pub events : List Event

-- A field of the configuration that is 0 takes its default.
abbrev or_default : ℕ → ℕ → ℕ
or_default value default = if value == 0 then default else value

unfoldable pub new_session_manager : ℕ → ℕ → ℕ → Bool → SessionManager
new_session_manager interval timeout max hooks = record {
  sessions = [];
  count = 0;
  heartbeat_interval = or_default interval (5 * second);
  heartbeat_timeout = or_default timeout (45 * second);
  max_timeout_count = or_default max 3;
  has_hooks = hooks;
  events = [];
}

unfoldable pub add_session : ClientSession → SessionManager → Result SessionManager
add_session s sm = elim (lookup s.client_id sm.sessions) [
  | some _ ↦ err session_already_exists
  | none ↦ ok (record sm { sessions = insert s.client_id s sm.sessions; count = add64 sm.count 1 })
]

unfoldable pub add : Option ClientSession → SessionManager → Result SessionManager
unfolding add_session
add none sm = err invalid_config
add (some s) sm = if is_empty s.client_id then err invalid_client_id else add_session s sm

unfoldable pub remove : Text → SessionManager → Result SessionManager
remove id sm = if is_empty id then err invalid_client_id else elim (lookup id sm.sessions) [
  | none ↦ err session_not_found
  | some _ ↦ ok (record sm { sessions = delete id sm.sessions; count = dec64 sm.count })
]

unfoldable pub get : Text → SessionManager → Result ClientSession
get id sm =
    if is_empty id
    then err invalid_client_id
    else elim (lookup id sm.sessions) [ none ↦ err session_not_found | some s ↦ ok s ]

unfoldable pub exists : Text → SessionManager → Bool
exists id sm = elim (lookup id sm.sessions) [ none ↦ false | some _ ↦ true ]

unfoldable pub list_client_ids : SessionManager → List Text
list_client_ids sm = keys sm.sessions

-- A ping of the client, as the server's `handlePing` takes it: a write through the pointer that
-- `Get` returns.
unfoldable pub heartbeat : Text → ℕ → SessionManager → SessionManager
heartbeat id now sm = elim (get id sm) [
  | err e ↦ sm
  | ok s ↦ record sm { sessions = modify id (λ _. update_last_heartbeat now s) sm.sessions }
]

-- What one round of the checker keeps: the manager and the two lists of its summary.
pub record Sweep : Type 0 where
  pub manager : SessionManager
  pub timeout_clients : List Text
  pub removed_clients : List Text

store : Text → ClientSession → Sweep → Sweep
store id s w =
    let sm = w.manager in
    record w { manager = record sm { sessions = modify id (λ _. s) sm.sessions } }

note : Event → Sweep → Sweep
note e w = let sm = w.manager in record w { manager = record sm { events = e ∷ sm.events } }

-- The third strike: the hook, `Close`, `Remove`.
expire_hook : Text → Sweep → Sweep
unfolding note
expire_hook id w = if w.manager.has_hooks then note (heartbeat_timeout_hook id) w else w

expire_remove : Text → Sweep → Sweep
unfolding remove
expire_remove id w = elim (remove id w.manager) [
  | err e ↦ w
  | ok sm ↦ record w { manager = sm; removed_clients = w.removed_clients ++ (id ∷ []) }
]

expire : Text → ClientSession → Sweep → Option Sweep
unfolding expire_hook expire_remove close store note
expire id s w = elim (close s) [
  | none ↦ none
  | some s' ↦ some (expire_remove id (note (conn_closed id) (store id s' (expire_hook id w))))
]

list_timeout : Text → ClientSession → Sweep → Sweep
list_timeout id s w =
    if s.timeout_count == 1
    then record w { timeout_clients = w.timeout_clients ++ (id ∷ []) }
    else w

-- A session whose last heartbeat is more than 15 seconds ago; `s` is already incremented.
strike : Text → ClientSession → Sweep → Option Sweep
unfolding store list_timeout expire
strike id s w =
    let w' = list_timeout id s (store id s w) in
    if i32_leb w.manager.max_timeout_count s.timeout_count then expire id s w' else some w'

-- The session after a check that finds its heartbeat fresh: `TimeoutCount > 0` is reset.
unfoldable pub calm : ClientSession → ClientSession
unfolding reset_timeout_count
calm s = if i32_leb s.timeout_count 0 then s else reset_timeout_count s

-- The threshold that the checker compares with.
abbrev pub stale_after : ℕ
stale_after = 15 * second

unfoldable pub is_stale : ℕ → ClientSession → Bool
is_stale now s = ltb stale_after (get_time_since_last_heartbeat now s)

visit_session : ℕ → Text → ClientSession → Sweep → Option Sweep
unfolding strike store
visit_session now id s w =
    if is_stale now s then strike id (increment_timeout_count s) w else some (store id (calm s) w)

pub visit : ℕ → Text → Sweep → Option Sweep
unfolding visit_session
visit now id w = elim (lookup id w.manager.sessions) [
  | none ↦ some w
  | some s ↦ visit_session now id s w
]

-- `Range` visits each key that stands in the map when it starts, once.
visit_all : ℕ → List Text → Sweep → Option Sweep
visit_all now [] w = some w
visit_all now (id ∷ ids) w = elim (visit now id w) [ none ↦ none | some w' ↦ visit_all now ids w' ]

unfoldable pub check_heartbeats : ℕ → SessionManager → Option Sweep
unfolding visit_all visit
check_heartbeats now sm =
    visit_all now (keys sm.sessions)
      (record { manager = sm; timeout_clients = []; removed_clients = [] })

-- The loop of `heartbeatChecker`: one check at each tick, at the times given.
unfoldable pub run_checks : List ℕ → SessionManager → Option SessionManager
run_checks [] sm = some sm
run_checks (now ∷ ticks) sm = elim (check_heartbeats now sm) [
  | none ↦ none
  | some w ↦ run_checks ticks w.manager
]

close_each : List (Text × ClientSession) → List Event → Option (List Event)
close_each [] events = some events
close_each ((id, s) ∷ rest) events = elim (close s) [
  | none ↦ none
  | some _ ↦ close_each rest (conn_closed id ∷ events)
]

unfoldable pub close_all : SessionManager → Option SessionManager
unfolding close_each
close_all sm = elim (close_each sm.sessions sm.events) [
  | none ↦ none
  | some events ↦ some (record sm { sessions = []; count = 0; events = events })
]

pub record ClientInfoBrief : Type 0 where
  pub client_id : Text
  pub remote_addr : Text
  pub connected_at : ℕ

unfoldable pub brief : ClientSession → ClientInfoBrief
brief s = record {
  client_id = s.client_id;
  remote_addr = get_remote_addr s;
  connected_at = s.connected_at;
}

unfoldable pub list_clients_with_details : SessionManager → List ClientInfoBrief
list_clients_with_details sm = map (λ e. brief e.1) sm.sessions
