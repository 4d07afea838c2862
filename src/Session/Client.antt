-- ===== src/Session/Client.antt =====
-- pkg/session/session.go: one client's session.
-- Times are arguments, in nanoseconds since the epoch; the session keeps milliseconds. The
-- connection is known by the text of its remote address; `none` is a nil pointer. A metadata value
-- is only stored and returned, so any number stands for it.
use quic_flow.Prelude.{ℕ, ◌*◌, ◌/◌, ◌-◌, Bool, true, false, Option, none, some, ltb}
use quic_flow.Prelude.Word.{add32}
use quic_flow.Prelude.Text.{Text}
use quic_flow.Prelude.Map.{Map, lookup, insert}
use mathlib.Core.List.{[]}

pub data ClientState : Type 0 where
  unspecified idle connecting connected : ClientState

pub record ClientSession : Type 0 where
  pub client_id : Text
  pub conn : Option Text
  pub connected_at : ℕ  -- Unix milliseconds
  pub last_heartbeat : ℕ  -- Unix milliseconds
  pub timeout_count : ℕ  -- int32, as a bit pattern
  pub state : ClientState
  pub metadata : Option (Map ℕ)
  pub cached_remote_addr : Text

-- Nanoseconds in a millisecond and in a second.
abbrev pub millisecond : ℕ
millisecond = 1000000

abbrev pub second : ℕ
second = 1000000000

unfoldable pub new_client_session : Text → Option Text → ℕ → ClientSession
new_client_session client_id conn now =
    let now_ms = now / millisecond in
    record {
      client_id = client_id;
      conn = conn;
      connected_at = now_ms;
      last_heartbeat = now_ms;
      timeout_count = 0;
      state = connected;
      metadata = none;
      cached_remote_addr = [];
    }

unfoldable pub get_last_heartbeat : ClientSession → ℕ
get_last_heartbeat s = s.last_heartbeat * millisecond

unfoldable pub update_last_heartbeat : ℕ → ClientSession → ClientSession
update_last_heartbeat now s = record s { last_heartbeat = now / millisecond; timeout_count = 0 }

unfoldable pub increment_timeout_count : ClientSession → ClientSession
increment_timeout_count s = record s { timeout_count = add32 s.timeout_count 1 }

unfoldable pub reset_timeout_count : ClientSession → ClientSession
reset_timeout_count s = record s { timeout_count = 0 }

unfoldable pub set_state : ClientState → ClientSession → ClientSession
set_state state s = record s { state = state }

unfoldable pub is_connected : ClientSession → Bool
is_connected s = elim s.state [ connected ↦ true | _ ↦ false ]

-- A duration that would be negative reads 0; it is compared with durations from 0 on only.
unfoldable pub get_time_since_last_heartbeat : ℕ → ClientSession → ℕ
unfolding get_last_heartbeat
get_time_since_last_heartbeat now s = now - get_last_heartbeat s

unfoldable pub is_heartbeat_timeout : ℕ → ℕ → ClientSession → Bool
unfolding get_time_since_last_heartbeat
is_heartbeat_timeout now timeout s = ltb timeout (get_time_since_last_heartbeat now s)

-- The session after `Close`; `none` is the panic of a call through a nil connection. What the
-- connection itself answers is logged by the callers and changes nothing.
unfoldable pub close : ClientSession → Option ClientSession
unfolding set_state
close s = elim s.conn [
  | none ↦ none
  | some addr ↦ some (set_state idle (record s { cached_remote_addr = addr }))
]

unfoldable pub get_remote_addr : ClientSession → Text
get_remote_addr s = elim s.conn [ none ↦ s.cached_remote_addr | some addr ↦ addr ]

unfoldable pub get_metadata : Text → ClientSession → Option ℕ
unfolding lookup
get_metadata key s = elim s.metadata [ none ↦ none | some m ↦ lookup key m ]

unfoldable pub set_metadata : Text → ℕ → ClientSession → ClientSession
unfolding insert
set_metadata key value s = record s {
  metadata = some (insert key value (elim s.metadata [ none ↦ [] | some m ↦ m ]));
}

pub record ClientInfo : Type 0 where
  pub client_id : Text
  pub remote_addr : Text
  pub connected_at : ℕ
  pub last_heartbeat : ℕ
  pub state : ClientState

unfoldable pub to_client_info : ClientSession → ClientInfo
unfolding get_remote_addr
to_client_info s = record {
  client_id = s.client_id;
  remote_addr = get_remote_addr s;
  connected_at = s.connected_at;
  last_heartbeat = s.last_heartbeat;
  state = s.state;
}
