-- ===== src/Session/Examples.antt =====
-- Tests and examples for pkg/session.
use mathlib.Core.Option
use quic_flow.Prelude.{
  ℕ, ◌*◌, ◌≡◌, refl, true, none, some, List, [], ◌∷◌, drop, if◌then◌else◌, arith, ltb,
}
use quic_flow.Prelude.Word.{i64_leb, i32_leb}
use quic_flow.Prelude.Text.{Text, text_eq}
use quic_flow.Prelude.Map.{lookup, keys, modify, delete}
use quic_flow.Session.Client.{
  ClientSession, connected, increment_timeout_count, second, get_time_since_last_heartbeat,
}
use quic_flow.Session.Manager.{
  SessionManager, Sweep, new_session_manager, calm, is_stale, check_heartbeats, run_checks,
  list_clients_with_details,
}
use quic_flow.Session.Manager.Registry.{IsConsistent}
use quic_flow.Session.Manager.Sweeps.{after_check, AllConnected}
use quic_flow.Session.Manager.Rounds.{check_heartbeats-checked}
use quic_flow.Session.Manager.Strikes.{struck, run_checks_strikes}
use quic_flow.Session.Manager.Calls.{
  Call, adds, removes, beats, checks, closes, run, IsSound, run-IsSound,
}
use quic_flow.Session.Paging.{
  list_clients_with_details_paginated, page, list_clients_with_details_paginated-page,
  list_clients_with_details_paginated-negative,
}

-- Client "a", connected at second 0, and client "b", at second 100.
abbrev a_id : Text
a_id = b'a' ∷ []

abbrev b_id : Text
b_id = b'b' ∷ []

abbrev addr : Text
addr = b'1' ∷ b'0' ∷ []

abbrev a_session : ClientSession
a_session = record {
  client_id = a_id;
  conn = some addr;
  connected_at = 0;
  last_heartbeat = 0;
  timeout_count = 0;
  state = connected;
  metadata = none;
  cached_remote_addr = [];
}

abbrev b_session : ClientSession
b_session = record a_session { client_id = b_id; connected_at = 100000; last_heartbeat = 100000 }

abbrev two : SessionManager
two = record {
  sessions = (a_id, a_session) ∷ (b_id, b_session) ∷ [];
  count = 2;
  heartbeat_interval = 5 * second;
  heartbeat_timeout = 45 * second;
  max_timeout_count = 3;
  has_hooks = true;
  events = [];
}

-- Before "a" comes. `Add` puts a new entry at the end of the list.
abbrev one : SessionManager
one = record two { sessions = (b_id, b_session) ∷ []; count = 1 }

abbrev both : SessionManager
both = record two { sessions = (b_id, b_session) ∷ (a_id, a_session) ∷ [] }

two-IsConsistent : IsConsistent two
unfolding lookup text_eq
two-IsConsistent = record { unique = (refl, (refl, tt)); named = refl; counted = refl }

one-IsConsistent : IsConsistent one
unfolding lookup text_eq
one-IsConsistent = record { unique = (refl, tt); named = refl; counted = refl }

two-AllConnected : AllConnected two
unfolding lookup text_eq
two-AllConnected j s h = ground arith

-- The ticks at which "a" strikes out, all within the 45 seconds of `heartbeat_timeout`.
abbrev ticks : List ℕ
ticks = 16 * second ∷ 21 * second ∷ 26 * second ∷ []

-- Three silent checks remove "a" and leave "b".
three_checks : Option.map (λ sm. keys sm.sessions) (run_checks ticks two) ≡ some (b_id ∷ [])
unfolding run_checks check_heartbeats is_stale get_time_since_last_heartbeat lookup keys modify
    delete text_eq i32_leb increment_timeout_count calm
three_checks = refl

-- The new manager has the documented defaults.
new_session_manager_defaults : (new_session_manager 0 0 0 true).heartbeat_timeout ≡ 45 * second
unfolding new_session_manager
new_session_manager_defaults = refl

check_heartbeats-checked_example :
    (w : Sweep) × (check_heartbeats (16 * second) two ≡ some w)
    × IsConsistent w.manager
    × AllConnected w.manager
    × (w.manager.max_timeout_count ≡ two.max_timeout_count)
    × ((j : Text)
        → lookup j w.manager.sessions ≡ after_check 3 (16 * second) (lookup j two.sessions))
check_heartbeats-checked_example =
    check_heartbeats-checked (16 * second) two two-IsConsistent two-AllConnected

run_checks_strikes_example :
    (sm : SessionManager) × (run_checks ticks two ≡ some sm)
    × (lookup a_id sm.sessions ≡ (if ltb 3 3 then some (struck 3 a_session) else none))
unfolding lookup text_eq is_stale get_time_since_last_heartbeat
run_checks_strikes_example =
    run_checks_strikes ticks a_id a_session two two-IsConsistent two-AllConnected refl (omega arith)
      (omega arith) (refl, (refl, (refl, tt)))

abbrev history : List Call
history =
    adds a_id addr 0
    ∷ beats a_id second
    ∷ adds b_id addr 5
    ∷ checks (90 * second)
    ∷ removes b_id
    ∷ closes
    ∷ []

run-IsSound_example :
    (sm : SessionManager) × (run history (new_session_manager 0 0 0 true) ≡ some sm) × IsSound sm
run-IsSound_example = run-IsSound history 0 0 0 true

list_clients_with_details_paginated-page_example :
    list_clients_with_details_paginated 1 5 two
    ≡ some (page 5 (drop 1 (list_clients_with_details two)), 2)
list_clients_with_details_paginated-page_example =
    list_clients_with_details_paginated-page 1 5 two two-IsConsistent (omega arith) (omega arith)
      (omega arith)

list_clients_with_details_paginated-negative_example :
    list_clients_with_details_paginated 0 18446744073709551615 two ≡ none
unfolding i64_leb
list_clients_with_details_paginated-negative_example =
    list_clients_with_details_paginated-negative 0 18446744073709551615 two refl (omega arith)
      (omega arith)
