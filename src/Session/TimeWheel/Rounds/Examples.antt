-- ===== src/Session/TimeWheel/Rounds/Examples.antt =====
-- Tests and examples for pkg/session/timewheel.go.
use quic_flow.Prelude.{◌==◌, ◌≡◌, refl, false, Option, none, some, List, [], ◌∷◌, arith, suc}
use quic_flow.Prelude.Text.{Text, text_eq}
use quic_flow.Prelude.Word.{i64_leb, i32_leb}
use quic_flow.Prelude.Map.{lookup, insert, delete, modify, listed}
use quic_flow.Session.Client.{connected, get_time_since_last_heartbeat}
use quic_flow.Session.Manager.{SessionManager, get, is_stale, calm}
use quic_flow.Session.TimeWheel.{
  TimeWheel, new_time_wheel, register, update_heartbeat, unregister, leave_slot, leave_from, forget,
  with_id, without, advance, is_due, expired_clients,
}
use quic_flow.Session.TimeWheel.Rounds.{
  on_tick, process_expired_sessions, visit, visit_found, and_then,
}
use quic_flow.Session.TimeWheel.Rounds.History.{
  Event, joins, beats, ticks, run, step, next_manager, run_on_time,
}

abbrev a_id : Text
a_id = b'a' ∷ []

abbrev b_id : Text
b_id = b'b' ∷ []

abbrev wheel : TimeWheel
wheel = new_time_wheel 4 1 3 0 false

abbrev registry : SessionManager
registry = record {
  sessions =
      (
        a_id,
        record {
          client_id = a_id;
          conn = none;
          connected_at = 0;
          last_heartbeat = 0;
          timeout_count = 0;
          state = connected;
          metadata = none;
          cached_remote_addr = [];
        },
      )
      ∷ [];
  count = 1;
  heartbeat_interval = 5;
  heartbeat_timeout = 45;
  max_timeout_count = 3;
  has_hooks = false;
  events = [];
}

-- Session a joins, b joins a tick later and sends a heartbeat after another tick.
abbrev events : List Event
events = joins a_id ∷ ticks 1 ∷ joins b_id ∷ ticks 2 ∷ beats b_id ∷ ticks 3 ∷ ticks 4 ∷ []

abbrev after : Option (TimeWheel × SessionManager) → TimeWheel
after none = wheel
after (some (tw, _)) = tw

abbrev end : TimeWheel
end = after (run events (some (wheel, registry)))

end_tick : end.tick ≡ 4
unfolding run step next_manager on_tick process_expired_sessions visit visit_found and_then register
    update_heartbeat unregister leave_slot leave_from forget with_id without advance is_due
    expired_clients lookup insert delete text_eq new_time_wheel i64_leb get is_stale
    get_time_since_last_heartbeat modify calm i32_leb
end_tick = refl

run_on_time_example : listed b_id (expired_clients (advance end)) ≡ (5 == suc end.tick)
unfolding run step next_manager on_tick process_expired_sessions visit visit_found and_then register
    update_heartbeat unregister leave_slot leave_from forget with_id without advance is_due
    expired_clients lookup insert delete text_eq new_time_wheel i64_leb get is_stale
    get_time_since_last_heartbeat modify calm i32_leb
run_on_time_example =
    run_on_time events 4 1 3 0 false registry registry end b_id 5 (omega arith) refl refl
      (omega arith) (omega arith)
