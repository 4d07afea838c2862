-- ===== src/Command/Examples.antt =====
-- Tests and examples for pkg/command/manager.go.
use mathlib.Core.Option
use quic_flow.Prelude.{◌≡◌, refl, true, none, some, List, [], ◌∷◌}
use quic_flow.Prelude.Text.{Text, text_eq}
use quic_flow.Prelude.Map.{lookup}
use quic_flow.Command.Manager.{
  pending, completed, Command, CommandManager, new_command_manager, sent, send_failed, ack_message,
  ack_success, respond, get_command, cancel_commands, cleanup,
}
use quic_flow.Command.Manager.History.{Event, send, answer, run, IsKept}
use quic_flow.Command.Manager.Cleanup.{left_of, cleanup-run, respond-cancelled}

abbrev c_id : Text
c_id = b'c' ∷ []

abbrev d_id : Text
d_id = b'd' ∷ []

-- One command is answered and one fails.
abbrev calls : List Event
calls =
    send sent c_id [] [] [] 0 1
    ∷ send (send_failed (b'x' ∷ [])) d_id [] [] [] 5 2
    ∷ answer c_id (ack_message ack_success (b'r' ∷ []) []) 3
    ∷ []

cleanup-run_example :
    IsKept (run calls new_command_manager).commands
    × (get_command c_id (cleanup 2000000000000 (run calls new_command_manager))
        ≡ left_of
            (run calls new_command_manager).max_command_age
            2000000000000
            (get_command c_id (run calls new_command_manager)))
cleanup-run_example = cleanup-run calls 2000000000000 c_id

abbrev waiting : Command
waiting = record {
  command_id = c_id;
  client_id = [];
  command_type = [];
  payload = [];
  status = pending;
  result = [];
  error = [];
  created_at = 1;
  sent_at = some 1;
  completed_at = none;
  timeout_after = 5;
}

abbrev handled : CommandManager
handled = record {
  commands = (c_id, waiting) ∷ [];
  has_handlers = true;
  completions = [];
  max_command_age = 10;
}

handled_found : get_command c_id handled ≡ some waiting
unfolding get_command lookup text_eq
handled_found = refl

respond-cancelled_example :
    (Option.map
        (λ (x : Command). x.status)
        (get_command c_id (
          respond c_id
            (ack_message ack_success [] [])
            3
            (cancel_commands [] (c_id ∷ []) 2 handled)))
      ≡ some completed)
    × ((respond c_id
          (ack_message ack_success [] [])
          3
          (cancel_commands [] (c_id ∷ []) 2 handled)).completions
        ≡ c_id ∷ c_id ∷ [])
respond-cancelled_example = respond-cancelled handled c_id [] [] waiting 2 3 handled_found refl refl
