-- ===== src/Command/Multi/Examples.antt =====
-- Tests of commands to several clients, and the theorems of their responses at concrete calls.
use quic_flow.Prelude.{refl, true, false, none, some, List, [], ◌∷◌}
use quic_flow.Prelude.Text.{Text}
use quic_flow.Command.Manager.{Command, completed, cancelled}
use quic_flow.Command.Multi.{
  ClientCommandResult, begin, Flight, Event, launch, cancel, ended, step, run, task_stopped,
  command_error, task_cancelled, MultiCommandResponse, response, cancelled_unsent,
}
use quic_flow.Command.Multi.Responses.{Waited, Cut, response-Waited, response-Cut}

abbrev a : Text
a = 97 ∷ []

abbrev b : Text
b = 98 ∷ []

abbrev finished : Command
finished = record {
  command_id = 49 ∷ [];
  client_id = a;
  command_type = [];
  payload = [];
  status = completed;
  result = 50 ∷ [];
  error = [];
  created_at = 0;
  sent_at = some 0;
  completed_at = some 1;
  timeout_after = 30;
}

abbrev goes_well : Flight
goes_well = record {
  done_first = false;
  send_failure = [];
  sent = some (49 ∷ []);
  final_command = some finished;
  done_then = false;
}

-- Cancelled while the command is under way.
abbrev cut_short : Flight
cut_short = record {
  done_first = false;
  send_failure = [];
  sent = some (50 ∷ []);
  final_command = none;
  done_then = true;
}

abbrev one_cut_short : List Event
one_cut_short = launch ∷ launch ∷ ended 0 goes_well ∷ cancel ∷ ended 1 cut_short ∷ []

abbrev well : ClientCommandResult
well = record {
  client_id = a;
  command_id = some (49 ∷ []);
  status = completed;
  result = 50 ∷ [];
  error = command_error [];
}

abbrev stopped : ClientCommandResult
stopped = record {
  client_id = b;
  command_id = some (50 ∷ []);
  status = cancelled;
  result = [];
  error = task_cancelled;
}

-- The client whose command was cancelled counts as failed.
abbrev answer : MultiCommandResponse
answer = record {
  is_success = false;
  total = 2;
  success_count = 1;
  failed_count = 1;
  cancelled_count = 0;
  results = some well ∷ some stopped ∷ [];
  status = task_stopped;
}

response-Waited_example : (rs : List ClientCommandResult) × Waited (a ∷ b ∷ []) rs answer
unfolding run step begin response
response-Waited_example = response-Waited (a ∷ b ∷ []) one_cut_short answer refl refl

abbrev early_answer : MultiCommandResponse
early_answer = record {
  is_success = false;
  total = 2;
  success_count = 0;
  failed_count = 1;
  cancelled_count = 1;
  results = none ∷ cancelled_unsent (b ∷ []);
  status = task_stopped;
}

response-Cut_example :
    Cut (a ∷ b ∷ []) (run (launch ∷ cancel ∷ []) (begin (a ∷ b ∷ []))) early_answer
unfolding run step begin response
response-Cut_example = response-Cut (a ∷ b ∷ []) (launch ∷ cancel ∷ []) b [] early_answer refl refl
