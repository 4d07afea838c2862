-- ===== src/Command/Manager.antt =====
-- pkg/command/manager.go: the registry of commands. Sending, JSON and the promise are a parameter by
-- their outcomes. The new id of a command and the times are arguments. nil bytes and empty ones read
-- the same. Handlers of results run beside the manager: `completions` lists the commands that they
-- are called with, and stays empty where none is registered. Tasks to several clients stand only by
-- the ids of their commands, which CancelMultiCommand cancels.
pub mod History
pub mod Cleanup
use quic_flow.Prelude.{
  ℕ, ◌+◌, ◌-◌, ltb, ◌==◌, ◌&&◌, if◌then◌else◌, Bool, true, false, Option, none, some, List, [], ◌∷◌,
  ◌++◌, ◌*◌,
}
use quic_flow.Prelude.Text.{Text, is_empty}
use quic_flow.Prelude.Map.{Map, lookup, insert, delete, modify}

pub data CommandStatus : Type 0 where
  pending executing completed failed timeout cancelled : CommandStatus

pub record Command : Type 0 where
  pub command_id : Text
  pub client_id : Text
  pub command_type : Text
  pub payload : Text
  pub status : CommandStatus
  pub result : Text
  pub error : Text
  pub created_at : ℕ
  pub sent_at : Option ℕ
  pub completed_at : Option ℕ
  pub timeout_after : ℕ

pub record CommandManager : Type 0 where
  pub commands : Map Command
  pub has_handlers : Bool
  pub completions : List Text
  pub max_command_age : ℕ

abbrev second : ℕ
second = 1000000000

unfoldable pub new_command_manager : CommandManager
new_command_manager = record {
  commands = [];
  has_handlers = false;
  completions = [];
  max_command_age = 30 * 60 * second;
}

unfoldable pub register_result_handler : CommandManager → CommandManager
register_result_handler cm = record cm { has_handlers = true }

unfoldable pub is_final : CommandStatus → Bool
is_final pending = false
is_final executing = false
is_final completed = true
is_final failed = true
is_final timeout = true
is_final cancelled = true

-- The write to the command.
updated : CommandStatus → Text → Text → ℕ → Command → Command
unfolding is_final
updated status result error now c = record c {
  status = status;
  result = if is_empty result then c.result else result;
  error = if is_empty error then c.error else error;
  completed_at = if is_final status then some now else c.completed_at;
}

call_result_handlers : Text → CommandManager → CommandManager
call_result_handlers id cm =
    if cm.has_handlers then record cm { completions = cm.completions ++ (id ∷ []) } else cm

update_found :
    Option Command → Text → CommandStatus → Text → Text → ℕ → CommandManager → CommandManager
unfolding updated call_result_handlers is_final
update_found none id status result error now cm = cm
update_found (some c) id status result error now cm =
    let cm' = record cm { commands = modify id (updated status result error now) cm.commands } in
    if is_final status then call_result_handlers id cm' else cm'

unfoldable pub update_command_status :
    Text → CommandStatus → Text → Text → ℕ → CommandManager → CommandManager
unfolding update_found
update_command_status id status result error now cm =
    update_found (lookup id cm.commands) id status result error now cm

-- How sending goes: the error's text where the payload or the message fails.
pub data Sending : Type 0 where
  marshal_failed : Text → Sending
  send_failed : Text → Sending
  sent : Sending

new_command : Text → Text → Text → Text → ℕ → ℕ → Command
new_command id client command_type payload after now = record {
  command_id = id;
  client_id = client;
  command_type = command_type;
  payload = payload;
  status = pending;
  result = [];
  error = [];
  created_at = now;
  sent_at = none;
  completed_at = none;
  timeout_after = if after == 0 then 30 * second else after;
}

after_sending : Sending → Text → ℕ → CommandManager → CommandManager
unfolding update_command_status
after_sending (marshal_failed e) id now cm = update_command_status id failed [] e now cm
after_sending (send_failed e) id now cm = update_command_status id failed [] e now cm
after_sending sent id now cm = record cm {
  commands = modify id (λ c. record c { sent_at = some now }) cm.commands;
}

unfoldable pub send_command :
    Sending → Text → Text → Text → Text → ℕ → ℕ → CommandManager → CommandManager
unfolding new_command after_sending
send_command how id client command_type payload after now cm = after_sending how id now (record cm {
  commands = insert id (new_command id client command_type payload after now) cm.commands;
})

pub data AckStatus : Type 0 where
  ack_success ack_failure ack_timeout ack_other : AckStatus

-- What comes on the channel of the promise.
pub data Response : Type 0 where
  response_error : Text → Response
  ack_message : AckStatus → Text → Text → Response
  nothing : Response

-- "unknown ack status".
abbrev pub unknown_ack_status : Text
unknown_ack_status =
    b'u' ∷ b'n' ∷ b'k' ∷ b'n' ∷ b'o' ∷ b'w' ∷ b'n' ∷ b' ' ∷ b'a' ∷ b'c' ∷ b'k' ∷ b' ' ∷ b's' ∷ b't'
    ∷ b'a' ∷ b't' ∷ b'u' ∷ b's' ∷ []

-- waitForCommandResponse.
unfoldable pub respond : Text → Response → ℕ → CommandManager → CommandManager
unfolding update_command_status
respond id (response_error e) now cm = update_command_status id timeout [] e now cm
respond id (ack_message ack_success result e) now cm =
    update_command_status id completed result [] now cm
respond id (ack_message ack_failure result e) now cm =
    update_command_status id failed result e now cm
respond id (ack_message ack_timeout result e) now cm = update_command_status id timeout [] e now cm
respond id (ack_message ack_other result e) now cm =
    update_command_status id failed [] unknown_ack_status now cm
respond id nothing now cm = cm

unfoldable pub get_command : Text → CommandManager → Option Command
get_command id cm = lookup id cm.commands

cancel_as : Option Command → Text → Text → ℕ → CommandManager → CommandManager
unfolding update_command_status
cancel_as none text id now cm = cm
cancel_as (some c) text id now cm =
    if is_final c.status then cm else update_command_status id cancelled [] text now cm

-- The loop of CancelMultiCommand over the commands of a task; `text` is "Task cancelled".
unfoldable pub cancel_commands : Text → List Text → ℕ → CommandManager → CommandManager
unfolding cancel_as
cancel_commands text [] now cm = cm
cancel_commands text (id ∷ ids) now cm =
    cancel_commands text ids now (cancel_as (lookup id cm.commands) text id now cm)

-- now.Sub(*CompletedAt) > age, which is negative where the completion lies ahead.
unfoldable pub is_older : Option ℕ → ℕ → ℕ → Bool
is_older none age now = false
is_older (some at) age now = ltb (at + age) now

unfoldable pub is_expired : ℕ → ℕ → Command → Bool
unfolding is_older is_final
is_expired age now c = is_final c.status && is_older c.completed_at age now

unfoldable pub expired_ids : ℕ → ℕ → Map Command → List Text
unfolding is_expired
expired_ids age now [] = []
expired_ids age now ((id, c) ∷ m) =
    let rest = expired_ids age now m in if is_expired age now c then id ∷ rest else rest

unfoldable pub delete_each : List Text → Map Command → Map Command
delete_each [] m = m
delete_each (id ∷ ids) m = delete_each ids (delete id m)

unfoldable pub cleanup : ℕ → CommandManager → CommandManager
unfolding expired_ids delete_each
cleanup now cm = record cm {
  commands = delete_each (expired_ids cm.max_command_age now cm.commands) cm.commands;
}
