-- ===== src/Command/Multi.antt =====
-- SendCommandToMultiple of pkg/command/manager.go: a command to several clients, one goroutine each.
-- A call goes on by events, in any order: the loop launches the next client, a goroutine ends, the
-- task is cancelled. What a goroutine meets (Flight) is an argument, the sending and the wait for the
-- command among it. Errors are values of a type; the texts of the response and the removal of the
-- task five minutes later are left out.
pub mod Landing
pub mod Counts
pub mod Responses
mod Examples
use quic_flow.Prelude.{
  ℕ, zero, suc, ◌+◌, ◌-◌, ◌==◌, ◌&&◌, ◌||◌, not, if◌then◌else◌, Bool, true, false, Option, none,
  some, List, [], ◌∷◌, ◌++◌, map, length,
}
use quic_flow.Prelude.Text.{Text}
use quic_flow.Command.Manager.{
  Command, CommandStatus, pending, executing, completed, failed, timeout, cancelled,
}

pub data MultiError : Type 0 where
  no_error task_cancelled cancelled_before_sending result_missing : MultiError
  send_error command_error : Text → MultiError

pub record ClientCommandResult : Type 0 where
  pub client_id : Text
  pub command_id : Option Text  -- none is ""
  pub status : CommandStatus
  pub result : Text
  pub error : MultiError

-- The goroutine of a client: it is under way, and its entry of the results is nil, or it has ended.
pub data Progress : Type 0 where
  flying : Progress
  landed : ClientCommandResult → Progress

pub record Launch : Type 0 where
  pub client : Text
  pub progress : Progress

pub data TaskStatus : Type 0 where
  task_running task_completed task_stopped : TaskStatus  -- the last one is "cancelled"

pub record MultiCall : Type 0 where
  pub launches : List Launch  -- in the order of the clients
  pub unsent : List Text
  pub success_count : ℕ
  pub cancelled_count : ℕ
  pub is_done : Bool  -- of the task's context
  pub task_status : TaskStatus

unfoldable pub begin : List Text → MultiCall
begin clients = record {
  launches = [];
  unsent = clients;
  success_count = 0;
  cancelled_count = 0;
  is_done = false;
  task_status = task_running;
}

-- The context at the first check, the id of the command unless sending fails, the command that the
-- wait gives, if any, and the context behind the wait.
pub record Flight : Type 0 where
  pub done_first : Bool
  pub send_failure : Text
  pub sent : Option Text
  pub final_command : Option Command
  pub done_then : Bool

blank : Text → ClientCommandResult
blank c = record {
  client_id = c;
  command_id = none;
  status = pending;
  result = [];
  error = no_error;
}

given_up : MultiError → ClientCommandResult → ClientCommandResult
given_up e r = record r { status = cancelled; error = e }

after_wait : Option Command → Bool → ClientCommandResult → ClientCommandResult
unfolding given_up
after_wait none true r = given_up task_cancelled r
after_wait none false r = record r { status = timeout; error = result_missing }
after_wait (some cmd) true r = given_up task_cancelled r
after_wait (some cmd) false r = record r {
  status = cmd.status;
  result = cmd.result;
  error = command_error cmd.error;
}

after_sending : Option Text → Flight → ClientCommandResult → ClientCommandResult
unfolding after_wait
after_sending none f r = record r { status = failed; error = send_error f.send_failure }
after_sending (some id) f r =
    after_wait f.final_command f.done_then (record r { command_id = some id })

-- The result that a goroutine writes.
unfoldable pub result_of : Flight → Text → ClientCommandResult
unfolding blank given_up after_sending
result_of f c =
    if f.done_first then given_up task_cancelled (blank c) else after_sending f.sent f (blank c)

unfoldable pub is_completed : CommandStatus → Bool
is_completed completed = true
is_completed _ = false

succeeded : Option Command → Bool
unfolding is_completed
succeeded none = false
succeeded (some cmd) = is_completed cmd.status

-- Whether a goroutine counts a success.
pub counts_success : Option Text → Flight → Bool
unfolding succeeded
counts_success none f = false
counts_success (some id) f = not f.done_first && succeeded f.final_command && not f.done_then

pub one_if : Bool → ℕ
one_if true = 1
one_if false = 0

behind : Launch → Option (List Launch) → Option (List Launch)
behind l none = none
behind l (some ls) = some (l ∷ ls)

land_one : Flight → Text → Progress → List Launch → Option (List Launch)
unfolding result_of
land_one f c flying ls = some (record { client = c; progress = landed (result_of f c) } ∷ ls)
land_one f c (landed r) ls = none

-- The write at an index, for a goroutine that is under way.
pub land_at : ℕ → Flight → List Launch → Option (List Launch)
unfolding land_one behind
land_at n f [] = none
land_at zero f (l ∷ ls) = land_one f l.client l.progress ls
land_at (suc n) f (l ∷ ls) = behind l (land_at n f ls)

land_in : MultiCall → Flight → Option (List Launch) → MultiCall
unfolding one_if counts_success
land_in s f none = s
land_in s f (some ls) = record s {
  launches = ls;
  success_count = s.success_count + one_if (counts_success f.sent f);
  cancelled_count = s.cancelled_count + one_if f.done_first;
}

-- A context that is done stays so.
can_meet : Bool → Flight → Bool
can_meet is_done f = is_done || not (f.done_first || f.done_then)

land : ℕ → Flight → MultiCall → MultiCall
unfolding land_at land_in can_meet
land n f s = if can_meet s.is_done f then land_in s f (land_at n f s.launches) else s

launch_next : List Text → MultiCall → MultiCall
launch_next [] s = s
launch_next (c ∷ cs) s = record s {
  launches = s.launches ++ (record { client = c; progress = flying } ∷ []);
  unsent = cs;
}

-- CancelMultiCommand's part; it refuses a task that is not running.
cancel_task : TaskStatus → MultiCall → MultiCall
cancel_task task_running s = record s { is_done = true; task_status = task_stopped }
cancel_task task_completed s = s
cancel_task task_stopped s = s

-- `shut` is the end of the manager's own context, in Stop.
pub data Event : Type 0 where
  launch cancel shut : Event
  ended : ℕ → Flight → Event

unfoldable pub step : Event → MultiCall → MultiCall
unfolding launch_next cancel_task land
step launch s = if s.is_done then s else launch_next s.unsent s
step cancel s = cancel_task s.task_status s
step shut s = record s { is_done = true }
step (ended n f) s = land n f s

unfoldable pub run : List Event → MultiCall → MultiCall
unfolding step
run [] s = s
run (e ∷ es) s = run es (step e s)

-- The results of the clients that the loop has not reached when it finds the context done.
pub cancelled_unsent : List Text → List (Option ClientCommandResult)
unfolding given_up blank
cancelled_unsent [] = []
cancelled_unsent (c ∷ cs) = some (given_up cancelled_before_sending (blank c)) ∷ cancelled_unsent cs

entry : Progress → Option ClientCommandResult
entry flying = none
entry (landed r) = some r

pub entries : List Launch → List (Option ClientCommandResult)
unfolding entry
entries [] = []
entries (l ∷ ls) = entry l.progress ∷ entries ls

pub record MultiCommandResponse : Type 0 where
  pub is_success : Bool
  pub total : ℕ
  pub success_count : ℕ
  pub failed_count : ℕ
  pub cancelled_count : ℕ
  pub results : List (Option ClientCommandResult)
  pub status : TaskStatus

-- Behind `done`; the differences of ints are at least 0 (Counts).
respond : ℕ → MultiCall → List (Option ClientCommandResult) → MultiCommandResponse
respond cancelled_count s results =
    let total = length s.launches + length s.unsent in
    let failed_count = total - s.success_count - cancelled_count in
    record {
      is_success = (failed_count == 0) && (cancelled_count == 0);
      total = total;
      success_count = s.success_count;
      failed_count = failed_count;
      cancelled_count = cancelled_count;
      results = results;
      status = if cancelled_count == 0 then s.task_status else task_stopped;
    }

is_landed : Progress → Bool
is_landed flying = false
is_landed (landed _) = true

are_landed : List Launch → Bool
unfolding is_landed
are_landed [] = true
are_landed (l ∷ ls) = is_landed l.progress && are_landed ls

loop_end : List Text → MultiCall → Option MultiCommandResponse
unfolding respond are_landed cancelled_unsent entries
loop_end [] s =
    if are_landed s.launches then some (respond s.cancelled_count s (entries s.launches)) else none
loop_end (c ∷ cs) s =
    if s.is_done
    then some (respond (length (c ∷ cs)) s (entries s.launches ++ cancelled_unsent (c ∷ cs)))
    else none

-- The response, once the call gives one: when all goroutines have ended, and at once when the loop
-- finds the context done before the last client.
unfoldable pub response : MultiCall → Option MultiCommandResponse
unfolding loop_end
response s = loop_end s.unsent s
