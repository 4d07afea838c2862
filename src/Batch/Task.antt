-- ===== src/Batch/Task.antt =====
-- executeTask of pkg/batch/executor.go: one client's part of a job, with its retries.
-- What the sender and the client do is an argument: for each attempt how it went, and for each retry
-- whether the job's context ends in the interval before it. An error of the sender or of a promise
-- is known by a number. MaxRetries is not negative here. Durations are left out.
pub mod Retries
use quic_flow.Prelude.{
  ℕ, zero, suc, ◌+◌, ◌≤◌, ◌<◌, ◌≡◌, refl, ltb, ◌&&◌, if◌then◌else◌, Bool, Bool-cases, true, false,
  not, Option, none, some, [], arith, inl, inr, ◌⊎◌,
}
use quic_flow.Prelude.Text.{Text, is_empty}

pub data TaskError : Type 0 where
  send_error : ℕ → TaskError
  promise_error : ℕ → TaskError
  ack_error : Text → TaskError
  no_response : TaskError
  context_ended : TaskError

-- How the wait for the response ends: `acked` has whether the client reports success, its result and
-- its error's text.
pub data Reply : Type 0 where
  ended : Reply
  answered_error : ℕ → Reply
  acked : Bool → Text → Text → Reply
  answered_empty : Reply
  timed_out : Reply

-- One attempt; the reply counts only where the task awaits it.
pub data Attempt : Type 0 where
  not_sent : ℕ → Attempt
  sent : Reply → Attempt

pub record TaskResult : Type 0 where
  pub client_id : Text
  pub success : Bool
  pub result : Text
  pub error : Option TaskError
  pub retry_count : ℕ

-- `continue` with an error, `goto failed` and `goto success`.
pub data Verdict : Type 0 where
  retry : TaskError → Verdict
  give_up : TaskError → Verdict
  succeed : Verdict

on_ack : Bool → Text → Verdict
on_ack yes_said text =
    if not yes_said && not (is_empty text) then retry (ack_error text) else succeed

on_reply : Reply → Verdict
unfolding on_ack
on_reply ended = give_up context_ended
on_reply (answered_error e) = retry (promise_error e)
on_reply (acked said _ text) = on_ack said text
on_reply answered_empty = succeed
on_reply timed_out = retry no_response

unfoldable pub verdict : Bool → Attempt → Verdict
unfolding on_reply
verdict wait (not_sent e) = retry (send_error e)
verdict wait (sent r) = if wait then on_reply r else succeed

note_reply : Reply → TaskResult → TaskResult
note_reply (acked said data_sent text) r = record r { success = said; result = data_sent }
note_reply _ r = r

-- What an attempt writes to the result.
unfoldable pub noted : Bool → Attempt → TaskResult → TaskResult
unfolding note_reply
noted wait (not_sent e) r = r
noted wait (sent reply) r = if wait then note_reply reply r else record r { success = true }

pub data Outcome : Type 0 where
  succeeded : TaskResult → Outcome
  failed : TaskResult → Outcome

fail_with : TaskError → TaskResult → Outcome
fail_with e r = failed (record r { success = false; error = some e })

on_verdict : Verdict → (TaskError → TaskResult → Outcome) → TaskResult → Outcome
unfolding fail_with
on_verdict succeed next r = succeeded r
on_verdict (give_up e) next r = fail_with e r
on_verdict (retry e) next r = next e r

module _ (wait : Bool) (attempts : ℕ → Attempt) (ends : ℕ → Bool) where
  -- Whether the context ends in the interval before a retry; there is none before the first attempt.
  is_over : ℕ → Bool
  is_over zero = false
  is_over (suc i) = ends (suc i)

  -- The loop from retry `i` on, with `k` passes left; `last` is lastErr.
  try_from : ℕ → ℕ → TaskError → TaskResult → Outcome
  unfolding fail_with noted verdict on_verdict is_over
  try_from zero i last r = fail_with last r
  try_from (suc k) i last r = elim (is_over i) [
    | true ↦ fail_with context_ended r
    | false ↦
        on_verdict (verdict wait (attempts i)) (try_from k (suc i))
          (noted wait (attempts i) (record r { retry_count = i }))
  ]

  -- The first pass always comes, so that the error given here is never the last.
  unfoldable pub execute_task : ℕ → Text → Outcome
  unfolding try_from
  execute_task max_retries client =
      try_from (suc max_retries) 0 no_response
        (record { client_id = client; success = false; result = []; error = none; retry_count = 0 })
