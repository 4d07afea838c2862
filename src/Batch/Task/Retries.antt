-- ===== src/Batch/Task/Retries.antt =====
-- The retries of executeTask (pkg/batch/executor.go): which attempts are made and which one decides.
use quic_flow.Prelude.{
  ℕ, zero, suc, ◌+◌, ◌≤◌, ◌<◌, ◌≡◌, refl, ◌∙◌, if◌then◌else◌, Bool, true, false, not, none, some,
  [], arith, inl, inr, ◌⊎◌,
}
use quic_flow.Prelude.Text.{Text}
use quic_flow.Batch.Task.{
  TaskError, context_ended, ended, answered_error, acked, answered_empty, timed_out, Attempt,
  not_sent, sent, TaskResult, Verdict, retry, give_up, succeed, on_reply, on_ack, verdict,
  note_reply, noted, Outcome, succeeded, failed, fail_with, on_verdict, is_over, try_from,
  execute_task,
}

-- What the client says of its success.
unfoldable pub reported : Bool → Attempt → Bool
reported wait (not_sent e) = false
reported wait (sent (acked said _ _)) = if wait then said else true
reported wait (sent ended) = not wait
reported wait (sent (answered_error e)) = not wait
reported wait (sent answered_empty) = not wait
reported wait (sent timed_out) = not wait

abbrev pub result_of : Outcome → TaskResult
result_of (succeeded r) = r
result_of (failed r) = r

module _ (wait : Bool) (attempts : ℕ → Attempt) (ends : ℕ → Bool) (max_retries : ℕ) where
  -- The attempt at an index fails, and the context does not end before the next.
  abbrev pub IsRetried : ℕ → Type 0
  IsRetried j = ((e : TaskError) × (verdict wait (attempts j) ≡ retry e)) × (ends (suc j) ≡ false)

  -- What decides: a success, a context that ends while the response is awaited, the last attempt,
  -- or a context that ends before the next attempt.
  abbrev pub IsDecided : Outcome → Type 0
  IsDecided (succeeded r) =
      (verdict wait (attempts r.retry_count) ≡ succeed)
      × (r.success ≡ reported wait (attempts r.retry_count))
  IsDecided (failed r) =
      (e : TaskError) × (r.success ≡ false)
      × (r.error ≡ some e)
      × ((verdict wait (attempts r.retry_count) ≡ give_up e)
          ⊎ (((verdict wait (attempts r.retry_count) ≡ retry e) × (r.retry_count ≡ max_retries))
              ⊎ ((e ≡ context_ended)
                  × (ends (suc r.retry_count) ≡ true)
                  × (r.retry_count < max_retries))))

  pub record IsTried (client : Text) (o : Outcome) : Type 0 where
    pub client_id : (result_of o).client_id ≡ client
    pub bounded : (result_of o).retry_count ≤ max_retries
    pub retried : (j : ℕ) → j < (result_of o).retry_count → IsRetried j
    pub decided : IsDecided o

noted-fields :
    (wait : Bool) (a : Attempt) (r : TaskResult)
    → ((noted wait a r).client_id ≡ r.client_id) × ((noted wait a r).retry_count ≡ r.retry_count)
unfolding noted note_reply
noted-fields wait (not_sent e) r = (refl, refl)
noted-fields true (sent (acked said b t)) r = (refl, refl)
noted-fields true (sent ended) r = (refl, refl)
noted-fields true (sent (answered_error e)) r = (refl, refl)
noted-fields true (sent answered_empty) r = (refl, refl)
noted-fields true (sent timed_out) r = (refl, refl)
noted-fields false (sent reply) r = (refl, refl)

-- An attempt that succeeds leaves what the client said.
noted-reported :
    (wait : Bool) (a : Attempt) (r : TaskResult)
    → r.success ≡ false
    → verdict wait a ≡ succeed
    → (noted wait a r).success ≡ reported wait a
unfolding noted note_reply reported verdict on_reply on_ack
noted-reported wait (not_sent e) r h v = absurd (ground arith)
noted-reported true (sent (acked said b t)) r h v = refl
noted-reported true (sent ended) r h v = absurd (ground arith)
noted-reported true (sent (answered_error e)) r h v = absurd (ground arith)
noted-reported true (sent answered_empty) r h v = h
noted-reported true (sent timed_out) r h v = absurd (ground arith)
noted-reported false (sent reply) r h v = ground arith

noted-retry :
    (wait : Bool) (a : Attempt) (r : TaskResult) (e : TaskError)
    → r.success ≡ false
    → verdict wait a ≡ retry e
    → (noted wait a r).success ≡ false
unfolding noted note_reply verdict on_reply on_ack
noted-retry wait (not_sent x) r e h v = h
noted-retry true (sent (acked true b t)) r e h v = absurd (ground arith)
noted-retry true (sent (acked false b t)) r e h v = refl
noted-retry true (sent ended) r e h v = h
noted-retry true (sent (answered_error x)) r e h v = h
noted-retry true (sent answered_empty) r e h v = h
noted-retry true (sent timed_out) r e h v = h
noted-retry false (sent reply) r e h v = absurd (ground arith)

either :
    (P : Outcome → Type 0) (b : Bool) (x y : Outcome)
    → (b ≡ true → P x)
    → (b ≡ false → P y)
    → P (elim b [ true ↦ x | false ↦ y ])
either P true x y f g = f refl
either P false x y f g = g refl

split_last : (j m : ℕ) → j < suc m → (j < m) ⊎ (j ≡ m)
split_last j m lt = ground arith

module _ (wait : Bool) (attempts : ℕ → Attempt) (ends : ℕ → Bool) (max_retries : ℕ)
    (client : Text) where
  Goal : Outcome → Type 0
  Goal o = IsTried wait attempts ends max_retries client o

  Earlier : ℕ → Type 0
  Earlier i = (j : ℕ) → j < i → IsRetried wait attempts ends max_retries j

  -- The pass at an index, once those after it are known to be right.
  pass-Goal :
      (i : ℕ) (v : Verdict) (next : TaskError → TaskResult → Outcome) (r : TaskResult)
      → verdict wait (attempts i) ≡ v
      → i ≤ max_retries
      → r.client_id ≡ client
      → r.success ≡ false
      → Earlier i
      → ((e : TaskError) (r' : TaskResult)
          → verdict wait (attempts i) ≡ retry e
          → r'.client_id ≡ client
          → r'.retry_count ≡ i
          → r'.success ≡ false
          → Goal (next e r'))
      → Goal (on_verdict v next (noted wait (attempts i) (record r { retry_count = i })))
  unfolding Goal Earlier on_verdict fail_with
  pass-Goal i succeed next r v few c s earlier later =
      let (c', n) = noted-fields wait (attempts i) (record r { retry_count = i }) in
      record {
        client_id = c' ∙ c;
        bounded = rw n few;
        retried = λ j lt. earlier j (rw⁻¹ n lt);
        decided =
            (rw n v, rw n (noted-reported wait (attempts i) (record r { retry_count = i }) s v));
      }
  pass-Goal i (give_up e) next r v few c s earlier later =
      let (c', n) = noted-fields wait (attempts i) (record r { retry_count = i }) in
      record {
        client_id = c' ∙ c;
        bounded = rw n few;
        retried = λ j lt. earlier j (rw⁻¹ n lt);
        decided = (e, refl, refl, inl (rw n v));
      }
  pass-Goal i (retry e) next r v few c s earlier later =
      let (c', n) = noted-fields wait (attempts i) (record r { retry_count = i }) in
      later e (noted wait (attempts i) (record r { retry_count = i })) v (c' ∙ c) n
        (noted-retry wait (attempts i) (record r { retry_count = i }) e s v)

  -- The loop behind an attempt `m` that failed.
  try_from-Goal :
      (k m : ℕ) (last : TaskError) (r : TaskResult)
      → k + m ≡ max_retries
      → verdict wait (attempts m) ≡ retry last
      → r.client_id ≡ client
      → r.retry_count ≡ m
      → r.success ≡ false
      → Earlier m
      → Goal (try_from wait attempts ends k (suc m) last r)
  unfolding Goal Earlier try_from is_over fail_with
  try_from-Goal zero m last r all v c n s earlier = record {
    client_id = c;
    bounded = omega arith;
    retried = λ j lt. earlier j (rw⁻¹ n lt);
    decided = (last, refl, refl, inr (inl (rw n v, omega arith)));
  }
  try_from-Goal (suc k) m last r all v c n s earlier =
      either Goal (ends (suc m)) (fail_with context_ended r)
        (on_verdict (verdict wait (attempts (suc m))) (try_from wait attempts ends k (suc (suc m)))
          (noted wait (attempts (suc m)) (record r { retry_count = suc m })))
        (λ over. record {
          client_id = c;
          bounded = omega arith;
          retried = λ j lt. earlier j (rw⁻¹ n lt);
          decided = (context_ended, refl, refl, inr (inr (refl, rw n over, omega arith)));
        })
        (λ going.
          let here : Earlier (suc m) = λ j lt. elim (split_last j m lt) [
            | inl before ↦ earlier j before
            | inr same ↦ rw same ((last, v), going)
          ] in
          pass-Goal (suc m) (verdict wait (attempts (suc m)))
            (try_from wait attempts ends k (suc (suc m))) r refl (omega arith) c s here
            (λ e r' v' c' n' s'. try_from-Goal k (suc m) e r' (omega arith) v' c' n' s' here))

  -- A task ends after one attempt more than the retries at most. All attempts but the last failed
  -- and were followed by another. It succeeds with the first attempt that is not retried, and notes
  -- what the client said of it; it fails with the error of the last attempt, or with that of a
  -- context that ends while it waits.
  pub execute_task-IsTried :
      IsTried wait attempts ends max_retries client
        (execute_task wait attempts ends max_retries client)
  unfolding execute_task try_from is_over Goal Earlier
  execute_task-IsTried =
      pass-Goal 0 (verdict wait (attempts 0)) (try_from wait attempts ends max_retries 1)
        (record { client_id = client; success = false; result = []; error = none; retry_count = 0 })
        refl (omega arith) refl refl (λ j lt. absurd (omega arith))
        (λ e r' v c n s.
          try_from-Goal max_retries 0 e r' (omega arith) v c n s (λ j lt. absurd (omega arith)))
