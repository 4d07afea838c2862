-- ===== src/Callback/Examples.antt =====
-- Tests and examples for pkg/callback.
use quic_flow.Prelude.{◌≡◌, refl, true, false, none, List, [], ◌∷◌, arith, keep}
use quic_flow.Prelude.Text.{Text, text_eq}
use quic_flow.Prelude.Word.{i64_leb}
use quic_flow.Prelude.Map.{lookup, insert, modify, listed}
use quic_flow.Callback.Promise.{Promise, acked, stopped, armed, new_promise, complete}
use quic_flow.Callback.Promise.Once.{
  completes, times_out, receives, fires, acts, decision, sent, acts-decision,
}
use quic_flow.Callback.Manager.{
  PromiseManager, new_promise_manager, complete_by_id, tick_removals, remove_all, delay_remove,
}
use quic_flow.Callback.Manager.Removals.{due_ids, not_due, tick_removals-keep}
use quic_flow.Callback.Manager.Counter.{Call, creates, IsCounted, run, drift, run-IsCounted}
use quic_flow.Callback.Manager.Delivery.{complete_by_id-removed, receive_all, lookup-tick_removals}

-- A late acknowledgement is not sent, however the receives fall.
acts-decision_example :
    sent (
      acts
        (receives ∷ fires 50 ∷ times_out ∷ completes 7 ∷ receives ∷ [])
        (record { promise = new_promise [] 50 0; received = [] }))
    ≡ decision (receives ∷ fires 50 ∷ times_out ∷ completes 7 ∷ receives ∷ [])
acts-decision_example =
    acts-decision (receives ∷ fires 50 ∷ times_out ∷ completes 7 ∷ receives ∷ []) [] 50 0

abbrev m_id : Text
m_id = b'm' ∷ []

abbrev n_id : Text
n_id = b'n' ∷ []

abbrev waiting : Promise
waiting = record {
  msg_id = m_id;
  resp_chan = [];
  timer = armed;
  deadline = 50;
  created_at = 0;
  completed = false;
}

abbrev answered : Promise
answered = record waiting { msg_id = n_id; resp_chan = acked 3 ∷ []; completed = true }

abbrev busy : PromiseManager
busy = record {
  promises = (m_id, waiting) ∷ (n_id, answered) ∷ [];
  count = 2;
  max_capacity = 10;
  default_timeout = 30;
  ready = [];
  pending = record { msg_id = n_id; remove_at = 5 } ∷ record { msg_id = m_id; remove_at = 9 } ∷ [];
  created = 2;
  completed = 1;
  timed_out = 0;
  has_hooks = true;
  timeouts_hooked = [];
}

tick_removals-keep_example : tick_removals 5 busy ≡ (
    let pm' = remove_all (due_ids 5 busy.pending) busy in
    record pm' { pending = keep (not_due 5) busy.pending })
tick_removals-keep_example = tick_removals-keep 5 busy

lookup-tick_removals_example : lookup n_id (tick_removals 5 busy).promises ≡ none
unfolding lookup text_eq listed
lookup-tick_removals_example = lookup-tick_removals 5 n_id busy (refl, (refl, tt))

-- Two calls of `Create` with one id: the counter is 2 and one promise is there.
abbrev twice : List Call
twice = creates m_id 0 0 ∷ creates m_id 0 0 ∷ []

run-IsCounted_example :
    IsCounted
      (drift twice (new_promise_manager 10 0 true))
      (run twice (new_promise_manager 10 0 true))
run-IsCounted_example = run-IsCounted twice 10 0 true (omega arith)

drift_of_twice : drift twice (new_promise_manager 10 0 true) ≡ 1
unfolding drift new_promise_manager lookup insert text_eq i64_leb
drift_of_twice = refl

-- After `Complete` of the waiting promise at time 20.
abbrev answering : PromiseManager
answering = record busy {
  promises =
      (m_id, record waiting { resp_chan = acked 7 ∷ []; timer = stopped; completed = true })
      ∷ (n_id, answered)
      ∷ [];
  ready = record { msg_id = m_id; remove_at = 100000020 } ∷ [];
  completed = 2;
}

complete_by_id-removed_example :
    lookup m_id (tick_removals 100000020 (receive_all 1 answering)).promises ≡ none
unfolding complete_by_id lookup text_eq modify delay_remove complete
complete_by_id-removed_example =
    complete_by_id-removed m_id 7 20 100000020 busy answering (refl, (refl, tt)) refl (omega arith)
