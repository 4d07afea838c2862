-- ===== src/Callback/Promise/Once.antt =====
-- A promise answers once (pkg/callback/promise.go).
use mathlib.Core.List.{append_assoc}
use quic_flow.Prelude.{
  ◌∙◌, ℕ, ◌≡◌, refl, arith, true, false, Option, none, some, List, [], ◌∷◌, ◌++◌,
}
use quic_flow.Prelude.Text.{Text}
use quic_flow.Callback.Promise.{
  Promise, Response, CallbackError, acked, failed, promise_timeout, new_promise, complete, timeout,
  fail, receive, fire,
}

-- What may happen to a promise, in any order.
pub data Action : Type 0 where
  completes : ℕ → Action
  fails : CallbackError → Action
  times_out receives : Action
  fires : ℕ → Action

-- The promise with the responses that were received, oldest first.
pub record Traced : Type 0 where
  pub promise : Promise
  pub received : List Response

receive_step : Traced → Promise × Option Response → Traced
receive_step t (p, none) = record t { promise = p }
receive_step t (p, some r) = record { promise = p; received = t.received ++ (r ∷ []) }

pub act : Action → Traced → Traced
unfolding receive_step
act (completes ack) t = record t { promise = (complete ack t.promise).0 }
act (fails e) t = record t { promise = (fail e t.promise).0 }
act times_out t = record t { promise = (timeout t.promise).0 }
act receives t = receive_step t (receive t.promise)
act (fires now) t = record t { promise = (fire now t.promise).0 }

pub acts : List Action → Traced → Traced
acts [] t = t
acts (a ∷ rest) t = acts rest (act a t)

-- The response of the first action that decides the promise.
pub decision : List Action → List Response
decision [] = []
decision (completes ack ∷ rest) = acked ack ∷ []
decision (fails e ∷ rest) = failed e ∷ []
decision (times_out ∷ rest) = failed promise_timeout ∷ []
decision (receives ∷ rest) = decision rest
decision (fires now ∷ rest) = decision rest

-- All that the promise ever sent, in order.
abbrev pub sent : Traced → List Response
sent t = t.received ++ t.promise.resp_chan

-- A decided promise sends nothing more.
decided_act :
    (a : Action) (t : Traced)
    → t.promise.completed ≡ true
    → ((act a t).promise.completed ≡ true) × (sent (act a t) ≡ sent t)
unfolding act complete fail timeout receive fire
decided_act (completes ack) t h = ground arith
decided_act (fails e) t h = ground arith
decided_act times_out t h = ground arith
decided_act receives t h = receive_lem t.promise.resp_chan t refl h
  where
    receive_lem :
        (rs : List Response) (t : Traced)
        → t.promise.resp_chan ≡ rs
        → t.promise.completed ≡ true
        → ((act receives t).promise.completed ≡ true) × (sent (act receives t) ≡ sent t)
    receive_lem [] t e h = ground arith
    receive_lem (r ∷ more) t e h =
        (rw (e, act, receive) h, rw (e, act, receive) (append_assoc t.received (r ∷ []) more))
decided_act (fires now) t h = ground arith

decided_acts :
    (rest : List Action) (t : Traced)
    → t.promise.completed ≡ true
    → ((acts rest t).promise.completed ≡ true) × (sent (acts rest t) ≡ sent t)
unfolding acts
decided_acts [] t h = (h, refl)
decided_acts (a ∷ rest) t h =
    let (d, e) = decided_act a t h in let (d', e') = decided_acts rest (act a t) d in (d', e' ∙ e)

-- Nothing is decided, and nothing was sent.
record IsOpen (t : Traced) : Type 0 where
  undecided : t.promise.completed ≡ false
  silent : t.promise.resp_chan ≡ []
  unheard : t.received ≡ []

open_acts : (rest : List Action) (t : Traced) → IsOpen t → sent (acts rest t) ≡ decision rest
unfolding acts act decision complete fail timeout receive fire
open_acts [] t o = rw (o.silent, o.unheard)
open_acts (completes ack ∷ rest) t o =
    (decided_acts rest (act (completes ack) t) (ground arith)).1 ∙ ground arith
open_acts (fails e ∷ rest) t o =
    (decided_acts rest (act (fails e) t) (ground arith)).1 ∙ ground arith
open_acts (times_out ∷ rest) t o =
    (decided_acts rest (act times_out t) (ground arith)).1 ∙ ground arith
open_acts (receives ∷ rest) t o = open_acts rest (act receives t) (ground arith)
open_acts (fires now ∷ rest) t o = open_acts rest (act (fires now) t) (ground arith)

-- Whatever acknowledgements, failures, timeouts, timer events and receives come, and in whatever
-- order, a new promise sends exactly one response: that of the first action that decides it. It
-- sends none if there is no such action.
pub acts-decision :
    (rest : List Action) (msg_id : Text) (timeout now : ℕ)
    → sent (acts rest (record { promise = new_promise msg_id timeout now; received = [] }))
      ≡ decision rest
unfolding new_promise
acts-decision rest msg_id timeout now =
    open_acts rest _ (record { undecided = refl; silent = refl; unheard = refl })
