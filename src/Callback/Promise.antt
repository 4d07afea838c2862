-- ===== src/Callback/Promise.antt =====
-- pkg/callback/promise.go and errors.go: one promise.
-- An acknowledgement is only passed on, so any number stands for it; so too for an error that a
-- caller of `Fail` hands in. The response channel has room for one response; a send beside a
-- `default` drops the response if the channel is full. The timer is armed until it fires or is
-- stopped; once fired it calls the callback of the manager and then `Timeout`, and between the two
-- other calls may come.
pub mod Once
use quic_flow.Prelude.{
  ℕ, suc, ltb, ◌+◌, if◌then◌else◌, Bool, true, false, Option, none, some, List, [], ◌∷◌, ◌++◌,
  length,
}
use quic_flow.Prelude.Text.{Text}

pub data CallbackError : Type 0 where
  promise_timeout promise_not_found promise_capacity_full already_completed : CallbackError
  given : ℕ → CallbackError

-- PromiseResponse: an acknowledgement and no error, or an error.
pub data Response : Type 0 where
  acked : ℕ → Response
  failed : CallbackError → Response

pub data Timer : Type 0 where
  armed stopped fired : Timer

pub record Promise : Type 0 where
  pub msg_id : Text
  pub resp_chan : List Response
  pub timer : Timer
  pub deadline : ℕ
  pub created_at : ℕ
  pub completed : Bool

-- The capacity of the response channel.
abbrev pub resp_room : ℕ
resp_room = 1

unfoldable pub new_promise : Text → ℕ → ℕ → Promise
new_promise msg_id timeout now = record {
  msg_id = msg_id;
  resp_chan = [];
  timer = armed;
  deadline = now + timeout;
  created_at = now;
  completed = false;
}

-- `select { case p.RespChan <- r: default: }`
send : Response → Promise → Promise
send r p =
    if ltb (length p.resp_chan) resp_room
    then record p { resp_chan = p.resp_chan ++ (r ∷ []) }
    else p

-- Timer.Stop has no effect on a timer that has fired.
stop_timer : Promise → Promise
stop_timer p = record p { timer = elim p.timer [ armed ↦ stopped | t ↦ t ] }

unfoldable pub complete : ℕ → Promise → Promise × Bool
unfolding send stop_timer
complete ack p =
    if p.completed
    then (p, false)
    else (send (acked ack) (stop_timer (record p { completed = true })), true)

unfoldable pub timeout : Promise → Promise × Bool
unfolding send
timeout p =
    if p.completed
    then (p, false)
    else (send (failed promise_timeout) (record p { completed = true }), true)

unfoldable pub fail : CallbackError → Promise → Promise × Bool
unfolding send stop_timer
fail e p =
    if p.completed
    then (p, false)
    else (send (failed e) (stop_timer (record p { completed = true })), true)

unfoldable pub is_completed : Promise → Bool
is_completed p = p.completed

-- The timer fires at its deadline, if it is still armed.
unfoldable pub fire : ℕ → Promise → Promise × Bool
fire now p = elim p.timer [
  | armed ↦ if ltb now p.deadline then (p, false) else (record p { timer = fired }, true)
  | _ ↦ (p, false)
]

-- A receive by the waiting caller, which takes the oldest response.
unfoldable pub receive : Promise → Promise × Option Response
receive p = elim p.resp_chan [ [] ↦ (p, none) | r ∷ rest ↦ (record p { resp_chan = rest }, some r) ]
