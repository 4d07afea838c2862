-- ===== src/Command/Multi/Counts.antt =====
-- The counters of SendCommandToMultiple while a call goes on (pkg/command/manager.go).
use mathlib.Core.List.{append_assoc}
use quic_flow.Prelude.{
  ℕ, ◌+◌, ◌≡◌, refl, ap, sym, ◌∙◌, if◌then◌else◌, Bool, true, false, Option, none, some, List, [],
  ◌∷◌, ◌++◌,
}
use quic_flow.Prelude.Text.{Text}
use quic_flow.Command.Multi.{
  Launch, TaskStatus, task_running, task_completed, task_stopped, MultiCall, begin, Flight,
  counts_success, one_if, land_at, land_in, can_meet, land, launch_next, cancel_task, Event, launch,
  cancel, shut, ended, step, run,
}
use quic_flow.Command.Multi.Landing.{
  has_completed, gave_up, tally, landings, clients_of, result-has_completed, result-gave_up,
  clients-land_at, AreOwn, AreOwn-land_at, landings-launch, clients-launch, AreOwn-launch,
  tally-land_at,
}

-- The counters count the results so far, the clients keep their order, and each result is that of
-- its own client.
pub record IsTallied (clients : List Text) (s : MultiCall) : Type 0 where
  pub successes : s.success_count ≡ tally has_completed (landings s.launches)
  pub cancellations : s.cancelled_count ≡ tally gave_up (landings s.launches)
  pub in_order : clients_of s.launches ++ s.unsent ≡ clients
  pub own : AreOwn s.launches

land_in-IsTallied :
    (clients : List Text) (n : ℕ) (f : Flight) (s : MultiCall) (o : Option (List Launch))
    → land_at n f s.launches ≡ o
    → IsTallied clients s
    → IsTallied clients (land_in s f o)
unfolding land_in
land_in-IsTallied clients n f s none e t = t
land_in-IsTallied clients n f s (some ls) e t = record {
  successes =
      ap (λ k. k + one_if (counts_success f.sent f)) t.successes
      ∙ sym (tally-land_at has_completed _ f (result-has_completed f) n s.launches ls e);
  cancellations =
      ap (λ k. k + one_if f.done_first) t.cancellations
      ∙ sym (tally-land_at gave_up _ f (result-gave_up f) n s.launches ls e);
  in_order = ap (λ cs. cs ++ s.unsent) (clients-land_at f n s.launches ls e) ∙ t.in_order;
  own = AreOwn-land_at f n s.launches ls t.own e;
}

launch_next-IsTallied :
    (clients unsent : List Text) (s : MultiCall)
    → s.unsent ≡ unsent
    → IsTallied clients s
    → IsTallied clients (launch_next unsent s)
unfolding launch_next
launch_next-IsTallied clients [] s e t = t
launch_next-IsTallied clients (c ∷ cs) s e t =
    let same = landings-launch c s.launches in
    record {
      successes = t.successes ∙ ap (tally has_completed) (sym same);
      cancellations = t.cancellations ∙ ap (tally gave_up) (sym same);
      in_order =
          ap (λ l. l ++ cs) (clients-launch c s.launches)
          ∙ append_assoc (clients_of s.launches) (c ∷ []) cs
          ∙ ap (λ l. clients_of s.launches ++ l) (sym e)
          ∙ t.in_order;
      own = AreOwn-launch c s.launches t.own;
    }

cancel_task-IsTallied :
    (clients : List Text) (st : TaskStatus) (s : MultiCall)
    → IsTallied clients s
    → IsTallied clients (cancel_task st s)
unfolding cancel_task
cancel_task-IsTallied clients task_running s t = record {
  successes = t.successes;
  cancellations = t.cancellations;
  in_order = t.in_order;
  own = t.own;
}
cancel_task-IsTallied clients task_completed s t = t
cancel_task-IsTallied clients task_stopped s t = t

either : {A : Type 0} (P : A → Type 0) (b : Bool) (x y : A) → P x → P y → P (if b then x else y)
either P true x y p q = p
either P false x y p q = q

step-IsTallied :
    (clients : List Text) (e : Event) (s : MultiCall)
    → IsTallied clients s
    → IsTallied clients (step e s)
unfolding step land
step-IsTallied clients launch s t =
    either (IsTallied clients) s.is_done s (launch_next s.unsent s) t
      (launch_next-IsTallied clients s.unsent s refl t)
step-IsTallied clients cancel s t = cancel_task-IsTallied clients s.task_status s t
step-IsTallied clients shut s t = record {
  successes = t.successes;
  cancellations = t.cancellations;
  in_order = t.in_order;
  own = t.own;
}
step-IsTallied clients (ended n f) s t =
    either (IsTallied clients) (can_meet s.is_done f) (land_in s f (land_at n f s.launches)) s
      (land_in-IsTallied clients n f s (land_at n f s.launches) refl t) t

pub begin-IsTallied : (clients : List Text) → IsTallied clients (begin clients)
unfolding clients_of landings AreOwn begin
begin-IsTallied clients = record {
  successes = refl;
  cancellations = refl;
  in_order = refl;
  own = tt;
}

pub run-IsTallied :
    (clients : List Text) (es : List Event) (s : MultiCall)
    → IsTallied clients s
    → IsTallied clients (run es s)
unfolding run
run-IsTallied clients [] s t = t
run-IsTallied clients (e ∷ es) s t =
    run-IsTallied clients es (step e s) (step-IsTallied clients e s t)
