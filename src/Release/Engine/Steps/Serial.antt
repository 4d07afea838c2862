-- ===== src/Release/Engine/Steps/Serial.antt =====
-- How many runs a release has at a time (pkg/release/engine/engine.go).
use mathlib.Core.Path.{subst}
use quic_flow.Prelude.{
  suc, ◌≤◌, Bool, true, false, if◌then◌else◌, length, arith, ◌≡◌, refl, ap, sym, inl, inr, ◌⊎◌,
  Option, some, List, [], ◌∷◌, ◌++◌,
}
use quic_flow.Release.Engine.{ReleaseStatus, running, paused, cancelled, Release}
use quic_flow.Release.Engine.Calls.{
  ApprovalStatus, start_release, MayStart, start_release-MayStart, promote_canary-paused,
  cancel_release-MayCancel,
}
use quic_flow.Release.Engine.Steps.{
  CallUnderWay, World, at_rest, begun_by, call_done, Step, start_query, cancel_query, promote_query,
  call_save, call_error, save_step, end_step, Reaches, here, onward,
}

-- Histories in which no two calls are ever under way at once.
pub data SerialReaches (w : World) : World → Type 0 where
  rest : SerialReaches w w
  next :
      {w1 w2 : World} → SerialReaches w w1 → Step w1 w2 → length w2.calls ≤ 1 → SerialReaches w w2

-- A run that goes on: it is the only one, and the database has the release as running, or as
-- cancelled behind the run's back.
abbrev pub Alone : ReleaseStatus → List Release → Type 0
Alone st [] = Unit
Alone st (rel ∷ []) = (rel.status ≡ running) × ((st ≡ running) ⊎ (st ≡ cancelled))
Alone st (rel ∷ rel' ∷ rels) = ⊥

abbrev pub OneRun : World → Type 0
OneRun w = Alone w.stored.status w.runs

idle :
    (st : ReleaseStatus) (rels : List Release)
    → Alone st rels
    → ((st ≡ running) ⊎ (st ≡ cancelled) → ⊥)
    → rels ≡ []
idle st [] h no_run = refl
idle st (rel ∷ []) (h, now) no_run = absurd (no_run now)
idle st (rel ∷ rel' ∷ rels) h no_run = absurd h

MayStart-idle :
    (st : ReleaseStatus) (approval : Option ApprovalStatus)
    → MayStart st approval
    → (st ≡ running) ⊎ (st ≡ cancelled)
    → ⊥
MayStart-idle st approval (inl e) (inl e2) = cc (e, e2)
MayStart-idle st approval (inl e) (inr e2) = cc (e, e2)
MayStart-idle st approval (inr (e, a)) (inl e2) = cc (e, e2)
MayStart-idle st approval (inr (e, a)) (inr e2) = cc (e, e2)

paused-idle : (st : ReleaseStatus) → st ≡ paused → (st ≡ running) ⊎ (st ≡ cancelled) → ⊥
paused-idle st e (inl e2) = cc (e, e2)
paused-idle st e (inr e2) = cc (e, e2)

single :
    (st : ReleaseStatus) (rels before after : List Release) (rel : Release)
    → Alone st rels
    → rels ≡ before ++ rel ∷ after
    → (rel.status ≡ running) × (before ++ after ≡ []) × (rels ≡ rel ∷ [])
single st [] [] after rel h e = absurd (cc e)
single st [] (x ∷ before) after rel h e = absurd (cc e)
single st (r ∷ []) [] [] rel (h, now) e = let same : r ≡ rel = cc e in (rw (sym same) h, refl, e)
single st (r ∷ []) [] (x ∷ after) rel h e = absurd (cc e)
single st (r ∷ []) (x ∷ []) after rel h e = absurd (cc e)
single st (r ∷ []) (x ∷ y ∷ before) after rel h e = absurd (cc e)
single st (r ∷ r' ∷ rels) before after rel h e = absurd h

Alone-cancelled : (st : ReleaseStatus) (rels : List Release) → Alone st rels → Alone cancelled rels
Alone-cancelled st [] h = tt
Alone-cancelled st (rel ∷ []) (h, now) = (h, inr refl)
Alone-cancelled st (rel ∷ rel' ∷ rels) h = absurd h

-- A call that begins a run has found the release without one.
IsDue : Bool → Release → List Release → Type 0
IsDue true copy runs = (copy.status ≡ running) × (runs ≡ [])
IsDue false copy runs = copy.status ≡ cancelled

AreDue : List CallUnderWay → List Release → Type 0
AreDue [] runs = Unit
AreDue (c ∷ []) runs = IsDue c.begins_run c.copy runs
AreDue (c ∷ d ∷ cs) runs = ⊥

IsSerial : World → Type 0
IsSerial w = OneRun w × AreDue w.calls w.runs

-- A query where no call is under way.
query-AreDue :
    (c : CallUnderWay) (calls : List CallUnderWay) (runs : List Release)
    → suc (length calls) ≤ 1
    → IsDue c.begins_run c.copy runs
    → AreDue (c ∷ calls) runs
unfolding AreDue
query-AreDue c [] runs le due = due
query-AreDue c (d ∷ cs) runs le due = absurd (omega arith)

only_call :
    (calls before after : List CallUnderWay) (c : CallUnderWay) (runs : List Release)
    → AreDue calls runs
    → calls ≡ before ++ c ∷ after
    → IsDue c.begins_run c.copy runs × (before ++ after ≡ [])
unfolding AreDue
only_call [] [] after c runs due e = absurd (cc e)
only_call [] (x ∷ before) after c runs due e = absurd (cc e)
only_call (d ∷ []) [] [] c runs due e =
    let same : d ≡ c = cc e in (subst (λ x. IsDue x.begins_run x.copy runs) same due, refl)
only_call (d ∷ []) [] (x ∷ after) c runs due e = absurd (cc e)
only_call (d ∷ []) (x ∷ []) after c runs due e = absurd (cc e)
only_call (d ∷ []) (x ∷ y ∷ before) after c runs due e = absurd (cc e)
only_call (d ∷ d' ∷ ds) before after c runs due e = absurd due

-- The save of such a call.
save-Alone :
    (begins : Bool) (copy : Release) (st : ReleaseStatus) (runs : List Release)
    → Alone st runs
    → IsDue begins copy runs
    → Alone copy.status (if begins then copy ∷ runs else runs)
unfolding IsDue
save-Alone true copy st runs one (e, none_on) = rw none_on (e, inl e)
save-Alone false copy st runs one e = rw e (Alone-cancelled st runs one)

no_calls-AreDue : (calls : List CallUnderWay) (runs : List Release) → calls ≡ [] → AreDue calls runs
unfolding AreDue
no_calls-AreDue [] runs e = tt
no_calls-AreDue (c ∷ cs) runs e = absurd (cc e)

-- With fewer runs a call is still due.
IsDue-ended :
    (begins : Bool) (copy : Release) (runs : List Release)
    → IsDue begins copy runs
    → IsDue begins copy []
unfolding IsDue
IsDue-ended true copy runs (e, none_on) = (e, refl)
IsDue-ended false copy runs e = e

AreDue-ended :
    (calls : List CallUnderWay) (runs : List Release) → AreDue calls runs → AreDue calls []
unfolding AreDue
AreDue-ended [] runs due = tt
AreDue-ended (c ∷ []) runs due = IsDue-ended c.begins_run c.copy runs due
AreDue-ended (c ∷ d ∷ cs) runs due = absurd due

Step-IsSerial : {w w' : World} → Step w w' → length w'.calls ≤ 1 → IsSerial w → IsSerial w'
unfolding IsSerial IsDue call_done begun_by
Step-IsSerial {w} (start_query {rel} approval e) le (one, due) =
    let (may, same) = start_release-MayStart w.stored rel approval e in
    (
      one,
      query-AreDue _ w.calls w.runs le (
        ap (λ r. r.status) same,
        idle w.stored.status w.runs one (MayStart-idle w.stored.status approval may),
      ),
    )
Step-IsSerial {w} (promote_query {rel} e) le (one, due) =
    let (may, same) = promote_canary-paused w.stored rel e in
    (
      one,
      query-AreDue _ w.calls w.runs le (
        ap (λ r. r.status) same,
        idle w.stored.status w.runs one (paused-idle w.stored.status may),
      ),
    )
Step-IsSerial {w} (cancel_query {rel} e) le (one, due) =
    let (may, same) = cancel_release-MayCancel w.stored rel e in
    (one, query-AreDue _ w.calls w.runs le (ap (λ r. r.status) same))
Step-IsSerial {w} (call_save c before after on) le (one, due) =
    let (due_c, none_left) = only_call w.calls before after c w.runs due on in
    (
      save-Alone c.begins_run c.copy w.stored.status w.runs one due_c,
      no_calls-AreDue (before ++ after) _ none_left,
    )
Step-IsSerial {w} (call_error c before after on) le (one, due) =
    let (due_c, none_left) = only_call w.calls before after c w.runs due on in
    (one, no_calls-AreDue (before ++ after) w.runs none_left)
Step-IsSerial {w} (save_step rel before after results on) le (one, due) =
    let (e, nothing, all) = single w.stored.status w.runs before after rel one on in
    (rw all (e, inl e), due)
Step-IsSerial {w} (end_step rel before after deploy targets on ran) le (one, due) =
    let (e, nothing, all) = single w.stored.status w.runs before after rel one on in
    rw nothing (tt, AreDue-ended w.calls w.runs due)

SerialReaches-IsSerial : (rel : Release) (w : World) → SerialReaches (at_rest rel) w → IsSerial w
unfolding IsSerial AreDue at_rest
SerialReaches-IsSerial rel _ rest = (tt, tt)
SerialReaches-IsSerial rel _ (next {w1} r step le) =
    Step-IsSerial step le (SerialReaches-IsSerial rel w1 r)

-- Two calls that query before either saves.
two_runs :
    (rel again : Release) (approval : Option ApprovalStatus)
    → start_release (some rel) approval ≡ some again
    → Reaches (at_rest rel) (record { stored = again; calls = []; runs = again ∷ again ∷ [] })
unfolding at_rest call_done begun_by
two_runs rel again approval e =
    let c : CallUnderWay = record { copy = again; begins_run = true } in
    onward
      (onward (onward (onward here (start_query approval e)) (start_query approval e))
        (call_save c [] (c ∷ []) refl))
      (call_save c [] [] refl)

-- A release that may be started and has no run. In a history in which no two calls are ever under way
-- at once, it never has two runs at a time; while it has one, the copy that the run works on is
-- running, and the database has the release as running or as cancelled. But where two calls of
-- StartRelease overlap, both may be accepted, and the release is then run twice at the same time.
pub SerialReaches-OneRun :
    (rel again : Release) (approval : Option ApprovalStatus) (w : World)
    → start_release (some rel) approval ≡ some again
    → SerialReaches (at_rest rel) w
    → OneRun w
      × Reaches (at_rest rel) (record { stored = again; calls = []; runs = again ∷ again ∷ [] })
unfolding IsSerial
SerialReaches-OneRun rel again approval w e r =
    ((SerialReaches-IsSerial rel w r).0, two_runs rel again approval e)
