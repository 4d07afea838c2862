-- ===== src/Alert/Processor/Expiry.antt =====
-- How an alert that keeps being reported ends (checkExpiredAlerts of pkg/alert/processor.go).
use quic_flow.Prelude.{
  ℕ, ◌+◌, ◌≤◌, ◌<◌, ◌≡◌, refl, ap, ◌∙◌, Bool, true, false, Option, none, some, List, [], ◌∷◌, ◌++◌,
  All, arith,
}
use quic_flow.Prelude.Text.{Text, text_eq, text_eq_refl}
use quic_flow.Alert.Processor.{
  AlertStatus, firing, resolved, AlertInstance, new_processor, is_firing, fires_again, counted,
  begun, has_expired, five_minutes, Event, report, resolve, check_alerts, silence, unsilence,
  check_silences, load, run,
}
use quic_flow.Alert.Processor.Own.{
  View, view, told, own_report, own_resolve, own_expire, own_step, own_run,
}
use quic_flow.Alert.Processor.Views.{run-view}

-- Nobody resolves the alert by hand, and the checks come within five minutes of a time.
abbrev pub IsQuiet : Text → ℕ → Event → Type 0
IsQuiet f t0 (report created now a) = Unit
IsQuiet f t0 (resolve saved now id) = text_eq id f ≡ false
IsQuiet f t0 (check_alerts saved now) = now ≤ t0 + five_minutes
IsQuiet f t0 (silence created s) = Unit
IsQuiet f t0 (unsilence deleted id) = Unit
IsQuiet f t0 (check_silences now) = Unit
IsQuiet f t0 (load found) = Unit

-- Firing since a time, notified as often as it was then.
FiringSince : ℕ → List AlertStatus → View → Type 0
FiringSince t0 ns v =
    (x : AlertInstance) × (v.alert ≡ some x)
    × (x.status ≡ firing)
    × (x.fired_at ≡ t0)
    × (v.notices ≡ ns)

not_again : (y a : AlertInstance) → y.status ≡ firing → fires_again y a ≡ false
unfolding fires_again is_firing
not_again y a still = simp still refl

not_expired :
    (t0 now : ℕ) (y : AlertInstance)
    → y.fired_at ≡ t0
    → now ≤ t0 + five_minutes
    → has_expired now y ≡ false
unfolding has_expired
not_expired t0 now y when le = ground arith

own_report-FiringSince :
    (t0 : ℕ) (ns : List AlertStatus) (o : Option AlertInstance) (created : Bool) (now : ℕ)
    (a : AlertInstance) (v : View)
    → v.alert ≡ o
    → FiringSince t0 ns v
    → FiringSince t0 ns (own_report o created now a v)
unfolding own_report counted FiringSince
own_report-FiringSince t0 ns none created now a v e (x, at, st, since, told_so) =
    absurd (cc (e, at))
own_report-FiringSince t0 ns (some y) created now a v e (x, at, st, since, told_so) =
    let same : y ≡ x = cc (e, at) in
    let still : y.status ≡ firing = ap (λ z. z.status) same ∙ st in
    let since_y : y.fired_at ≡ t0 = ap (λ z. z.fired_at) same ∙ since in
    let no = not_again y a still in simp no (counted y, refl, still, since_y, told_so)

own_expire-FiringSince :
    (t0 : ℕ) (ns : List AlertStatus) (o : Option AlertInstance) (saved : Bool) (now : ℕ) (v : View)
    → now ≤ t0 + five_minutes
    → v.alert ≡ o
    → FiringSince t0 ns v
    → FiringSince t0 ns (own_expire o saved now v)
unfolding own_expire FiringSince
own_expire-FiringSince t0 ns none saved now v le e since = since
own_expire-FiringSince t0 ns (some y) saved now v le e (x, at, st, since, told_so) =
    let same : y ≡ x = cc (e, at) in
    let when : y.fired_at ≡ t0 = ap (λ z. z.fired_at) same ∙ since in
    let no = not_expired t0 now y when le in simp no (x, at, st, since, told_so)

own_step-FiringSince :
    (f : Text) (t0 : ℕ) (ns : List AlertStatus) (e : Event) (v : View)
    → IsQuiet f t0 e
    → FiringSince t0 ns v
    → FiringSince t0 ns (own_step f e v)
unfolding own_step
own_step-FiringSince f t0 ns (report created now a) v q h =
    ground (arith, own_report-FiringSince t0 ns v.alert created now a v refl h)
own_step-FiringSince f t0 ns (resolve saved now id) v q h = rw q h
own_step-FiringSince f t0 ns (check_alerts saved now) v q h =
    own_expire-FiringSince t0 ns v.alert (saved f) now v q refl h
own_step-FiringSince f t0 ns (silence created s) v q h = h
own_step-FiringSince f t0 ns (unsilence deleted id) v q h = h
own_step-FiringSince f t0 ns (check_silences now) v q h = h
own_step-FiringSince f t0 ns (load found) v q h = h

own_run-FiringSince :
    (f : Text) (t0 : ℕ) (ns : List AlertStatus) (es : List Event) (v : View)
    → All (IsQuiet f t0) es
    → FiringSince t0 ns v
    → FiringSince t0 ns (own_run f es v)
unfolding own_run
own_run-FiringSince f t0 ns [] v q h = h
own_run-FiringSince f t0 ns (e ∷ es) v (q, qs) h =
    own_run-FiringSince f t0 ns es (own_step f e v) qs (own_step-FiringSince f t0 ns e v q h)

own_run-append :
    (f : Text) (es fs : List Event) (v : View)
    → own_run f (es ++ fs) v ≡ own_run f fs (own_run f es v)
unfolding own_run
own_run-append f [] fs v = refl
own_run-append f (e ∷ es) fs v = own_run-append f es fs (own_step f e v)

expired_late :
    (t0 now : ℕ) (y : AlertInstance)
    → y.fired_at ≡ t0
    → y.status ≡ firing
    → t0 + five_minutes < now
    → has_expired now y ≡ true
unfolding has_expired is_firing
expired_late t0 now y when still late = simp still (ground arith)

-- The check after the five minutes.
own_expire_late :
    (t0 : ℕ) (ns : List AlertStatus) (o : Option AlertInstance) (now : ℕ) (v : View)
    → t0 + five_minutes < now
    → v.alert ≡ o
    → FiringSince t0 ns v
    → own_expire o true now v ≡ record { alert = none; notices = ns ++ (resolved ∷ []) }
unfolding own_expire own_resolve FiringSince
own_expire_late t0 ns none now v late e (x, at, st, since, told_so) = absurd (cc (e, at))
own_expire_late t0 ns (some y) now v late e (x, at, st, since, told_so) =
    let same : y ≡ x = cc (e, at) in
    let when : y.fired_at ≡ t0 = ap (λ z. z.fired_at) same ∙ since in
    let still : y.status ≡ firing = ap (λ z. z.status) same ∙ st in
    let yes_expired = expired_late t0 now y when still late in
    simp yes_expired (ap (λ l. record { alert = none; notices = l ++ (resolved ∷ []) }) told_so)

-- The first report.
first_report-FiringSince :
    (rep : AlertInstance) (t0 : ℕ)
    → rep.status ≡ firing
    → FiringSince t0
        (firing ∷ [])
        (own_step rep.fingerprint (report true t0 rep) (record { alert = none; notices = [] }))
unfolding own_step own_report told is_firing begun FiringSince
first_report-FiringSince rep t0 fires =
    rw (text_eq_refl rep.fingerprint)
      (begun t0 rep, refl, fires, refl, ap (λ st. told st (is_firing st) []) fires)

FiringSince-notices :
    (t0 : ℕ) (ns : List AlertStatus) (v : View) → FiringSince t0 ns v → v.notices ≡ ns
unfolding FiringSince
FiringSince-notices t0 ns v (x, at, st, since, told_so) = told_so

-- An alert that is reported as firing when it is not active is notified once, and stays active,
-- however often it is reported, while nobody resolves it and the checks come within five minutes.
-- The first later check resolves it and notifies that, even where it was reported up to then: a
-- report of an alert that is firing does not renew its time.
pub reported-expires :
    (rep : AlertInstance) (t0 now : ℕ) (es : List Event) (saved : Text → Bool)
    → rep.status ≡ firing
    → All (IsQuiet rep.fingerprint t0) es
    → t0 + five_minutes < now
    → saved rep.fingerprint ≡ true
    → ((view rep.fingerprint (run (report true t0 rep ∷ es) new_processor).board).notices
        ≡ firing ∷ [])
      × (view rep.fingerprint
            (run (report true t0 rep ∷ (es ++ (check_alerts saved now ∷ []))) new_processor).board
          ≡ record { alert = none; notices = firing ∷ resolved ∷ [] })
unfolding own_run own_step
reported-expires rep t0 now es saved fires q late ok =
    let f = rep.fingerprint in
    let fresh : View = record { alert = none; notices = [] } in
    let first = own_step f (report true t0 rep) fresh in
    let v = own_run f es first in
    let h =
      own_run-FiringSince f t0 (firing ∷ []) es first q (first_report-FiringSince rep t0 fires) in
    let check = check_alerts saved now ∷ [] in
    (
      ap (λ w. w.notices) (run-view f (report true t0 rep ∷ es))
          ∙ FiringSince-notices t0 (firing ∷ []) v h,
      run-view f (report true t0 rep ∷ (es ++ check))
          ∙ own_run-append f es check first
          ∙ ap (λ b. own_expire v.alert b now v) ok
          ∙ own_expire_late t0 (firing ∷ []) v.alert now v late refl h,
    )
