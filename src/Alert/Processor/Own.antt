-- ===== src/Alert/Processor/Own.antt =====
-- One fingerprint alone: what the calls of pkg/alert/processor.go do to its alert and to the
-- notifications about it.
use quic_flow.Prelude.{ℕ, if◌then◌else◌, Bool, true, false, Option, none, some, List, [], ◌∷◌, ◌++◌}
use quic_flow.Prelude.Text.{Text, text_eq}
use quic_flow.Prelude.Map.{lookup}
use quic_flow.Alert.Processor.{
  AlertStatus, firing, resolved, AlertInstance, Notification, Board, is_firing, fires_again,
  counted, refreshed, begun, ended, has_expired, Event, report, resolve, check_alerts, silence,
  unsilence, check_silences, load,
}

-- One fingerprint: its alert, if it is active, and the statuses that were notified.
pub record View : Type 0 where
  pub alert : Option AlertInstance
  pub notices : List AlertStatus

unfoldable pub notices_of : Text → List Notification → List AlertStatus
notices_of f [] = []
notices_of f (n ∷ ns) = if text_eq n.about f then n.status ∷ notices_of f ns else notices_of f ns

unfoldable pub view : Text → Board → View
unfolding notices_of
view f b = record { alert = lookup f b.alerts; notices = notices_of f b.sent }

unfoldable pub told : AlertStatus → Bool → List AlertStatus → List AlertStatus
told st true ns = ns ++ (st ∷ [])
told st false ns = ns

unfoldable pub own_report : Option AlertInstance → Bool → ℕ → AlertInstance → View → View
unfolding told is_firing begun fires_again refreshed counted
own_report none false now a v = v
own_report none true now a v = record {
  alert = some (begun now a);
  notices = told a.status (is_firing a.status) v.notices;
}
own_report (some x) created now a v =
    if fires_again x a
    then record { alert = some (refreshed now (counted x)); notices = v.notices ++ (firing ∷ []) }
    else record v { alert = some (counted x) }

unfoldable pub own_resolve : Option AlertInstance → Bool → ℕ → View → View
unfolding ended
own_resolve none saved now v = v
own_resolve (some x) false now v = record v { alert = some (ended now x) }
own_resolve (some x) true now v = record { alert = none; notices = v.notices ++ (resolved ∷ []) }

unfoldable pub own_expire : Option AlertInstance → Bool → ℕ → View → View
unfolding has_expired own_resolve
own_expire none saved now v = v
own_expire (some x) saved now v = if has_expired now x then own_resolve (some x) saved now v else v

unfoldable pub own_step : Text → Event → View → View
unfolding own_report own_resolve own_expire
own_step f (report created now a) v =
    if text_eq a.fingerprint f then own_report v.alert created now a v else v
own_step f (resolve saved now id) v = if text_eq id f then own_resolve v.alert saved now v else v
own_step f (check_alerts saved now) v = own_expire v.alert (saved f) now v
own_step f (silence created s) v = v
own_step f (unsilence deleted id) v = v
own_step f (check_silences now) v = v
own_step f (load found) v = v

unfoldable pub own_run : Text → List Event → View → View
unfolding own_step
own_run f [] v = v
own_run f (e ∷ es) v = own_run f es (own_step f e v)
