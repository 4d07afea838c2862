-- ===== src/Alert/Processor.antt =====
-- pkg/alert/processor.go: the alerts that are active, by fingerprint, and the silences. Whether the
-- database takes a write is an argument. A notification is known by the alert's fingerprint and its
-- status; labels, texts and the severity are left out. Times are
-- in nanoseconds.
pub mod Boards
pub mod Own
pub mod Views
pub mod Expiry
mod Examples
use quic_flow.Prelude.{
  ℕ, ◌+◌, ◌*◌, ltb, ◌==◌, ◌&&◌, ◌||◌, not, if◌then◌else◌, Bool, true, false, Option, none, some,
  List, [], ◌∷◌, ◌++◌,
}
use quic_flow.Prelude.Text.{Text}
use quic_flow.Prelude.Map.{Map, lookup, insert, delete, keys}

pub data AlertStatus : Type 0 where
  firing resolved silenced : AlertStatus

pub record AlertInstance : Type 0 where
  pub fingerprint : Text
  pub rule_name : Text
  pub status : AlertStatus
  pub started_at : ℕ
  pub fired_at : ℕ
  pub resolved_at : Option ℕ
  pub notify_count : ℕ

pub record SilenceRule : Type 0 where
  pub id : ℕ
  pub start_at : ℕ
  pub end_at : ℕ

pub record Notification : Type 0 where
  pub about : Text
  pub status : AlertStatus

-- The alerts in memory and the notifications that were sent.
pub record Board : Type 0 where
  pub alerts : Map AlertInstance
  pub sent : List Notification

pub record Processor : Type 0 where
  pub board : Board
  pub silences : List SilenceRule

unfoldable pub new_processor : Processor
new_processor = record { board = record { alerts = []; sent = [] }; silences = [] }

pub data AlertError : Type 0 where
  alert_not_found store_failed : AlertError

-- The labels are not compared yet.
matches_silence : AlertInstance → SilenceRule → Bool
matches_silence alert s = false

is_active : ℕ → SilenceRule → Bool
is_active now s = not (ltb now s.start_at || ltb s.end_at now)

matched_by : AlertInstance → ℕ → List SilenceRule → Bool
unfolding matches_silence is_active
matched_by alert now [] = false
matched_by alert now (s ∷ ss) =
    (is_active now s && matches_silence alert s) || matched_by alert now ss

is_silenced : AlertInstance → ℕ → Processor → Bool
unfolding matched_by
is_silenced alert now p = matched_by alert now p.silences

notify_alert : AlertInstance → Board → Board
notify_alert a b = record b {
  sent = b.sent ++ (record { about = a.fingerprint; status = a.status } ∷ []);
}

is_firing : AlertStatus → Bool
is_firing firing = true
is_firing resolved = false
is_firing silenced = false

-- The existing alert, reported again.
fires_again : AlertInstance → AlertInstance → Bool
unfolding is_firing
fires_again existing alert = not (is_firing existing.status) && is_firing alert.status

counted : AlertInstance → AlertInstance
counted a = record a { notify_count = a.notify_count + 1 }

refreshed : ℕ → AlertInstance → AlertInstance
refreshed now a = record a { status = firing; fired_at = now }

-- The pointer in the map is written through.
report_known : ℕ → AlertInstance → AlertInstance → Board → Board
unfolding counted refreshed fires_again notify_alert
report_known now existing alert b =
    if fires_again existing alert
    then notify_alert (refreshed now (counted existing))
        (record b { alerts = insert alert.fingerprint (refreshed now (counted existing)) b.alerts })
    else record b { alerts = insert alert.fingerprint (counted existing) b.alerts }

begun : ℕ → AlertInstance → AlertInstance
begun now a = record a { started_at = now; fired_at = now }

report_new : Bool → ℕ → AlertInstance → Board → Board × Option AlertError
unfolding begun notify_alert is_firing
report_new false now alert b = (b, some store_failed)
report_new true now alert b =
    let stored = record b { alerts = insert alert.fingerprint (begun now alert) b.alerts } in
    (if is_firing alert.status then notify_alert (begun now alert) stored else stored, none)

pub report_as : Option AlertInstance → Bool → ℕ → AlertInstance → Board → Board × Option AlertError
unfolding report_known report_new
report_as none created now alert b = report_new created now alert b
report_as (some existing) created now alert b = (report_known now existing alert b, none)

-- `created` is whether the database takes a new alert.
pub process_alert : Bool → ℕ → AlertInstance → Processor → Processor × Option AlertError
unfolding is_silenced report_as
process_alert created now alert p =
    if is_silenced alert now p
    then (p, none)
    else let done = report_as (lookup alert.fingerprint p.board.alerts) created now alert p.board in
      (record p { board = done.0 }, done.1)

ended : ℕ → AlertInstance → AlertInstance
ended now a = record a { status = resolved; resolved_at = some now }

-- Where the database refuses, the alert stays in the map as resolved.
resolve_as : Option AlertInstance → Bool → ℕ → Text → Board → Board × Option AlertError
unfolding ended notify_alert
resolve_as none saved now id b = (b, some alert_not_found)
resolve_as (some a) false now id b =
    (record b { alerts = insert id (ended now a) b.alerts }, some store_failed)
resolve_as (some a) true now id b =
    let told = notify_alert (ended now a) b in
    (record told { alerts = delete id told.alerts }, none)

pub resolve_alert : Bool → ℕ → Text → Board → Board × Option AlertError
unfolding resolve_as
resolve_alert saved now id b = resolve_as (lookup id b.alerts) saved now id b

abbrev pub five_minutes : ℕ
five_minutes = 300000000000

has_expired : ℕ → AlertInstance → Bool
unfolding is_firing
has_expired now a = is_firing a.status && ltb (a.fired_at + five_minutes) now

pub expire_as : Option AlertInstance → (Text → Bool) → ℕ → Board → Board
unfolding has_expired resolve_alert
expire_as none saved now b = b
expire_as (some a) saved now b =
    if has_expired now a then (resolve_alert (saved a.fingerprint) now a.fingerprint b).0 else b

check_each : (Text → Bool) → ℕ → List Text → Board → Board
unfolding expire_as
check_each saved now [] b = b
check_each saved now (id ∷ ids) b =
    check_each saved now ids (expire_as (lookup id b.alerts) saved now b)

pub check_expired_alerts : (Text → Bool) → ℕ → Board → Board
unfolding check_each
check_expired_alerts saved now b = check_each saved now (keys b.alerts) b

store_silence : SilenceRule → List SilenceRule → List SilenceRule
store_silence s [] = s ∷ []
store_silence s (r ∷ rs) = if r.id == s.id then s ∷ rs else r ∷ store_silence s rs

delete_silence : ℕ → List SilenceRule → List SilenceRule
delete_silence id [] = []
delete_silence id (r ∷ rs) = if r.id == id then rs else r ∷ delete_silence id rs

store_all : List SilenceRule → List SilenceRule → List SilenceRule
unfolding store_silence
store_all [] ss = ss
store_all (r ∷ rs) ss = store_all rs (store_silence r ss)

-- At the start; `none` where the database fails.
pub load_silences : Option (List SilenceRule) → Processor → Processor × Option AlertError
unfolding store_all
load_silences none p = (p, some store_failed)
load_silences (some rs) p = (record p { silences = store_all rs p.silences }, none)

pub add_silence : Bool → SilenceRule → Processor → Processor × Option AlertError
unfolding store_silence
add_silence false s p = (p, some store_failed)
add_silence true s p = (record p { silences = store_silence s p.silences }, none)

pub remove_silence : Bool → ℕ → Processor → Processor × Option AlertError
unfolding delete_silence
remove_silence false id p = (p, some store_failed)
remove_silence true id p = (record p { silences = delete_silence id p.silences }, none)

unexpired : ℕ → List SilenceRule → List SilenceRule
unexpired now [] = []
unexpired now (s ∷ ss) = if ltb s.end_at now then unexpired now ss else s ∷ unexpired now ss

pub check_expired_silences : ℕ → Processor → Processor
unfolding unexpired
check_expired_silences now p = record p { silences = unexpired now p.silences }

pub get_alert : Text → Processor → Option AlertInstance
get_alert id p = lookup id p.board.alerts

-- The start, the calls, and the two checks of processLoop.
pub data Event : Type 0 where
  report : Bool → ℕ → AlertInstance → Event
  resolve : Bool → ℕ → Text → Event
  check_alerts : (Text → Bool) → ℕ → Event
  silence : Bool → SilenceRule → Event
  unsilence : Bool → ℕ → Event
  check_silences : ℕ → Event
  load : Option (List SilenceRule) → Event

unfoldable pub step : Event → Processor → Processor
unfolding process_alert resolve_alert check_expired_alerts add_silence remove_silence
    check_expired_silences
step (report created now a) p = (process_alert created now a p).0
step (resolve saved now id) p = record p { board = (resolve_alert saved now id p.board).0 }
step (check_alerts saved now) p = record p { board = check_expired_alerts saved now p.board }
step (silence created s) p = (add_silence created s p).0
step (unsilence deleted id) p = (remove_silence deleted id p).0
step (check_silences now) p = check_expired_silences now p
step (load found) p = (load_silences found p).0

unfoldable pub run : List Event → Processor → Processor
unfolding step
run [] p = p
run (e ∷ es) p = run es (step e p)
