-- ===== src/Alert/Processor/Boards.antt =====
-- The map of alerts stays sound, and silences do not reach it (pkg/alert/processor.go).
use quic_flow.Prelude.{ℕ, ◌≡◌, refl, Bool, true, false, Option, none, some, List, [], ◌∷◌, arith}
use quic_flow.Prelude.Text.{Text, text_eq_iff}
use quic_flow.Prelude.Map.{Map, lookup, insert, delete, keys, IsMap, insert-IsMap, delete-IsMap}
use quic_flow.Alert.Processor.{
  AlertInstance, Board, Processor, matches_silence, matched_by, is_silenced, notify_alert, counted,
  refreshed, report_known, begun, report_new, report_as, process_alert, ended, resolve_as,
  resolve_alert, expire_as, check_each, check_expired_alerts, SilenceRule, add_silence,
  remove_silence, load_silences, check_expired_silences, Event, report, resolve, check_alerts,
  silence, unsilence, check_silences, load, step,
}

-- Every alert stands under its own fingerprint, once.
unfoldable pub Keyed : Map AlertInstance → Type 0
Keyed [] = Unit
Keyed ((j, a) ∷ m) = (a.fingerprint ≡ j) × Keyed m

unfoldable pub IsBoard : Board → Type 0
IsBoard b = IsMap b.alerts × Keyed b.alerts

Keyed-insert :
    (k : Text) (a : AlertInstance) (m : Map AlertInstance)
    → a.fingerprint ≡ k
    → Keyed m
    → Keyed (insert k a m)
unfolding Keyed insert
Keyed-insert k a [] e h = (e, tt)
Keyed-insert k a ((j, x) ∷ m) e (own, h) = ground (arith, text_eq_iff j k, Keyed-insert k a m e h)

Keyed-delete : (k : Text) (m : Map AlertInstance) → Keyed m → Keyed (delete k m)
unfolding Keyed delete
Keyed-delete k [] h = tt
Keyed-delete k ((j, x) ∷ m) (own, h) = ground (arith, Keyed-delete k m h)

pub Keyed-lookup :
    (k : Text) (a : AlertInstance) (m : Map AlertInstance)
    → Keyed m
    → lookup k m ≡ some a
    → a.fingerprint ≡ k
unfolding Keyed lookup
Keyed-lookup k a [] h e = absurd (cc e)
Keyed-lookup k a ((j, x) ∷ m) (own, h) e = ground (arith, text_eq_iff j k, Keyed-lookup k a m h)

pub board-Keyed : (b : Board) → IsBoard b → Keyed b.alerts
unfolding IsBoard
board-Keyed b s = s.1

resolve_as-IsBoard :
    (o : Option AlertInstance) (saved : Bool) (now : ℕ) (id : Text) (b : Board)
    → IsBoard b
    → lookup id b.alerts ≡ o
    → IsBoard (resolve_as o saved now id b).0
unfolding resolve_as notify_alert ended IsBoard
resolve_as-IsBoard none saved now id b s e = s
resolve_as-IsBoard (some x) false now id b (u, h) e = (
  insert-IsMap id (ended now x) b.alerts u,
  Keyed-insert id (ended now x) b.alerts (Keyed-lookup id x b.alerts h e) h,
)
resolve_as-IsBoard (some x) true now id b (u, h) e =
    (delete-IsMap id b.alerts u, Keyed-delete id b.alerts h)

pub expire_as-IsBoard :
    (o : Option AlertInstance) (saved : Text → Bool) (now : ℕ) (b : Board)
    → IsBoard b
    → IsBoard (expire_as o saved now b)
unfolding expire_as resolve_alert
expire_as-IsBoard none saved now b h = h
expire_as-IsBoard (some x) saved now b h = ground (
  arith,
  resolve_as-IsBoard (lookup x.fingerprint b.alerts) (saved x.fingerprint) now x.fingerprint b h
      refl,
)

report_as-IsBoard :
    (o : Option AlertInstance) (created : Bool) (now : ℕ) (a : AlertInstance) (b : Board)
    → IsBoard b
    → lookup a.fingerprint b.alerts ≡ o
    → IsBoard (report_as o created now a b).0
unfolding report_as report_new report_known notify_alert begun counted refreshed IsBoard
report_as-IsBoard none false now a b s e = s
report_as-IsBoard none true now a b (u, h) e =
    let k = insert-IsMap a.fingerprint (begun now a) b.alerts u in
    let l = Keyed-insert a.fingerprint (begun now a) b.alerts refl h in ground arith
report_as-IsBoard (some x) created now a b (u, h) e =
    let own = Keyed-lookup a.fingerprint x b.alerts h e in
    let k = insert-IsMap a.fingerprint (refreshed now (counted x)) b.alerts u in
    let l = Keyed-insert a.fingerprint (refreshed now (counted x)) b.alerts own h in
    let k2 = insert-IsMap a.fingerprint (counted x) b.alerts u in
    let l2 = Keyed-insert a.fingerprint (counted x) b.alerts own h in ground arith

check_each-IsBoard :
    (saved : Text → Bool) (now : ℕ) (ids : List Text) (b : Board)
    → IsBoard b
    → IsBoard (check_each saved now ids b)
unfolding check_each
check_each-IsBoard saved now [] b s = s
check_each-IsBoard saved now (id ∷ ids) b s =
    check_each-IsBoard saved now ids (expire_as (lookup id b.alerts) saved now b)
      (expire_as-IsBoard (lookup id b.alerts) saved now b s)

-- No silence matches, as long as labels are not compared.
matched_by-none :
    (a : AlertInstance) (now : ℕ) (ss : List SilenceRule) → matched_by a now ss ≡ false
unfolding matched_by matches_silence
matched_by-none a now [] = refl
matched_by-none a now (s ∷ ss) = ground (arith, matched_by-none a now ss)

pub process_alert-board :
    (created : Bool) (now : ℕ) (a : AlertInstance) (p : Processor)
    → (process_alert created now a p).0.board
      ≡ (report_as (lookup a.fingerprint p.board.alerts) created now a p.board).0
unfolding process_alert is_silenced
process_alert-board created now a p = rw (matched_by-none a now p.silences) refl

pub silence-board :
    (created : Bool) (s : SilenceRule) (p : Processor) → (add_silence created s p).0.board ≡ p.board
unfolding add_silence
silence-board false s p = refl
silence-board true s p = refl

pub unsilence-board :
    (deleted : Bool) (id : ℕ) (p : Processor) → (remove_silence deleted id p).0.board ≡ p.board
unfolding remove_silence
unsilence-board false id p = refl
unsilence-board true id p = refl

pub load-board :
    (found : Option (List SilenceRule)) (p : Processor) → (load_silences found p).0.board ≡ p.board
unfolding load_silences
load-board none p = refl
load-board (some rs) p = refl

pub step-IsBoard : (e : Event) (p : Processor) → IsBoard p.board → IsBoard (step e p).board
unfolding step resolve_alert check_expired_alerts check_expired_silences
step-IsBoard (report created now a) p s =
    rw (process_alert-board created now a p)
      (report_as-IsBoard (lookup a.fingerprint p.board.alerts) created now a p.board s refl)
step-IsBoard (resolve saved now id) p s =
    resolve_as-IsBoard (lookup id p.board.alerts) saved now id p.board s refl
step-IsBoard (check_alerts saved now) p s =
    check_each-IsBoard saved now (keys p.board.alerts) p.board s
step-IsBoard (silence created r) p s = rw (silence-board created r p) s
step-IsBoard (unsilence deleted id) p s = rw (unsilence-board deleted id p) s
step-IsBoard (check_silences now) p s = s
step-IsBoard (load found) p s = rw (load-board found p) s
