-- ===== src/Alert/Processor/Views.antt =====
-- What the processor holds and has sent on one fingerprint (pkg/alert/processor.go): the calls on it
-- are those of a machine that knows this fingerprint only, and silences do not matter to it.
use quic_flow.Prelude.{
  ℕ, ◌≡◌, refl, ap, ◌∙◌, inl, inr, if◌then◌else◌, Bool, Bool-cases, true, false, Option, none, some,
  List, [], ◌∷◌, ◌++◌, arith,
}
use quic_flow.Prelude.Text.{Text, text_eq, text_eq_iff}
use quic_flow.Prelude.Map.{
  Map, lookup, keys, lookup-insert, lookup-delete, listed, Distinct, keys-Distinct,
  listed-keys-none,
}
use quic_flow.Alert.Processor.{
  firing, resolved, AlertInstance, Notification, Board, Processor, new_processor, notify_alert,
  counted, refreshed, report_known, begun, report_new, report_as, ended, resolve_as, resolve_alert,
  has_expired, expire_as, check_each, check_expired_alerts, check_expired_silences, Event, report,
  resolve, check_alerts, silence, unsilence, check_silences, load, step, run,
}
use quic_flow.Alert.Processor.Own.{
  View, notices_of, view, told, own_report, own_resolve, own_expire, own_step, own_run,
}
use quic_flow.Alert.Processor.Boards.{
  Keyed, IsBoard, Keyed-lookup, board-Keyed, expire_as-IsBoard, silence-board, unsilence-board,
  load-board, process_alert-board, step-IsBoard,
}

notices_of-append :
    (f : Text) (ns : List Notification) (n : Notification)
    → notices_of f (ns ++ (n ∷ [])) ≡ told n.status (text_eq n.about f) (notices_of f ns)
unfolding notices_of told
notices_of-append f [] n = ground arith
notices_of-append f (m ∷ ns) n = ground (arith, notices_of-append f ns n)

own_expire-none :
    (o : Option AlertInstance) (saved : Bool) (now : ℕ) (v : View)
    → o ≡ none
    → own_expire o saved now v ≡ v
unfolding own_expire
own_expire-none none saved now v e = refl
own_expire-none (some y) saved now v e = absurd (cc e)

own_expire-some :
    (o : Option AlertInstance) (x : AlertInstance) (saved : Bool) (now : ℕ) (v : View)
    → o ≡ some x
    → own_expire o saved now v ≡ (if has_expired now x then own_resolve o saved now v else v)
unfolding own_expire
own_expire-some none x saved now v e = absurd (cc e)
own_expire-some (some y) x saved now v e = let same : y ≡ x = cc e in rw same refl

lookup-same :
    (f id : Text) (m : Map AlertInstance) (o : Option AlertInstance)
    → text_eq id f ≡ true
    → lookup id m ≡ o
    → lookup f m ≡ o
lookup-same f id m o same e = let id_f = text_eq_iff id f in ground arith

fingerprint-same :
    (f id : Text) (x : AlertInstance) (m : Map AlertInstance)
    → Keyed m
    → lookup id m ≡ some x
    → text_eq x.fingerprint f ≡ text_eq id f
fingerprint-same f id x m h e = ap (λ k. text_eq k f) (Keyed-lookup id x m h e)

module _ (f : Text) where
  view-resolve :
      (o : Option AlertInstance) (saved : Bool) (now : ℕ) (id : Text) (b : Board)
      → IsBoard b
      → lookup id b.alerts ≡ o
      → view f (resolve_as o saved now id b).0
        ≡ (if text_eq id f then own_resolve (view f b).alert saved now (view f b) else view f b)
  unfolding view resolve_as own_resolve notify_alert told IsBoard
  view-resolve none saved now id b (u, h) e = ground (arith, text_eq_iff id f)
  view-resolve (some x) false now id b (u, h) e =
      ground (arith, text_eq_iff id f, lookup-insert id f (ended now x) b.alerts)
  view-resolve (some x) true now id b (u, h) e = ground (
    arith,
    text_eq_iff id f,
    lookup-delete id f b.alerts u,
    fingerprint-same f id x b.alerts h e,
    notices_of-append f b.sent (record { about = x.fingerprint; status = resolved }),
  )

  view-alert : (b : Board) → (view f b).alert ≡ lookup f b.alerts
  unfolding view
  view-alert b = refl

  view-report :
      (o : Option AlertInstance) (created : Bool) (now : ℕ) (a : AlertInstance) (b : Board)
      → IsBoard b
      → lookup a.fingerprint b.alerts ≡ o
      → view f (report_as o created now a b).0 ≡ (
          if text_eq a.fingerprint f
          then own_report (view f b).alert created now a (view f b)
          else view f b)
  unfolding view report_as report_new report_known own_report notify_alert told IsBoard
  view-report none false now a b (u, h) e = ground (arith, text_eq_iff a.fingerprint f)
  view-report none true now a b (u, h) e = ground (
    arith,
    text_eq_iff a.fingerprint f,
    lookup-insert a.fingerprint f (begun now a) b.alerts,
    notices_of-append f b.sent (record { about = a.fingerprint; status = a.status }),
  )
  view-report (some x) created now a b (u, h) e = ground (
    arith,
    text_eq_iff a.fingerprint f,
    lookup-insert a.fingerprint f (refreshed now (counted x)) b.alerts,
    lookup-insert a.fingerprint f (counted x) b.alerts,
    fingerprint-same f a.fingerprint x b.alerts h e,
    notices_of-append f b.sent (record { about = x.fingerprint; status = firing }),
  )

  view-expire :
      (saved : Text → Bool) (now : ℕ) (id : Text) (b : Board)
      → IsBoard b
      → (o : Option AlertInstance) → lookup id b.alerts ≡ o
      → view f (expire_as o saved now b)
        ≡ (if text_eq id f then own_expire (view f b).alert (saved f) now (view f b) else view f b)
  unfolding expire_as own_expire resolve_alert
  view-expire saved now id b s none e =
      let at_f = lookup-same f id b.alerts none in
      let seen = view-alert b in ground (arith, text_eq_iff id f)
  view-expire saved now id b s (some x) e =
      let own = Keyed-lookup id x b.alerts (board-Keyed b s) e in
      let moved = ap (λ k. view f (resolve_alert (saved k) now k b).0) own in
      let settled = view-resolve (lookup id b.alerts) (saved id) now id b s refl in
      let at_f = lookup-same f id b.alerts (some x) in
      let seen = view-alert b in
      elim (Bool-cases (has_expired now x)) [
        | inl late ↦ simp late (
            moved
            ∙ settled
            ∙ ground (
              arith,
              text_eq_iff id f,
              own_expire-some (view f b).alert x (saved f) now (view f b),
            ))
        | inr early ↦ simp early (
            ground (
              arith,
              text_eq_iff id f,
              own_expire-some (view f b).alert x (saved f) now (view f b),
            ))
      ]

module _ (f : Text) where
  view-check_each :
      (saved : Text → Bool) (now : ℕ) (ids : List Text) (b : Board)
      → IsBoard b
      → Distinct ids
      → view f (check_each saved now ids b)
        ≡ (if listed f ids then own_expire (view f b).alert (saved f) now (view f b) else view f b)
  unfolding check_each listed
  view-check_each saved now [] b s d = refl
  view-check_each saved now (id ∷ ids) b s (fresh, d) =
      let o = lookup id b.alerts in
      let first = view-expire f saved now id b s o refl in
      let rest =
        view-check_each saved now ids (expire_as o saved now b) (expire_as-IsBoard o saved now b s)
          d in
      ground (arith, text_eq_iff id f)

  view-check_expired_alerts :
      (saved : Text → Bool) (now : ℕ) (b : Board)
      → IsBoard b
      → view f (check_expired_alerts saved now b)
        ≡ own_expire (view f b).alert (saved f) now (view f b)
  unfolding check_expired_alerts IsBoard
  view-check_expired_alerts saved now b (u, h) =
      let all = view-check_each saved now (keys b.alerts) b (u, h) (keys-Distinct b.alerts u) in
      let bare = own_expire-none (view f b).alert (saved f) now (view f b) in
      let absent = listed-keys-none f b.alerts in let seen = view-alert f b in all ∙ ground arith

step-view :
    (f : Text) (e : Event) (p : Processor)
    → IsBoard p.board
    → view f (step e p).board ≡ own_step f e (view f p.board)
unfolding step own_step resolve_alert check_expired_silences
step-view f (report created now a) p s =
    ap (view f) (process_alert-board created now a p)
    ∙ view-report f (lookup a.fingerprint p.board.alerts) created now a p.board s refl
step-view f (resolve saved now id) p s =
    view-resolve f (lookup id p.board.alerts) saved now id p.board s refl
step-view f (check_alerts saved now) p s = view-check_expired_alerts f saved now p.board s
step-view f (silence created r) p s = ap (view f) (silence-board created r p)
step-view f (unsilence deleted id) p s = ap (view f) (unsilence-board deleted id p)
step-view f (check_silences now) p s = refl
step-view f (load found) p s = ap (view f) (load-board found p)

run-view_from :
    (f : Text) (es : List Event) (p : Processor)
    → IsBoard p.board
    → view f (run es p).board ≡ own_run f es (view f p.board)
unfolding run own_run
run-view_from f [] p s = refl
run-view_from f (e ∷ es) p s =
    run-view_from f es (step e p) (step-IsBoard e p s) ∙ ap (own_run f es) (step-view f e p s)

-- In every history from a new processor, the alert of a fingerprint and the notifications about it
-- are those of the machine that sees the events of that fingerprint only: other alerts do not matter
-- to it, and neither does any silence.
pub run-view :
    (f : Text) (es : List Event)
    → view f (run es new_processor).board ≡ own_run f es (record { alert = none; notices = [] })
unfolding new_processor view IsBoard Keyed notices_of lookup
run-view f es = run-view_from f es new_processor (tt, tt)
