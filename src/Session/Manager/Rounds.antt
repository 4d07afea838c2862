-- ===== src/Session/Manager/Rounds.antt =====
-- `checkHeartbeats` of pkg/session/manager.go as a whole, and what rounds of it do to a session.
use quic_flow.Prelude.{ℕ, ◌≡◌, refl, false, some, List, [], ◌∷◌, ◌∙◌, if◌then◌else◌, arith}
use quic_flow.Prelude.Text.{Text, text_eq_iff}
use quic_flow.Prelude.Map.{lookup, keys, listed, Distinct, listed-keys-none, keys-Distinct}
use quic_flow.Session.Manager.{SessionManager, Sweep, visit_all, check_heartbeats}
use quic_flow.Session.Manager.Registry.{IsConsistent}
use quic_flow.Session.Manager.Sweeps.{after_check, AllConnected, Leaves, visit_step}

-- What a round over the keys `ids` leaves.
record Swept (now : ℕ) (ids : List Text) (w w' : Sweep) : Type 0 where
  consistent : IsConsistent w'.manager
  connected : AllConnected w'.manager
  same_max : w'.manager.max_timeout_count ≡ w.manager.max_timeout_count
  entries :
      (j : Text)
      → lookup j w'.manager.sessions ≡ (
          if listed j ids
          then after_check w.manager.max_timeout_count now (lookup j w.manager.sessions)
          else lookup j w.manager.sessions)

visit-Swept :
    (now : ℕ) (id : Text) (ids : List Text) (w w' w'' : Sweep)
    → listed id ids ≡ false
    → Leaves id (after_check w.manager.max_timeout_count now (lookup id w.manager.sessions)) w w'
    → Swept now ids w' w''
    → Swept now (id ∷ ids) w w''
unfolding listed
visit-Swept now id ids w w' w'' d l k = record {
  consistent = k.consistent;
  connected = k.connected;
  same_max = k.same_max ∙ l.same_max;
  entries = λ j. ground (arith, k.entries j, l.entries j, l.same_max, text_eq_iff id j);
}

visit_all-Swept :
    (now : ℕ) (ids : List Text) (w : Sweep)
    → Distinct ids
    → IsConsistent w.manager
    → AllConnected w.manager
    → (w' : Sweep) × (visit_all now ids w ≡ some w') × Swept now ids w w'
unfolding visit_all listed
visit_all-Swept now [] w d v c =
    (w, refl, record { consistent = v; connected = c; same_max = refl; entries = λ j. refl })
visit_all-Swept now (id ∷ ids) w d v c =
    let (w', e, l, c') = visit_step now id w v c in
    let (w'', f, k) = visit_all-Swept now ids w' d.1 l.consistent c' in
    (w'', rw (e, visit_all) f, visit-Swept now id ids w w' w'' d.0 l k)

-- A heartbeat check of a consistent registry whose sessions all have a connection always returns.
-- Each id then has the session that `checked` makes of the one it had: removed, counted or calmed.
-- The registry stays consistent, every session keeps a connection, and the limit is unchanged.
pub check_heartbeats-checked :
    (now : ℕ) (sm : SessionManager)
    → IsConsistent sm
    → AllConnected sm
    → (w : Sweep) × (check_heartbeats now sm ≡ some w)
      × IsConsistent w.manager
      × AllConnected w.manager
      × (w.manager.max_timeout_count ≡ sm.max_timeout_count)
      × ((j : Text)
          → lookup j w.manager.sessions
            ≡ after_check sm.max_timeout_count now (lookup j sm.sessions))
unfolding check_heartbeats
check_heartbeats-checked now sm v c =
    let (w, e, k) =
      visit_all-Swept now (keys sm.sessions) _ (keys-Distinct sm.sessions v.unique) v c in
    (
      w,
      e,
      k.consistent,
      k.connected,
      k.same_max,
      λ j. ground (arith, k.entries j, listed-keys-none j sm.sessions),
    )
