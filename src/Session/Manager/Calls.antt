-- ===== src/Session/Manager/Calls.antt =====
-- pkg/session/manager.go under any sequence of calls: what always holds of the registry.
use quic_flow.Prelude.{
  ℕ, ◌≡◌, refl, ◌≢◌, Bool, Option, none, some, List, [], ◌∷◌, ◌⊎◌, inl, inr, ap, arith,
  Option-cases,
}
use quic_flow.Prelude.Text.{Text, text_eq_iff, text_eq_refl}
use quic_flow.Prelude.Map.{
  Map, lookup, modify, IsMap, lookup-insert, lookup-delete, lookup-modify, modify-IsMap,
  length-modify,
}
use quic_flow.Session.Client.{ClientSession, new_client_session, update_last_heartbeat, close}
use quic_flow.Session.Manager.{
  Error, SessionManager, Event, get, conn_closed, Result, ok, err, add, add_session, remove,
  heartbeat, check_heartbeats, close_each, close_all, new_session_manager,
}
use quic_flow.Session.Manager.Registry.{IsConsistent, add-IsConsistent, remove-IsConsistent}
use quic_flow.Session.Manager.Sweeps.{AllConnected}
use quic_flow.Session.Manager.Rounds.{check_heartbeats-checked}

-- The calls that the server makes. A session is created over a connection with a remote address.
pub data Call : Type 0 where
  adds : Text → Text → ℕ → Call
  removes : Text → Call
  beats : Text → ℕ → Call
  checks : ℕ → Call
  closes : Call

-- A call that fails leaves the registry as it was.
abbrev after : SessionManager → Result SessionManager → SessionManager
after sm (ok sm') = sm'
after sm (err e) = sm

pub step : Call → SessionManager → Option SessionManager
step (adds id addr now) sm = some (after sm (add (some (new_client_session id (some addr) now)) sm))
step (removes id) sm = some (after sm (remove id sm))
step (beats id now) sm = some (heartbeat id now sm)
step (checks now) sm = elim (check_heartbeats now sm) [ none ↦ none | some w ↦ some w.manager ]
step closes sm = close_all sm

pub run : List Call → SessionManager → Option SessionManager
run [] sm = some sm
run (c ∷ cs) sm = elim (step c sm) [ none ↦ none | some sm' ↦ run cs sm' ]

pub record IsSound (sm : SessionManager) : Type 0 where
  pub consistent : IsConsistent sm
  pub connected : AllConnected sm

Result-cases :
    (r : Result SessionManager)
    → ((e : Error) × (r ≡ err e)) ⊎ ((sm' : SessionManager) × (r ≡ ok sm'))
Result-cases (ok a) = inr (a, refl)
Result-cases (err e) = inl (e, refl)

add-AllConnected :
    (id addr : Text) (now : ℕ) (sm sm' : SessionManager)
    → AllConnected sm
    → add (some (new_client_session id (some addr) now)) sm ≡ ok sm'
    → AllConnected sm'
unfolding add add_session new_client_session
add-AllConnected id addr now sm sm' c h j t l =
    ground (arith, c j t, lookup-insert id j (new_client_session id (some addr) now) sm.sessions)

add-IsSound :
    (id addr : Text) (now : ℕ) (sm : SessionManager)
    → IsSound sm
    → IsSound (after sm (add (some (new_client_session id (some addr) now)) sm))
add-IsSound id addr now sm v =
    let s = new_client_session id (some addr) now in
    elim (Result-cases (add (some s) sm)) [
      | inl (e, h) ↦ rw h v
      | inr (sm', h) ↦ rw h (record {
        consistent = add-IsConsistent (some s) sm sm' v.consistent h;
        connected = add-AllConnected id addr now sm sm' v.connected h;
      })
    ]

remove-AllConnected :
    (id : Text) (sm sm' : SessionManager) → IsSound sm → remove id sm ≡ ok sm' → AllConnected sm'
unfolding remove
remove-AllConnected id sm sm' v h j t l =
    ground (arith, v.connected j t, lookup-delete id j sm.sessions v.consistent.unique)

remove-IsSound : (id : Text) (sm : SessionManager) → IsSound sm → IsSound (after sm (remove id sm))
remove-IsSound id sm v = elim (Result-cases (remove id sm)) [
  | inl (e, h) ↦ rw h v
  | inr (sm', h) ↦ rw h (record {
    consistent = remove-IsConsistent id sm sm' v.consistent h;
    connected = remove-AllConnected id sm sm' v h;
  })
]

-- A write through the pointer under `id`.
abbrev beaten : Text → ℕ → ClientSession → SessionManager → SessionManager
beaten id now s sm = record sm {
  sessions = modify id (λ _. update_last_heartbeat now s) sm.sessions;
}

beaten-IsSound :
    (id : Text) (now : ℕ) (s : ClientSession) (sm : SessionManager)
    → IsSound sm
    → s.conn ≢ none
    → IsSound (beaten id now s sm)
unfolding update_last_heartbeat
beaten-IsSound id now s sm v c =
    let f : ClientSession → ClientSession = λ _. update_last_heartbeat now s in
    record {
      consistent = record {
        unique = modify-IsMap id f sm.sessions v.consistent.unique;
        named = ground (arith, lookup-modify id [] f sm.sessions, v.consistent.named);
        counted = rw (length-modify id f sm.sessions) v.consistent.counted;
      };
      connected = λ j t l. ground (arith, v.connected j t, lookup-modify id j f sm.sessions);
    }

heartbeat_cases :
    (id : Text) (now : ℕ) (sm : SessionManager)
    → (heartbeat id now sm ≡ sm)
      ⊎ ((s : ClientSession) × (lookup id sm.sessions ≡ some s)
          × (heartbeat id now sm ≡ beaten id now s sm))
unfolding heartbeat get
heartbeat_cases [] now sm = inl refl
heartbeat_cases (b ∷ id) now sm = elim (Option-cases (lookup (b ∷ id) sm.sessions)) [
  | inl e ↦ inl (rw (e, heartbeat, get))
  | inr (s, e) ↦ inr (s, e, rw (e, heartbeat, get))
]

heartbeat-IsSound :
    (id : Text) (now : ℕ) (sm : SessionManager) → IsSound sm → IsSound (heartbeat id now sm)
heartbeat-IsSound id now sm v = elim (heartbeat_cases id now sm) [
  | inl e ↦ rw e v
  | inr (s, h, e) ↦ rw e (beaten-IsSound id now s sm v (v.connected id s h))
]

close_each-total :
    (m : Map ClientSession) (es : List Event)
    → IsMap m
    → ((j : Text) (s : ClientSession) → lookup j m ≡ some s → s.conn ≢ none)
    → (es' : List Event) × (close_each m es ≡ some es')
unfolding close_each close lookup
close_each-total [] es u c = (es, refl)
close_each-total ((i, s) ∷ m) es u c = elim (Option-cases s.conn) [
  | inl e ↦ absurd (c i s (rw (text_eq_refl i)) e)
  | inr (a, e) ↦
      let (es', f) =
        close_each-total m (conn_closed i ∷ es) u.1
          (λ j t l. c j t (ground (arith, l, u.0, text_eq_iff i j))) in
      (es', rw (e, close) f)
]

empty-IsSound : (sm : SessionManager) → sm.sessions ≡ [] → sm.count ≡ 0 → IsSound sm
unfolding lookup
empty-IsSound sm e n = record {
  consistent = record { unique = rw e tt; named = rw e; counted = rw (e, n) };
  connected = λ j t l. ground (arith, ap (lookup j) e);
}

step-IsSound :
    (c : Call) (sm : SessionManager)
    → IsSound sm
    → (sm' : SessionManager) × (step c sm ≡ some sm') × IsSound sm'
unfolding step close_all
step-IsSound (adds id addr now) sm v = (_, refl, add-IsSound id addr now sm v)
step-IsSound (removes id) sm v = (_, refl, remove-IsSound id sm v)
step-IsSound (beats id now) sm v = (_, refl, heartbeat-IsSound id now sm v)
step-IsSound (checks now) sm v =
    let (w, e, v', c', _, _) = check_heartbeats-checked now sm v.consistent v.connected in
    (w.manager, rw (e, step), record { consistent = v'; connected = c' })
step-IsSound closes sm v =
    let (es, e) = close_each-total sm.sessions sm.events v.consistent.unique v.connected in
    (
      record sm { sessions = []; count = 0; events = es },
      rw (e, close_all),
      empty-IsSound _ refl refl,
    )

run-IsSound_from :
    (cs : List Call) (sm : SessionManager)
    → IsSound sm
    → (sm' : SessionManager) × (run cs sm ≡ some sm') × IsSound sm'
unfolding run
run-IsSound_from [] sm v = (sm, refl, v)
run-IsSound_from (c ∷ cs) sm v =
    let (sm', e, v') = step-IsSound c sm v in
    let (sm'', f, v'') = run-IsSound_from cs sm' v' in (sm'', rw (e, run) f, v'')

-- From a new manager, any sequence of registrations, removals, pings, heartbeat checks and
-- `CloseAll` runs through without a nil dereference, and leaves the registry consistent: no id
-- twice, none empty, and the counter equal to the number of sessions modulo 2 ^ 64.
pub run-IsSound :
    (cs : List Call) (interval timeout max : ℕ) (hooks : Bool)
    → (sm : SessionManager) × (run cs (new_session_manager interval timeout max hooks) ≡ some sm)
      × IsSound sm
unfolding new_session_manager
run-IsSound cs interval timeout max hooks = run-IsSound_from cs _ (empty-IsSound _ refl refl)
