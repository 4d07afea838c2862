-- ===== src/Session/Manager/Sweeps.antt =====
-- `checkHeartbeats` of pkg/session/manager.go: what one round does to each session.
use mathlib.Core.Option
use quic_flow.Prelude.{
  ℕ, ◌≡◌, refl, ◌≢◌, sym, Option, none, some, [], inl, inr, if◌then◌else◌, arith, Option-cases,
  Bool-cases, ◌∙◌, ap,
}
use quic_flow.Prelude.Word.{add32, i32_leb}
use quic_flow.Prelude.Text.{Text, text_eq, text_eq_iff, text_eq_refl}
use quic_flow.Prelude.Map.{
  lookup, lookup-modify, lookup-delete, modify-IsMap, delete-IsMap, length-modify, length-delete,
}
use quic_flow.Session.Client.{ClientSession, increment_timeout_count, close}
use quic_flow.Session.Manager.{
  SessionManager, Sweep, Event, store, note, expire_hook, expire_remove, expire, strike,
  list_timeout, calm, is_stale, visit_session, visit, remove, conn_closed,
}
use quic_flow.Session.Manager.Registry.{IsConsistent, remove-IsConsistent}

-- One session after one check at `now` with the limit `max`; `none` if it is removed.
unfoldable pub checked : ℕ → ℕ → ClientSession → Option ClientSession
checked max now s =
    if is_stale now s
    then (if i32_leb max (add32 s.timeout_count 1) then none else some (increment_timeout_count s))
    else some (calm s)

abbrev pub after_check : ℕ → ℕ → Option ClientSession → Option ClientSession
after_check max now none = none
after_check max now (some s) = checked max now s

-- Every registered session has a connection.
abbrev pub AllConnected : SessionManager → Type 0
AllConnected sm = (j : Text) (s : ClientSession) → lookup j sm.sessions ≡ some s → s.conn ≢ none

lookup-store :
    (id j : Text) (s : ClientSession) (w : Sweep)
    → lookup j (store id s w).manager.sessions ≡ (
        if text_eq id j
        then Option.map (λ _. s) (lookup j w.manager.sessions)
        else lookup j w.manager.sessions)
unfolding store
lookup-store id j s w = lookup-modify id j (λ _. s) w.manager.sessions

store-IsConsistent :
    (id : Text) (s : ClientSession) (w : Sweep)
    → IsConsistent w.manager
    → IsConsistent (store id s w).manager
unfolding store
store-IsConsistent id s w v = ground (
  arith,
  modify-IsMap id (λ _. s) w.manager.sessions v.unique,
  lookup-modify id [] (λ _. s) w.manager.sessions,
  length-modify id (λ _. s) w.manager.sessions,
)

-- A step that does not touch the registry.
record Same (w w' : Sweep) : Type 0 where
  sessions : w'.manager.sessions ≡ w.manager.sessions
  count : w'.manager.count ≡ w.manager.count
  same_max : w'.manager.max_timeout_count ≡ w.manager.max_timeout_count

note-Same : (e : Event) (w : Sweep) → Same w (note e w)
unfolding note
note-Same e w = ground arith

expire_hook-Same : (id : Text) (w : Sweep) → Same w (expire_hook id w)
unfolding expire_hook note
expire_hook-Same id w = ground arith

list_timeout-Same : (id : Text) (s : ClientSession) (w : Sweep) → Same w (list_timeout id s w)
unfolding list_timeout
list_timeout-Same id s w = ground arith

Same-IsConsistent : (w w' : Sweep) → Same w w' → IsConsistent w.manager → IsConsistent w'.manager
Same-IsConsistent w w' e v = record {
  unique = rw e.sessions v.unique;
  named = rw e.sessions v.named;
  counted = rw (e.sessions, e.count) v.counted;
}

-- What a visit of the session `id` leaves: the entry of `id` is `o`, all others are as before.
pub record Leaves (id : Text) (o : Option ClientSession) (w w' : Sweep) : Type 0 where
  pub consistent : IsConsistent w'.manager
  pub same_max : w'.manager.max_timeout_count ≡ w.manager.max_timeout_count
  pub entries :
      (j : Text)
      → lookup j w'.manager.sessions ≡ (if text_eq id j then o else lookup j w.manager.sessions)

store-Leaves :
    (id : Text) (s t : ClientSession) (w : Sweep)
    → IsConsistent w.manager
    → lookup id w.manager.sessions ≡ some t
    → Leaves id (some s) w (store id s w)
store-Leaves id s t w v h = record {
  consistent = store-IsConsistent id s w v;
  same_max = unfold store in refl;
  entries = λ j. ground (arith, lookup-store id j s w, text_eq_iff id j);
}

expire_remove-Leaves :
    (id : Text) (t : ClientSession) (w : Sweep)
    → IsConsistent w.manager
    → lookup id w.manager.sessions ≡ some t
    → Leaves id none w (expire_remove id w)
unfolding expire_remove remove
expire_remove-Leaves id t w v h = record {
  consistent = ground (
    arith,
    remove-IsConsistent id w.manager,
    lookup-delete id [] w.manager.sessions v.unique,
    delete-IsMap id w.manager.sessions v.unique,
    length-delete id w.manager.sessions,
  );
  same_max = ground (arith);
  entries = λ j. ground (arith, lookup-delete id j w.manager.sessions v.unique);
}

Same-Leaves :
    (id : Text) (o : Option ClientSession) (w w' w'' : Sweep)
    → Same w w'
    → Leaves id o w' w''
    → Leaves id o w w''
Same-Leaves id o w w' w'' e l = record {
  consistent = l.consistent;
  same_max = l.same_max ∙ e.same_max;
  entries = λ j. rw (← e.sessions) (l.entries j);
}

Leaves-trans :
    (id : Text) (o p : Option ClientSession) (w w' w'' : Sweep)
    → Leaves id o w w'
    → Leaves id p w' w''
    → Leaves id p w w''
Leaves-trans id o p w w' w'' l k = record {
  consistent = k.consistent;
  same_max = k.same_max ∙ l.same_max;
  entries = λ j. ground (arith, l.entries j, k.entries j);
}

-- The session is stored, the close is noted, and the entry goes.
closing-Leaves :
    (id : Text) (s t : ClientSession) (w : Sweep)
    → IsConsistent w.manager
    → lookup id w.manager.sessions ≡ some t
    → Leaves id none w (expire_remove id (note (conn_closed id) (store id s w)))
closing-Leaves id s t w v h =
    let stored = store id s w in
    let l = store-Leaves id s t w v h in
    let e = note-Same (conn_closed id) stored in
    let there : lookup id stored.manager.sessions ≡ some s =
      ground (arith, l.entries id, text_eq_refl id) in
    Leaves-trans id (some s) none w stored _ l (
      Same-Leaves id none stored (note (conn_closed id) stored) _ e (
        expire_remove-Leaves id s _ (Same-IsConsistent stored _ e l.consistent)
          (ap (lookup id) e.sessions ∙ there)))

-- The third strike removes the session, whatever the hook and the connection do.
expire-Leaves :
    (id : Text) (s t : ClientSession) (w : Sweep)
    → IsConsistent w.manager
    → lookup id w.manager.sessions ≡ some t
    → s.conn ≢ none
    → (w' : Sweep) × (expire id s w ≡ some w') × Leaves id none w w'
unfolding expire
expire-Leaves id s t w v h c = elim (Option-cases (close s)) [
  | inl e ↦ absurd (c (unfold close in ground arith))
  | inr (s', e) ↦
      let hooked = expire_hook id w in
      let k = expire_hook-Same id w in
      (
        expire_remove id (note (conn_closed id) (store id s' hooked)),
        rw (e, expire),
        Same-Leaves id none w hooked _ k (
            closing-Leaves id s' t hooked (Same-IsConsistent w hooked k v)
              (ap (lookup id) k.sessions ∙ h)),
      )
]

-- A stale session: removed at the limit, and counted below it.
strike-Leaves :
    (id : Text) (s t : ClientSession) (w : Sweep)
    → IsConsistent w.manager
    → lookup id w.manager.sessions ≡ some t
    → s.conn ≢ none
    → (w' : Sweep) × (strike id s w ≡ some w')
      × Leaves id
          (if i32_leb w.manager.max_timeout_count s.timeout_count then none else some s)
          w
          w'
unfolding strike
strike-Leaves id s t w v h c =
    let stored = store id s w in
    let listed = list_timeout id s stored in
    let l = store-Leaves id s t w v h in
    let k = list_timeout-Same id s stored in
    let l' : Leaves id (some s) w listed = record {
      consistent = Same-IsConsistent stored listed k l.consistent;
      same_max = k.same_max ∙ l.same_max;
      entries = λ j. rw k.sessions (l.entries j);
    } in
    let there : lookup id listed.manager.sessions ≡ some s =
      ground (arith, l'.entries id, text_eq_refl id) in
    elim (Bool-cases (i32_leb w.manager.max_timeout_count s.timeout_count)) [
      | inl e ↦
          let (w', f, g) = expire-Leaves id s s listed l'.consistent there c in
          rw e (w', f, Leaves-trans id (some s) none w listed w' l' g)
      | inr e ↦ rw e (listed, refl, l')
    ]

calm-conn : (s : ClientSession) → (calm s).conn ≡ s.conn
unfolding calm
calm-conn s = ground arith

checked-conn : (max now : ℕ) (s u : ClientSession) → checked max now s ≡ some u → u.conn ≡ s.conn
unfolding checked increment_timeout_count
checked-conn max now s u e = ground (arith, calm-conn s)

-- One visit of a registered session with a connection does what `checked` says.
visit-Leaves :
    (now : ℕ) (id : Text) (s : ClientSession) (w : Sweep)
    → IsConsistent w.manager
    → lookup id w.manager.sessions ≡ some s
    → s.conn ≢ none
    → (w' : Sweep) × (visit now id w ≡ some w')
      × Leaves id (checked w.manager.max_timeout_count now s) w w'
unfolding visit visit_session checked increment_timeout_count
visit-Leaves now id s w v h c =
    rw (h, visit)
      (elim (Bool-cases (is_stale now s)) [
        | inl e ↦ rw e (strike-Leaves id (increment_timeout_count s) s w v h c)
        | inr e ↦ rw e (store id (calm s) w, refl, store-Leaves id (calm s) s w v h)
      ])

checked-connected :
    (max now : ℕ) (o : Option ClientSession) (u : ClientSession)
    → ((s : ClientSession) → o ≡ some s → s.conn ≢ none)
    → after_check max now o ≡ some u
    → u.conn ≢ none
checked-connected max now none u c e = cc
checked-connected max now (some s) u c e = rw (checked-conn max now s u e) (c s refl)

Leaves-AllConnected :
    (max now : ℕ) (id : Text) (w w' : Sweep)
    → AllConnected w.manager
    → Leaves id (after_check max now (lookup id w.manager.sessions)) w w'
    → AllConnected w'.manager
Leaves-AllConnected max now id w w' c l j u e = elim (Bool-cases (text_eq id j)) [
  | inl t ↦
      checked-connected max now (lookup id w.manager.sessions) u (c id)
        (sym (rw t at (l.entries j)) ∙ e)
  | inr f ↦ c j u (sym (rw f at (l.entries j)) ∙ e)
]

absent-Leaves :
    (id : Text) (w : Sweep)
    → IsConsistent w.manager
    → lookup id w.manager.sessions ≡ none
    → Leaves id none w w
absent-Leaves id w v h = record {
  consistent = v;
  same_max = refl;
  entries = λ j. ground (arith, text_eq_iff id j);
}

-- A visit of any key: total, and exactly what `checked` says.
pub visit_step :
    (now : ℕ) (id : Text) (w : Sweep)
    → IsConsistent w.manager
    → AllConnected w.manager
    → (w' : Sweep) × (visit now id w ≡ some w')
      × Leaves id (after_check w.manager.max_timeout_count now (lookup id w.manager.sessions)) w w'
      × AllConnected w'.manager
visit_step now id w v c = elim (Option-cases (lookup id w.manager.sessions)) [
  | inl e ↦ rw e (w, unfold visit in rw (e, visit), absent-Leaves id w v e, c)
  | inr (s, e) ↦
      let (w', f, l) = visit-Leaves now id s w v e (c id s e) in
      let l' : Leaves id
          (after_check w.manager.max_timeout_count now (lookup id w.manager.sessions)) w w' =
        rw e l in
      (w', f, l', Leaves-AllConnected _ now id w w' c l')
]
