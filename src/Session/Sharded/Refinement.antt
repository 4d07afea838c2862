-- ===== src/Session/Sharded/Refinement.antt =====
-- The sharded manager of pkg/session/sharded_manager.go answers like the manager of
-- pkg/session/manager.go.
use mathlib.Core.Path.{subst}
use quic_flow.Prelude.{
  ℕ, ◌≡◌, refl, ap, ◌∙◌, ◌==◌, if◌then◌else◌, Bool, true, false, Option, none, some, List, [], ◌∷◌,
  arith,
}
use quic_flow.Prelude.Text.{Text, is_empty, text_eq_iff}
use quic_flow.Prelude.Map.{
  Map, IsMap, lookup, insert, delete, lookup-insert, lookup-delete, insert-IsMap, delete-IsMap,
}
use quic_flow.Prelude.Word.{add64, dec64}
use quic_flow.Session.Client.{ClientSession}
use quic_flow.Session.Manager.{
  SessionManager, Result, Error, ok, err, invalid_client_id, session_already_exists,
  session_not_found, new_session_manager, add_session, add as flat_add, remove as flat_remove,
  get as flat_get,
}
use quic_flow.Session.Sharded.{
  ShardedManager, new_sharded_manager, shard_index, get_shard, store_session, drop_session, add,
  remove, get,
}

-- Both managers hold the same session for each id, and the same count.
record IsLike (d : ShardedManager) (sm : SessionManager) : Type 0 where
  found : (id : Text) → lookup id (d.shards (shard_index id d)) ≡ lookup id sm.sessions
  counted : d.count ≡ sm.count
  flat_map : IsMap sm.sessions
  shard_maps : (i : ℕ) → IsMap (d.shards i)

pub data Call : Type 0 where
  adds : Option ClientSession → Call
  removes : Text → Call
  gets : Text → Call

pub data Outcome : Type 0 where
  done : ℕ → Outcome
  failed : Error → Outcome
  answer : ClientSession → Outcome

-- A call's new manager and what the caller sees, with the count behind a change.
unfoldable pub changed : Result ShardedManager → ShardedManager → ShardedManager × Outcome
changed (ok d') d = (d', done d'.count)
changed (err e) d = (d, failed e)

flat_changed : Result SessionManager → SessionManager → SessionManager × Outcome
flat_changed (ok sm') sm = (sm', done sm'.count)
flat_changed (err e) sm = (sm, failed e)

answered : Result ClientSession → Outcome
answered (ok s) = answer s
answered (err e) = failed e

unfoldable pub call : Call → ShardedManager → ShardedManager × Outcome
unfolding changed answered
call (adds s) d = changed (add s d) d
call (removes id) d = changed (remove id d) d
call (gets id) d = (d, answered (get id d))

unfoldable pub flat_call : Call → SessionManager → SessionManager × Outcome
unfolding flat_changed answered
flat_call (adds s) sm = flat_changed (flat_add s sm) sm
flat_call (removes id) sm = flat_changed (flat_remove id sm) sm
flat_call (gets id) sm = (sm, answered (flat_get id sm))

unfoldable pub outcomes : List Call → ShardedManager → List Outcome
outcomes [] d = []
outcomes (c ∷ cs) d = let (d', o) = call c d in o ∷ outcomes cs d'

unfoldable pub flat_outcomes : List Call → SessionManager → List Outcome
flat_outcomes [] sm = []
flat_outcomes (c ∷ cs) sm = let (sm', o) = flat_call c sm in o ∷ flat_outcomes cs sm'

-- Like managers and the same outcome.
abbrev Agree : ShardedManager × Outcome → SessionManager × Outcome → Type 0
Agree (d, o) (sm, p) = IsLike d sm × (o ≡ p)

abbrev stored : ClientSession → SessionManager → SessionManager
stored s sm = record sm { sessions = insert s.client_id s sm.sessions; count = add64 sm.count 1 }

abbrev dropped : Text → SessionManager → SessionManager
dropped id sm = record sm { sessions = delete id sm.sessions; count = dec64 sm.count }

if-IsMap : (b : Bool) (m n : Map ClientSession) → IsMap m → IsMap n → IsMap (if b then m else n)
if-IsMap true m n h k = h
if-IsMap false m n h k = k

store_session-IsLike :
    (s : ClientSession) (d : ShardedManager) (sm : SessionManager)
    → IsLike d sm
    → IsLike (store_session s d) (stored s sm)
unfolding store_session get_shard shard_index
store_session-IsLike s d sm k = record {
  found = λ id.
      let f = k.found id in
      let l = lookup-insert s.client_id id s (d.shards (shard_index s.client_id d)) in
      let m = lookup-insert s.client_id id s sm.sessions in
      let same = text_eq_iff s.client_id id in ground arith;
  counted = ap (λ n. add64 n 1) k.counted;
  flat_map = insert-IsMap s.client_id s sm.sessions k.flat_map;
  shard_maps = λ i.
      let a =
        insert-IsMap s.client_id s (get_shard s.client_id d)
          (k.shard_maps (shard_index s.client_id d)) in
      let b = k.shard_maps i in
      if-IsMap (shard_index s.client_id d == i) (insert s.client_id s (get_shard s.client_id d))
        (d.shards i) a b;
}

drop_session-IsLike :
    (id : Text) (d : ShardedManager) (sm : SessionManager)
    → IsLike d sm
    → IsLike (drop_session id d) (dropped id sm)
unfolding drop_session get_shard shard_index
drop_session-IsLike id d sm k = record {
  found = λ j.
      let f = k.found j in
      let l = lookup-delete id j (d.shards (shard_index id d)) (k.shard_maps (shard_index id d)) in
      let m = lookup-delete id j sm.sessions k.flat_map in
      let same = text_eq_iff id j in ground arith;
  counted = ap dec64 k.counted;
  flat_map = delete-IsMap id sm.sessions k.flat_map;
  shard_maps = λ i.
      let a = delete-IsMap id (get_shard id d) (k.shard_maps (shard_index id d)) in
      let b = k.shard_maps i in
      if-IsMap (shard_index id d == i) (delete id (get_shard id d)) (d.shards i) a b;
}

-- The branches of both managers, where both find the same.
add-Agree :
    (d : ShardedManager) (sm : SessionManager) (d' : ShardedManager) (sm' : SessionManager)
    (empty : Bool) (x : Option ClientSession)
    → IsLike d sm
    → IsLike d' sm'
    → Agree
        (changed
          (if empty
            then err invalid_client_id
            else elim x [ some _ ↦ err session_already_exists | none ↦ ok d' ])
          d)
        (flat_changed
          (if empty
            then err invalid_client_id
            else elim x [ some _ ↦ err session_already_exists | none ↦ ok sm' ])
          sm)
unfolding changed flat_changed
add-Agree d sm d' sm' true x k k' = (k, refl)
add-Agree d sm d' sm' false none k k' = (k', ap done k'.counted)
add-Agree d sm d' sm' false (some _) k k' = (k, refl)

remove-Agree :
    (d : ShardedManager) (sm : SessionManager) (d' : ShardedManager) (sm' : SessionManager)
    (empty : Bool) (x : Option ClientSession)
    → IsLike d sm
    → IsLike d' sm'
    → Agree
        (changed
          (if empty
            then err invalid_client_id
            else elim x [ none ↦ err session_not_found | some _ ↦ ok d' ])
          d)
        (flat_changed
          (if empty
            then err invalid_client_id
            else elim x [ none ↦ err session_not_found | some _ ↦ ok sm' ])
          sm)
unfolding changed flat_changed
remove-Agree d sm d' sm' true x k k' = (k, refl)
remove-Agree d sm d' sm' false none k k' = (k, refl)
remove-Agree d sm d' sm' false (some _) k k' = (k', ap done k'.counted)

call-Agree :
    (c : Call) (d : ShardedManager) (sm : SessionManager)
    → IsLike d sm
    → Agree (call c d) (flat_call c sm)
unfolding call flat_call add remove get flat_add add_session flat_remove flat_get get_shard changed
    flat_changed
call-Agree (adds none) d sm k = (k, refl)
call-Agree (adds (some s)) d sm k =
    subst
      (λ x. Agree (call (adds (some s)) d) (
        flat_changed
          (if is_empty s.client_id
            then err invalid_client_id
            else elim x [ some _ ↦ err session_already_exists | none ↦ ok (stored s sm) ])
          sm))
      (k.found s.client_id)
      (add-Agree d sm (store_session s d) (stored s sm) (is_empty s.client_id)
        (lookup s.client_id (get_shard s.client_id d)) k (store_session-IsLike s d sm k))
call-Agree (removes id) d sm k =
    subst
      (λ x. Agree (call (removes id) d) (
        flat_changed
          (if is_empty id
            then err invalid_client_id
            else elim x [ none ↦ err session_not_found | some _ ↦ ok (dropped id sm) ])
          sm))
      (k.found id)
      (remove-Agree d sm (drop_session id d) (dropped id sm) (is_empty id)
        (lookup id (get_shard id d)) k (drop_session-IsLike id d sm k))
call-Agree (gets id) d sm k = (
  k,
  ap
      (λ (x : Option ClientSession). answered (
        if is_empty id
        then err invalid_client_id
        else elim x [ none ↦ err session_not_found | some s ↦ ok s ]))
      (k.found id),
)

outcome_cons : {o p : Outcome} {os ps : List Outcome} → o ≡ p → os ≡ ps → (o ∷ os) ≡ (p ∷ ps)
outcome_cons {o} {p} {os} {ps} e es = ap (λ x. x ∷ os) e ∙ ap (λ xs. p ∷ xs) es

outcomes_like :
    (cs : List Call) (d : ShardedManager) (sm : SessionManager)
    → IsLike d sm
    → outcomes cs d ≡ flat_outcomes cs sm
unfolding outcomes flat_outcomes
outcomes_like [] d sm k = refl
outcomes_like (c ∷ cs) d sm k =
    let (k', e) = call-Agree c d sm k in
    outcome_cons e (outcomes_like cs (call c d).0 (flat_call c sm).0 k')

-- From new managers on, for any shard count and settings of both, every sequence of Add, Remove and
-- Get has the same outcomes with the sharded manager as with the manager of one map: the same
-- errors, the same sessions, and the same counts after the changes.
pub outcomes-new :
    (cs : List Call) (shard_count timeout max interval timeout' max' : ℕ) (hooks hooks' : Bool)
    → outcomes cs (new_sharded_manager shard_count timeout max hooks)
      ≡ flat_outcomes cs (new_session_manager interval timeout' max' hooks')
unfolding new_sharded_manager new_session_manager lookup
outcomes-new cs shard_count timeout max interval timeout' max' hooks hooks' =
    outcomes_like cs (new_sharded_manager shard_count timeout max hooks)
      (new_session_manager interval timeout' max' hooks')
      (record { found = λ id. refl; counted = refl; flat_map = tt; shard_maps = λ i. tt })
