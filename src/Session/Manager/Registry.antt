-- ===== src/Session/Manager/Registry.antt =====
-- The registry of pkg/session/manager.go: Add, Remove, Get and the counter.
use quic_flow.Prelude.{◌+◌, ◌%◌, ◌<◌, ◌≡◌, Option, none, some, [], if◌then◌else◌, arith, length}
use quic_flow.Prelude.Word.{dec64, i64_mod}
use quic_flow.Prelude.Text.{Text, text_eq, text_eq_iff, text_eq_refl}
use quic_flow.Prelude.Map.{
  lookup, delete, IsMap, lookup-insert, lookup-delete, insert-IsMap, delete-IsMap, length-insert,
  length-delete,
}
use quic_flow.Session.Client.{ClientSession}
use quic_flow.Session.Manager.{
  ok, err, SessionManager, add, add_session, remove, get, session_already_exists,
}

-- No id is registered twice, none is empty, and the counter is the number of sessions.
pub record IsConsistent (sm : SessionManager) : Type 0 where
  pub unique : IsMap sm.sessions
  pub named : lookup [] sm.sessions ≡ none
  pub counted : sm.count ≡ length sm.sessions % i64_mod

-- A session that `Add` accepts is what `Get` returns for its id, and `Get` of any other id
-- returns what it did.
pub get-add :
    (s : ClientSession) (sm sm' : SessionManager) (id : Text)
    → add (some s) sm ≡ ok sm'
    → get id sm' ≡ (if text_eq s.client_id id then ok s else get id sm)
unfolding add add_session get
get-add s sm sm' id h =
    ground (arith, lookup-insert s.client_id id s sm.sessions, text_eq_iff s.client_id id)

pub add-IsConsistent :
    (s : Option ClientSession) (sm sm' : SessionManager)
    → IsConsistent sm
    → add s sm ≡ ok sm'
    → IsConsistent sm'
unfolding add add_session
add-IsConsistent none sm sm' v h = ground arith
add-IsConsistent (some s) sm sm' v h = ground (
  arith,
  lookup-insert s.client_id [] s sm.sessions,
  text_eq_iff s.client_id [],
  insert-IsMap s.client_id s sm.sessions,
  length-insert s.client_id s sm.sessions,
)

pub remove-IsConsistent :
    (id : Text) (sm sm' : SessionManager)
    → IsConsistent sm
    → remove id sm ≡ ok sm'
    → IsConsistent sm'
unfolding remove
remove-IsConsistent id sm sm' v h = ground (
  arith,
  lookup-delete id [] sm.sessions v.unique,
  delete-IsMap id sm.sessions v.unique,
  length-delete id sm.sessions,
)

-- `Remove` after `Add` of the same id succeeds, and gives back the registry as it was: the same
-- answer of `Get` for every id, and the same counter.
pub remove-add :
    (s : ClientSession) (sm sm' : SessionManager)
    → IsConsistent sm
    → sm.count + 1 < i64_mod
    → add (some s) sm ≡ ok sm'
    → (sm'' : SessionManager) × (remove s.client_id sm' ≡ ok sm'')
      × (sm''.count ≡ sm.count)
      × ((id : Text) → get id sm'' ≡ get id sm)
unfolding add remove get
remove-add s sm sm' v b h =
    let m = sm'.sessions in
    let there : lookup s.client_id m ≡ some s =
      ground
        (arith, lookup-insert s.client_id s.client_id s sm.sessions, text_eq_refl s.client_id) in
    let u : IsMap m = ground (arith, insert-IsMap s.client_id s sm.sessions, v.unique) in
    (
      record sm' { sessions = delete s.client_id m; count = dec64 sm'.count },
      ground (arith, there),
      ground arith,
      λ id. ground (
        arith,
        lookup-delete s.client_id id m u,
        lookup-insert s.client_id id s sm.sessions,
        text_eq_iff s.client_id id,
      ),
    )

-- A second `Add` of an id fails, whatever the session.
pub add_again :
    (s t : ClientSession) (sm sm' : SessionManager)
    → add (some s) sm ≡ ok sm'
    → t.client_id ≡ s.client_id
    → add (some t) sm' ≡ err session_already_exists
unfolding add
add_again s t sm sm' h e =
    ground (arith, lookup-insert s.client_id s.client_id s sm.sessions, text_eq_refl s.client_id)
