-- ===== src/Session/Sharded/Examples.antt =====
-- Tests and examples for pkg/session/sharded_manager.go.
use quic_flow.Prelude.{◌≡◌, refl, true, false, some, none, List, [], ◌∷◌, arith}
use quic_flow.Prelude.Text.{Text}
use quic_flow.Session.Client.{new_client_session}
use quic_flow.Session.Manager.{new_session_manager}
use quic_flow.Session.Sharded.{new_sharded_manager, settle_shard_count, exists}
use quic_flow.Prelude.Map.{listed}
use quic_flow.Session.Sharded.Lists.{list_client_ids}
use quic_flow.Session.Sharded.Lists.Placement.{after, list_client_ids-exists}
use quic_flow.Session.Sharded.ShardCount.{suits, settle_shard_count-suits}
use quic_flow.Session.Sharded.Refinement.{
  Call, adds, removes, gets, outcomes, flat_outcomes, outcomes-new,
}

abbrev a_id : Text
a_id = b'a' ∷ []

abbrev b_id : Text
b_id = b'b' ∷ []

-- A second Add of one id fails, a Get finds it, and a second Remove fails.
abbrev calls : List Call
calls =
    adds (some (new_client_session a_id (some (b'1' ∷ [])) 5))
    ∷ adds none
    ∷ adds (some (new_client_session a_id none 6))
    ∷ gets a_id
    ∷ removes b_id
    ∷ removes a_id
    ∷ removes a_id
    ∷ gets []
    ∷ []

outcomes-new_example :
    outcomes calls (new_sharded_manager 32 0 0 false)
    ≡ flat_outcomes calls (new_session_manager 0 0 0 true)
outcomes-new_example = outcomes-new calls 32 0 0 0 0 0 false true

settle_shard_count-suits_example : suits 33 (settle_shard_count 33) ≡ true
settle_shard_count-suits_example = settle_shard_count-suits 33 (omega arith)

abbrev two_added : List Call
two_added =
    adds (some (new_client_session a_id none 5)) ∷ adds (some (new_client_session b_id none 6)) ∷ []

list_client_ids-exists_example :
    listed b_id (list_client_ids (after two_added (new_sharded_manager 4 0 0 false)))
    ≡ exists b_id (after two_added (new_sharded_manager 4 0 0 false))
list_client_ids-exists_example = list_client_ids-exists two_added 4 0 0 false b_id refl
