-- ===== src/Session/Sharded/Lists.antt =====
-- Range and the lists of pkg/session/sharded_manager.go. Range takes the shards in turn, and the
-- sessions of a shard in an order in which Go may range over the map.
pub mod Placement
use quic_flow.Prelude.{
  ℕ, zero, suc, ◌+◌, ◌-◌, ◌*◌, ◌/◌, ◌%◌, ◌≤◌, ◌<◌, ◌≡◌, refl, ap, sym, ◌∙◌, ◌⊎◌, inl, inr, ◌||◌,
  ◌&&◌, ◌==◌, leb, ltb, if◌then◌else◌, Bool, Bool-cases, true, false, Option, none, some, List, [],
  ◌∷◌, ◌++◌, map, arith,
}
use quic_flow.Prelude.Word.{i64_leb, i64_ltb}
use quic_flow.Prelude.Text.{Text, is_empty, text_eq, text_eq_iff}
use quic_flow.Prelude.Map.{
  Map, IsMap, lookup, insert, delete, keys, listed, listed-append, lookup-insert, lookup-delete,
  insert-IsMap, delete-IsMap, listed-keys-none, none-listed-keys,
}
use quic_flow.Hash.{fnv_hash}
use quic_flow.Session.Client.{ClientSession}
use quic_flow.Session.Manager.{
  Result, ok, err, invalid_client_id, session_already_exists, session_not_found, ClientInfoBrief,
  brief,
}
use quic_flow.Session.Paging.{page_loop}
use quic_flow.Session.Sharded.{
  ShardedManager, new_sharded_manager, shard_index, get_shard, store_session, drop_session, add,
  remove, get, exists,
}
use quic_flow.Session.Sharded.Refinement.{Call, adds, removes, gets, changed, call}

-- The sessions of `n` shards from the i-th on.
sessions_from : ℕ → ℕ → ShardedManager → Map ClientSession
sessions_from zero i sm = []
sessions_from (suc n) i sm = sm.shards i ++ sessions_from n (suc i) sm

-- Range, with a callback that never stops it.
unfoldable pub all_sessions : ShardedManager → Map ClientSession
unfolding sessions_from
all_sessions sm = sessions_from (suc sm.mask) 0 sm

unfoldable pub list_client_ids : ShardedManager → List Text
unfolding all_sessions
list_client_ids sm = keys (all_sessions sm)

unfoldable pub list_clients_with_details : ShardedManager → List ClientInfoBrief
unfolding all_sessions
list_clients_with_details sm = map (λ e. brief e.1) (all_sessions sm)

unfoldable pub list_clients_with_details_paginated :
    ℕ → ℕ → ShardedManager → Option (List ClientInfoBrief × ℕ)
unfolding all_sessions
list_clients_with_details_paginated offset limit sm =
    if i64_leb sm.count offset
    then some ([], sm.count)
    else (if i64_ltb limit 0 || i64_ltb sm.count 0
        then none
        else some (page_loop offset limit (all_sessions sm) 0 0 [], sm.count))
