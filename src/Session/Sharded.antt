-- ===== src/Session/Sharded.antt =====
-- pkg/session/sharded_manager.go: the registry of sessions over several shards.
-- The array of shards is a function of the index, which is always the hash masked by the shard
-- count less 1. Each change is made under the lock of its shard; the calls are taken one after
-- another.
pub mod Refinement
pub mod ShardCount
pub mod Lists
mod Examples
use Prim.Native.Nat.{bit_and}
use quic_flow.Prelude.{
  ℕ, zero, suc, ltb, ◌%◌, ◌*◌, ◌-◌, ◌==◌, if◌then◌else◌, Bool, true, false, Option, none, some,
  List, [], ◌∷◌,
}
use quic_flow.Prelude.Word.{i64_mod, add64, dec64}
use quic_flow.Prelude.Text.{Text, is_empty}
use quic_flow.Prelude.Map.{Map, lookup, insert, delete}
use quic_flow.Hash.{fnv_hash}
use quic_flow.Session.Client.{ClientSession, second}
use quic_flow.Session.Manager.{
  Result, ok, err, invalid_config, invalid_client_id, session_already_exists, session_not_found,
}
use quic_flow.Session.TimeWheel.{TimeWheel, new_time_wheel, register, unregister}

pub record ShardedManager : Type 0 where
  pub shards : ℕ → Map ClientSession
  pub mask : ℕ
  pub count : ℕ  -- atomic.Int64, as a bit pattern
  pub wheel : TimeWheel

-- `for nextPower < config.ShardCount { nextPower <<= 1 }` from `power`, for at most `fuel` rounds;
-- `<<` shifts an int. From 1 on, 62 rounds are enough for every count up to 2 ^ 62.
pub next_power : ℕ → ℕ → ℕ → ℕ
next_power zero power n = power
next_power (suc fuel) power n =
    let rest = next_power fuel (power * 2 % i64_mod) n in if ltb power n then rest else power

round_shard_count : ℕ → ℕ
unfolding next_power
round_shard_count count =
    let power = if bit_and count (count - 1) == 0 then count else next_power 62 1 count in
    if ltb 256 power then 256 else power

-- The shard count for a setting; one that is not positive is 0 here.
pub settle_shard_count : ℕ → ℕ
unfolding round_shard_count
settle_shard_count n = round_shard_count (if n == 0 then 32 else n)

unfoldable pub new_sharded_manager : ℕ → ℕ → ℕ → Bool → ShardedManager
unfolding settle_shard_count
new_sharded_manager shard_count timeout max hooks = record {
  shards = λ i. [];
  mask = settle_shard_count shard_count - 1;
  count = 0;
  wheel = new_time_wheel 60 second timeout max hooks;
}

pub shard_index : Text → ShardedManager → ℕ
shard_index id sm = bit_and (fnv_hash id) sm.mask

-- getShard.
pub get_shard : Text → ShardedManager → Map ClientSession
unfolding shard_index
get_shard id sm = sm.shards (shard_index id sm)

abbrev set_shard : ℕ → Map ClientSession → (ℕ → Map ClientSession) → ℕ → Map ClientSession
set_shard i m shards j = if i == j then m else shards j

-- A session under its lock, once its id is known to be new, and known to be there.
store_session : ClientSession → ShardedManager → ShardedManager
unfolding get_shard
store_session s sm =
    let id = s.client_id in
    record sm {
      shards = set_shard (shard_index id sm) (insert id s (get_shard id sm)) sm.shards;
      count = add64 sm.count 1;
      wheel = register id sm.wheel;
    }

drop_session : Text → ShardedManager → ShardedManager
unfolding get_shard
drop_session id sm = record sm {
  shards = set_shard (shard_index id sm) (delete id (get_shard id sm)) sm.shards;
  count = dec64 sm.count;
  wheel = unregister id sm.wheel;
}

pub add : Option ClientSession → ShardedManager → Result ShardedManager
unfolding store_session get_shard
add none sm = err invalid_config
add (some s) sm =
    if is_empty s.client_id
    then err invalid_client_id
    else elim (lookup s.client_id (get_shard s.client_id sm)) [
      | some _ ↦ err session_already_exists
      | none ↦ ok (store_session s sm)
    ]

pub remove : Text → ShardedManager → Result ShardedManager
unfolding drop_session get_shard
remove id sm = if is_empty id then err invalid_client_id else elim (lookup id (get_shard id sm)) [
  | none ↦ err session_not_found
  | some _ ↦ ok (drop_session id sm)
]

pub get : Text → ShardedManager → Result ClientSession
unfolding get_shard
get id sm =
    if is_empty id
    then err invalid_client_id
    else elim (lookup id (get_shard id sm)) [ none ↦ err session_not_found | some s ↦ ok s ]

pub exists : Text → ShardedManager → Bool
unfolding get_shard
exists id sm =
    if is_empty id
    then false
    else elim (lookup id (get_shard id sm)) [ none ↦ false | some _ ↦ true ]
