-- ===== src/Session/Sharded/Lists/Placement.antt =====
-- Where the sharded manager keeps its sessions, and what Range reaches (pkg/session/sharded_manager.go).
use Prim.Native.Nat.{bit_and, bit_and-bitwise, digits, min}
use quic_flow.Prelude.{
  ℕ, zero, suc, ◌+◌, ◌/◌, ◌≤◌, ◌≡◌, refl, ap, ◌∙◌, inl, inr, ◌||◌, ◌&&◌, ◌==◌, leb, ltb,
  if◌then◌else◌, Bool, Bool-cases, true, false, Option, none, some, List, [], ◌∷◌, ◌++◌, arith,
}
use quic_flow.Prelude.Text.{Text, is_empty, text_eq, text_eq_iff}
use quic_flow.Prelude.Map.{
  Map, lookup, insert, delete, keys, listed, listed-append, listed-keys-none, none-listed-keys,
}
use quic_flow.Hash.{fnv_hash}
use quic_flow.Session.Client.{ClientSession}
use quic_flow.Session.Manager.{
  ok, err, invalid_client_id, session_already_exists, session_not_found,
}
use quic_flow.Session.Sharded.{
  ShardedManager, new_sharded_manager, shard_index, get_shard, store_session, drop_session, add,
  remove, exists,
}
use quic_flow.Session.Sharded.Refinement.{Call, adds, removes, gets, changed, call}
use quic_flow.Session.Sharded.Lists.{sessions_from, list_client_ids}

digits-bound : (n a b : ℕ) → digits (λ _. 0) min n a b ≤ b
digits-bound zero a b = omega arith
digits-bound (suc n) zero b = omega arith
digits-bound (suc n) (suc a) b = let h = digits-bound n (suc a / 2) (b / 2) in omega arith

mask-bound : (a b : ℕ) → bit_and a b ≤ b
mask-bound a b = let e = bit_and-bitwise a b in rw e (digits-bound a a b)

-- Every session is in the shard of its id.
IsPlaced : ShardedManager → Type 0
IsPlaced d = (i : ℕ) (id : Text) → listed id (keys (d.shards i)) ≡ true → shard_index id d ≡ i

keys-append : (m n : Map ClientSession) → keys (m ++ n) ≡ keys m ++ keys n
unfolding keys
keys-append [] n = refl
keys-append ((i, s) ∷ m) n = ap (λ l. i ∷ l) (keys-append m n)

listed-insert :
    (k j : Text) (s : ClientSession) (m : Map ClientSession)
    → listed j (keys (insert k s m)) ≡ (text_eq k j || listed j (keys m))
unfolding insert keys listed
listed-insert k j s [] = refl
listed-insert k j s ((i, w) ∷ m) =
    ground (arith, text_eq_iff k j, text_eq_iff i k, text_eq_iff i j, listed-insert k j s m)

listed-delete :
    (k j : Text) (m : Map ClientSession)
    → listed j (keys (delete k m)) ≡ true
    → listed j (keys m) ≡ true
unfolding delete keys listed
listed-delete k j [] h = h
listed-delete k j ((i, w) ∷ m) h = ground (arith, listed-delete k j m)

listed-shard :
    (id : Text) (i : ℕ) (d : ShardedManager)
    → IsPlaced d
    → listed id (keys (d.shards i)) ≡ ((shard_index id d == i) && listed id (keys (get_shard id d)))
unfolding get_shard IsPlaced
listed-shard id i d p =
    let placed = p i id in
    elim (Bool-cases (shard_index id d == i)) [
      | inl at ↦
          let e : shard_index id d ≡ i = ground arith in
          let same = ap (λ k. listed id (keys (d.shards k))) e in ground arith
      | inr off ↦ ground arith
    ]

listed-from :
    (id : Text) (n i : ℕ) (d : ShardedManager)
    → IsPlaced d
    → listed id (keys (sessions_from n i d)) ≡ (
        leb i (shard_index id d)
        && ltb (shard_index id d) (i + n)
        && listed id (keys (get_shard id d)))
unfolding sessions_from keys listed
listed-from id zero i d p = ground arith
listed-from id (suc n) i d p =
    let first = listed-shard id i d p in
    let rest = listed-from id n (suc i) d p in
    ap (listed id) (keys-append (d.shards i) (sessions_from n (suc i) d))
    ∙ listed-append id (keys (d.shards i)) (keys (sessions_from n (suc i) d))
    ∙ ground arith

-- A shard is replaced by a map whose ids belong into it.
placed_behind :
    (index : Text → ℕ) (shards : ℕ → Map ClientSession) (k : ℕ) (m : Map ClientSession)
    → ((id : Text) → listed id (keys m) ≡ true → index id ≡ k)
    → ((i : ℕ) (id : Text) → listed id (keys (shards i)) ≡ true → index id ≡ i)
    → (i : ℕ) (id : Text) → listed id (keys (if k == i then m else shards i)) ≡ true
    → index id ≡ i
placed_behind index shards k m new old i id h = elim (Bool-cases (k == i)) [
  | inl at ↦ let e : k ≡ i = ground arith in new id (simp at at h) ∙ e
  | inr off ↦ old i id (simp off at h)
]

insert-placed :
    (index : Text → ℕ) (id j : Text) (s : ClientSession) (m : Map ClientSession)
    → ((j : Text) → listed j (keys m) ≡ true → index j ≡ index id)
    → listed j (keys (insert id s m)) ≡ true
    → index j ≡ index id
insert-placed index id j s m old h = elim (Bool-cases (text_eq id j)) [
  | inl same ↦ let same_id = text_eq_iff id j in let e : j ≡ id = ground arith in ap index e
  | inr other ↦ let put = listed-insert id j s m in old j (ground arith)
]

store_session-IsPlaced :
    (s : ClientSession) (d : ShardedManager) → IsPlaced d → IsPlaced (store_session s d)
unfolding IsPlaced store_session shard_index get_shard
store_session-IsPlaced s d p =
    let index : Text → ℕ = λ id. shard_index id d in
    let k = shard_index s.client_id d in
    placed_behind index d.shards k (insert s.client_id s (d.shards k))
      (λ j h. insert-placed index s.client_id j s (d.shards k) (p k) h) p

drop_session-IsPlaced : (k : Text) (d : ShardedManager) → IsPlaced d → IsPlaced (drop_session k d)
unfolding IsPlaced drop_session shard_index get_shard
drop_session-IsPlaced k d p =
    let i = shard_index k d in
    placed_behind (λ id. shard_index id d) d.shards i (delete k (d.shards i))
      (λ j h. p i j (listed-delete k j (d.shards i) h)) p

-- The branches of Add and Remove.
add-IsPlaced :
    (empty : Bool) (x : Option ClientSession) (d d' : ShardedManager)
    → IsPlaced d
    → IsPlaced d'
    → IsPlaced
        (changed
          (if empty
            then err invalid_client_id
            else elim x [ some _ ↦ err session_already_exists | none ↦ ok d' ])
          d).0
unfolding changed
add-IsPlaced true x d d' p p' = p
add-IsPlaced false none d d' p p' = p'
add-IsPlaced false (some _) d d' p p' = p

remove-IsPlaced :
    (empty : Bool) (x : Option ClientSession) (d d' : ShardedManager)
    → IsPlaced d
    → IsPlaced d'
    → IsPlaced
        (changed
          (if empty
            then err invalid_client_id
            else elim x [ none ↦ err session_not_found | some _ ↦ ok d' ])
          d).0
unfolding changed
remove-IsPlaced true x d d' p p' = p
remove-IsPlaced false none d d' p p' = p
remove-IsPlaced false (some _) d d' p p' = p'

-- The manager behind some calls.
unfoldable pub after : List Call → ShardedManager → ShardedManager
after [] d = d
after (c ∷ cs) d = after cs (call c d).0

call-IsPlaced : (c : Call) (d : ShardedManager) → IsPlaced d → IsPlaced (call c d).0
unfolding call add remove
call-IsPlaced (adds none) d p = p
call-IsPlaced (adds (some s)) d p =
    add-IsPlaced (is_empty s.client_id) (lookup s.client_id (get_shard s.client_id d)) d
      (store_session s d) p (store_session-IsPlaced s d p)
call-IsPlaced (removes id) d p =
    remove-IsPlaced (is_empty id) (lookup id (get_shard id d)) d (drop_session id d) p
      (drop_session-IsPlaced id d p)
call-IsPlaced (gets id) d p = p

after-IsPlaced : (cs : List Call) (d : ShardedManager) → IsPlaced d → IsPlaced (after cs d)
unfolding after
after-IsPlaced [] d p = p
after-IsPlaced (c ∷ cs) d p = after-IsPlaced cs (call c d).0 (call-IsPlaced c d p)

new-IsPlaced :
    (shard_count timeout max : ℕ) (hooks : Bool)
    → IsPlaced (new_sharded_manager shard_count timeout max hooks)
unfolding IsPlaced new_sharded_manager listed keys
new-IsPlaced shard_count timeout max hooks i id h = absurd (cc h)

listed-lookup :
    (id : Text) (m : Map ClientSession) (o : Option ClientSession)
    → lookup id m ≡ o
    → listed id (keys m) ≡ elim o [ none ↦ false | some _ ↦ true ]
listed-lookup id m none e = none-listed-keys id m e
listed-lookup id m (some s) e = elim (Bool-cases (listed id (keys m))) [
  | inl there ↦ there
  | inr out ↦ let gone = listed-keys-none id m out in absurd (cc (e, gone))
]

listed-exists :
    (id : Text) (d : ShardedManager)
    → is_empty id ≡ false
    → listed id (keys (get_shard id d)) ≡ exists id d
unfolding exists
listed-exists id d named =
    rw named (listed-lookup id (get_shard id d) (lookup id (get_shard id d)) refl)

-- Behind any calls of Add, Remove and Get from a new manager on, for any shard count, ListClientIDs
-- has exactly the ids for which Exists answers true, among those that are not empty.
pub list_client_ids-exists :
    (cs : List Call) (shard_count timeout max : ℕ) (hooks : Bool) (id : Text)
    → is_empty id ≡ false
    → let d = after cs (new_sharded_manager shard_count timeout max hooks) in
      listed id (list_client_ids d) ≡ exists id d
unfolding list_client_ids shard_index
list_client_ids-exists cs shard_count timeout max hooks id named =
    let d = after cs (new_sharded_manager shard_count timeout max hooks) in
    let p = after-IsPlaced cs _ (new-IsPlaced shard_count timeout max hooks) in
    let bound = mask-bound (fnv_hash id) d.mask in
    listed-from id (suc d.mask) 0 d p ∙ ground arith ∙ listed-exists id d named
