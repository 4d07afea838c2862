-- ===== src/Session/Sharded/ShardCount.antt =====
-- The shard count of NewShardedSessionManager in pkg/session/sharded_manager.go.
use Prim.Native.Nat.{bit_and}
use native.Mathlib.Nat.{mod-eq_of_lt}
use quic_flow.Prelude.{
  ℕ, zero, suc, ◌*◌, ◌-◌, ◌≤◌, ◌<◌, ◌≡◌, refl, ap, ◌∙◌, ltb, leb, ◌==◌, ◌&&◌, ◌||◌, if◌then◌else◌,
  Bool, Bool-cases, true, false, List, [], ◌∷◌, arith, inl, inr, ◌%◌,
}
use quic_flow.Prelude.Word.{i64_mod}
use quic_flow.Session.Sharded.{next_power, round_shard_count, settle_shard_count}

abbrev any_eq : ℕ → List ℕ → Bool
any_eq c [] = false
any_eq c (p ∷ ps) = c == p || any_eq c ps

abbrev pub powers : List ℕ
powers = 1 ∷ 2 ∷ 4 ∷ 8 ∷ 16 ∷ 32 ∷ 64 ∷ 128 ∷ 256 ∷ []

-- `c` is what the setting `n` asks for: a power of two; 32 for no setting, 256 for more than that,
-- and otherwise the least power that is not below `n`.
unfoldable pub suits : ℕ → ℕ → Bool
suits n c =
    any_eq c powers
    && (if n == 0 then c == 32 else (if ltb 256 n then c == 256 else leb n c && ltb c (2 * n)))

all_suit : ℕ → Bool
all_suit zero = true
all_suit (suc n) = suits n (settle_shard_count n) && all_suit n

all_suit-small : all_suit 257 ≡ true
unfolding all_suit suits settle_shard_count round_shard_count next_power
all_suit-small = refl

all_suit-each : (m n : ℕ) → n < m → all_suit m ≡ true → suits n (settle_shard_count n) ≡ true
unfolding all_suit
all_suit-each zero n h a = ground arith
all_suit-each (suc m) n h a = elim (Bool-cases (n == m)) [
  | inl same ↦ let e : n ≡ m = ground arith in ground arith
  | inr other ↦ all_suit-each m n (ground arith) (ground arith)
]

-- The power after `fuel` doublings.
doubled : ℕ → ℕ → ℕ
doubled zero power = power
doubled (suc fuel) power = doubled fuel (power * 2)

le-doubled : (fuel power : ℕ) → power ≤ doubled fuel power
unfolding doubled
le-doubled zero power = omega arith
le-doubled (suc fuel) power = omega (arith, le-doubled fuel (power * 2))

-- With enough fuel the loop ends at or above the count.
le-next_power :
    (fuel power n : ℕ)
    → n ≤ doubled fuel power
    → doubled fuel power < i64_mod
    → n ≤ next_power fuel power n
unfolding next_power doubled
le-next_power zero power n h b = omega arith
le-next_power (suc fuel) power n h b =
    let grows = le-doubled fuel (power * 2) in
    let small : power * 2 % i64_mod ≡ power * 2 = mod-eq_of_lt (omega arith) in
    let e = ap (λ q. next_power fuel q n) small in
    let ih = le-next_power fuel (power * 2) n h b in ground arith

either_large :
    (n : ℕ) (is_power : Bool)
    → 256 < n
    → n ≤ next_power 62 1 n
    → (let power = if is_power then n else next_power 62 1 n in
        if ltb 256 power then 256 else power)
      ≡ 256
either_large n true h k = ground arith
either_large n false h k = ground arith

settle-large : (n : ℕ) → 256 < n → n ≤ doubled 62 1 → settle_shard_count n ≡ 256
unfolding settle_shard_count round_shard_count
settle-large n h b =
    let bound : doubled 62 1 < i64_mod = unfold doubled in omega arith in
    let reached = le-next_power 62 1 n b bound in
    let kept : (if n == 0 then 32 else n) ≡ n = ground arith in
    ap round_shard_count kept ∙ either_large n (bit_and n (n - 1) == 0) h reached

-- For every setting up to 2 ^ 62 the shard count is a power of two: 32 for a setting that is not
-- positive, 256 for one above 256, and otherwise the least power of two that is not below it.
pub settle_shard_count-suits :
    (n : ℕ) → n ≤ 4611686018427387904 → suits n (settle_shard_count n) ≡ true
settle_shard_count-suits n b = elim (Bool-cases (ltb 256 n)) [
  | inl large ↦
      let e = settle-large n (ground arith) (unfold doubled in b) in unfold suits in ground arith
  | inr few ↦ all_suit-each 257 n (ground arith) all_suit-small
]
