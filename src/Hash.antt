-- ===== src/Hash.antt =====
-- The FNV-1a hash of pkg/dispatcher/multi_queue.go (fnvHash) and of getShard in
-- pkg/session/sharded_manager.go: uint32 arithmetic over the bytes of a string.
use Prim.Native.Nat.{bit_xor}
use quic_flow.Prelude.{ℕ, ◌*◌, ◌%◌, [], ◌∷◌}
use quic_flow.Prelude.Text.{Text}

abbrev pub offset_basis : ℕ
offset_basis = 2166136261

abbrev pub fnv_prime : ℕ
fnv_prime = 16777619

abbrev pub u32_mod : ℕ
u32_mod = 4294967296

-- `hash ^= uint32(s[i]); hash *= 16777619`
abbrev pub fnv_step : ℕ → ℕ → ℕ
fnv_step hash byte = bit_xor hash byte * fnv_prime % u32_mod

unfoldable pub fnv_from : ℕ → Text → ℕ
fnv_from hash [] = hash
fnv_from hash (b ∷ s) = fnv_from (fnv_step hash b) s

unfoldable pub fnv_hash : Text → ℕ
unfolding fnv_from
fnv_hash s = fnv_from offset_basis s
