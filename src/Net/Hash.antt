-- ===== src/Net/Hash.antt =====
-- `vx_net_hash_state`: the FNV-1a checksum by which peers compare their simulation states.
pub mod Detect
use chess_rts.Base.{ℕ, ◌*◌, ◌%◌, ◌^◌, bit_xor, List, [], ◌∷◌, if◌then◌else◌, ◌==◌}

abbrev pub fnv_prime : ℕ
fnv_prime = 0x01000193

abbrev pub fnv_basis : ℕ
fnv_basis = 0x811C9DC5

-- `hash ^= byte; hash *= 0x01000193;` on uint32_t
unfoldable pub hash_step : ℕ → ℕ → ℕ
hash_step hash byte = bit_xor hash byte * fnv_prime % 2 ^ 32

unfoldable pub hash_bytes : ℕ → List ℕ → ℕ
hash_bytes hash [] = hash
hash_bytes hash (byte ∷ bytes) = hash_bytes (hash_step hash byte) bytes

-- The list is the `length` bytes at `data`.
unfoldable pub vx_net_hash_state : List ℕ → ℕ → ℕ
vx_net_hash_state bytes initial_hash =
    hash_bytes (if initial_hash == 0 then fnv_basis else initial_hash) bytes
