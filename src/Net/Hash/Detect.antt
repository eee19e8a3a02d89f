-- ===== src/Net/Hash/Detect.antt =====
-- The checksum can be taken piece by piece, and it tells apart states that differ in one byte.
use chess_rts.Base.{
  ℕ, ◌*◌, ◌%◌, ◌^◌, ◌<◌, ◌≡◌, ◌≢◌, refl, ap, sym, ◌∙◌, bit_xor, List, [], ◌∷◌, ◌++◌, if◌then◌else◌,
  ◌==◌, arith,
}
use chess_rts.Base.Bits.{bit_xor-lt, bit_xor_undo, bit_xor_comm}
use chess_rts.Net.Hash.{fnv_prime, fnv_basis, hash_step, hash_bytes, vx_net_hash_state}

hash_step-lt : (h b : ℕ) → hash_step h b < 2 ^ 32
unfolding hash_step
hash_step-lt h b = omega arith

-- The prime is odd, so multiplying by it loses nothing modulo 2 ^ 32.
fnv_prime_inverse : (x : ℕ) → x < 2 ^ 32 → x * fnv_prime % 2 ^ 32 * 0x359c449b % 2 ^ 32 ≡ x
fnv_prime_inverse x h = omega arith

hash_step-injective :
    (h g a b : ℕ)
    → h < 2 ^ 32
    → g < 2 ^ 32
    → a < 256
    → b < 256
    → hash_step h a ≡ hash_step g b
    → bit_xor h a ≡ bit_xor g b
unfolding hash_step
hash_step-injective h g a b hh hg ha hb e =
    sym (fnv_prime_inverse _ (bit_xor-lt 32 h a hh (omega arith)))
    ∙ ap (λ t. t * 0x359c449b % 2 ^ 32) e
    ∙ fnv_prime_inverse _ (bit_xor-lt 32 g b hg (omega arith))

-- Different bytes after the same state, and different states before the same byte.
step_ne_byte : (h a b : ℕ) → h < 2 ^ 32 → a < 256 → b < 256 → a ≢ b → hash_step h a ≢ hash_step h b
step_ne_byte h a b hh ha hb ne e = ne (
    sym (bit_xor_undo a h)
    ∙ ap (λ t. bit_xor t h)
        (bit_xor_comm a h ∙ hash_step-injective h h a b hh hh ha hb e ∙ bit_xor_comm h b)
    ∙ bit_xor_undo b h)

step_ne_state :
    (h g b : ℕ) → h < 2 ^ 32 → g < 2 ^ 32 → b < 256 → h ≢ g → hash_step h b ≢ hash_step g b
step_ne_state h g b hh hg hb ne e = ne (
    sym (bit_xor_undo h b)
    ∙ ap (λ t. bit_xor t b) (hash_step-injective h g b b hh hg hb hb e)
    ∙ bit_xor_undo g b)

abbrev pub AreBytes : List ℕ → Type 0
AreBytes [] = Unit
AreBytes (b ∷ bytes) = (b < 256) × AreBytes bytes

bytes_ne_state :
    (bytes : List ℕ) (h g : ℕ)
    → AreBytes bytes
    → h < 2 ^ 32
    → g < 2 ^ 32
    → h ≢ g
    → hash_bytes h bytes ≢ hash_bytes g bytes
unfolding hash_bytes
bytes_ne_state [] h g q hh hg ne = ne
bytes_ne_state (b ∷ bytes) h g q hh hg ne =
    bytes_ne_state bytes (hash_step h b) (hash_step g b) q.1 (hash_step-lt h b) (hash_step-lt g b)
      (step_ne_state h g b hh hg q.0 ne)

bytes_ne_byte :
    (before : List ℕ) (h a b : ℕ) (behind : List ℕ)
    → h < 2 ^ 32
    → a < 256
    → b < 256
    → AreBytes behind
    → a ≢ b
    → hash_bytes h (before ++ a ∷ behind) ≢ hash_bytes h (before ++ b ∷ behind)
unfolding hash_bytes
bytes_ne_byte [] h a b behind hh ha hb q ne =
    bytes_ne_state behind (hash_step h a) (hash_step h b) q (hash_step-lt h a) (hash_step-lt h b)
      (step_ne_byte h a b hh ha hb ne)
bytes_ne_byte (x ∷ before) h a b behind hh ha hb q ne =
    bytes_ne_byte before (hash_step h x) a b behind (hash_step-lt h x) ha hb q ne

-- Two states of the same length that differ in exactly one byte have different checksums, whatever
-- the initial hash.
pub hash_state_detects :
    (before : List ℕ) (initial_hash a b : ℕ) (behind : List ℕ)
    → initial_hash < 2 ^ 32
    → a < 256
    → b < 256
    → AreBytes behind
    → a ≢ b
    → vx_net_hash_state (before ++ a ∷ behind) initial_hash
      ≢ vx_net_hash_state (before ++ b ∷ behind) initial_hash
unfolding vx_net_hash_state
hash_state_detects before i a b behind hi ha hb q ne =
    bytes_ne_byte before _ a b behind (ground arith) ha hb q ne

hash_bytes-append :
    (h : ℕ) (xs ys : List ℕ) → hash_bytes h (xs ++ ys) ≡ hash_bytes (hash_bytes h xs) ys
unfolding hash_bytes
hash_bytes-append h [] ys = refl
hash_bytes-append h (x ∷ xs) ys = hash_bytes-append (hash_step h x) xs ys

-- Chaining two calls by the initial hash gives the checksum of the two pieces together, unless the
-- first call returned 0, which the second takes for "no initial hash".
pub hash_state-append :
    (xs ys : List ℕ) (initial_hash : ℕ)
    → vx_net_hash_state xs initial_hash ≢ 0
    → vx_net_hash_state ys (vx_net_hash_state xs initial_hash)
      ≡ vx_net_hash_state (xs ++ ys) initial_hash
unfolding vx_net_hash_state
hash_state-append xs ys i nz =
    ground (arith, hash_bytes-append (if i == 0 then fnv_basis else i) xs ys)
