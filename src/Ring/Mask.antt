-- ===== src/Ring/Mask.antt =====
-- The lock bits of `locked_mask`: what setting and clearing one slot does to every slot.
use mathlib.Core.Path.{◌≡◌}
use chess_rts.Base.{ℕ, ◌^◌, ◌<◌, bit_and, bit_or, ◌==◌, if◌then◌else◌, arith}
use chess_rts.Base.Bits.{
  bit_at, bit_not, bit_at-bit_or, bit_at-bit_and, bit_at-bit_not, bit_at-two_pow, bit_at-lt,
  two_pow-lt, bit_and-two_pow,
}

-- `mask | (1u << k)` sets bit `k` and no other.
pub bit_at-set_bit :
    (j k mask : ℕ) → bit_at j (bit_or mask (2 ^ k)) ≡ (if j == k then 1 else bit_at j mask)
bit_at-set_bit j k mask =
    ground (arith, bit_at-bit_or j mask (2 ^ k), bit_at-two_pow j k, bit_at-lt j mask)

-- `mask & ~(1u << k)` clears bit `k` and no other.
pub bit_at-clear_bit :
    (j k mask : ℕ)
    → j < 32
    → k < 32
    → bit_at j (bit_and mask (bit_not 32 (2 ^ k))) ≡ (if j == k then 0 else bit_at j mask)
bit_at-clear_bit j k mask hj hk = ground (
  arith,
  bit_at-bit_and j mask (bit_not 32 (2 ^ k)),
  bit_at-bit_not 32 j (2 ^ k) (two_pow-lt 32 k hk) hj,
  bit_at-two_pow j k,
  bit_at-lt j mask,
)

-- The test `(mask & (1u << k)) == 0` reads bit `k`.
pub test_bit : (mask k : ℕ) → (bit_and mask (2 ^ k) == 0) ≡ (bit_at k mask == 0)
test_bit mask k = ground (arith, (bit_and-two_pow mask k).0, (bit_and-two_pow mask k).1)
