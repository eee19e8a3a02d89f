-- ===== src/Base/Bits.antt =====
-- The bits of a word, one at a time: what `|`, `&`, `^`, `~` and `1u << k` do to each of them.
mod Digits
use Prim.Native.Nat.{
  ℕ, zero, suc, ◌+◌, ◌-◌, ◌*◌, ◌/◌, ◌%◌, ◌^◌, ◌≤◌, ◌<◌, min, max, bit_and, bit_or, bit_xor, differ,
}
use mathlib.Core.Path.{◌≡◌, refl, ap, ◌∙◌}
use mathlib.Core.Logic.{◌↔◌}
use native.Mathlib.Nat.{
  le_refl, pow-suc, one-le-pow, div-add-mod, mul-add-mod_self_right, mod-eq_of_lt, mod-lt,
}
use native.Mathlib.Omega.{arith}
use Digits.{bit_or_step, bit_and_step, bit_xor_step}
use chess_rts.Base.Tests.{◌==◌, if◌then◌else◌}

-- Bit `j` of `a`, as 0 or 1.
unfoldable pub bit_at : ℕ → ℕ → ℕ
bit_at zero a = a % 2
bit_at (suc j) a = bit_at j (a / 2)

-- `~a` on words of `w` bits
abbrev pub bit_not : ℕ → ℕ → ℕ
bit_not w a = 2 ^ w - 1 - a

pub bit_at-lt : (j a : ℕ) → bit_at j a < 2
unfolding bit_at
bit_at-lt zero a = omega arith
bit_at-lt (suc j) a = bit_at-lt j (a / 2)

pub bit_or-half : (a b : ℕ) → bit_or a b / 2 ≡ bit_or (a / 2) (b / 2)
bit_or-half a b = omega (arith, bit_or_step a b)

pub bit_and-half : (a b : ℕ) → bit_and a b / 2 ≡ bit_and (a / 2) (b / 2)
bit_and-half a b = omega (arith, bit_and_step a b)

pub bit_at-bit_or : (j a b : ℕ) → bit_at j (bit_or a b) ≡ max (bit_at j a) (bit_at j b)
unfolding bit_at
bit_at-bit_or zero a b = omega (arith, bit_or_step a b)
bit_at-bit_or (suc j) a b = rw (bit_or-half a b) (bit_at-bit_or j (a / 2) (b / 2))

pub bit_at-bit_and : (j a b : ℕ) → bit_at j (bit_and a b) ≡ min (bit_at j a) (bit_at j b)
unfolding bit_at
bit_at-bit_and zero a b = omega (arith, bit_and_step a b)
bit_at-bit_and (suc j) a b = rw (bit_and-half a b) (bit_at-bit_and j (a / 2) (b / 2))

bit_not-half : (w a : ℕ) → bit_not (suc w) a / 2 ≡ bit_not w (a / 2)
bit_not-half w a = omega (arith, pow-suc 2 w, one-le-pow w 2)

-- The bits of `~a`, for a word of `w` bits.
pub bit_at-bit_not : (w j a : ℕ) → a < 2 ^ w → j < w → bit_at j (bit_not w a) + bit_at j a ≡ 1
unfolding bit_at
bit_at-bit_not zero j a ha hj = absurd (omega arith)
bit_at-bit_not (suc w) zero a ha hj = omega (arith, pow-suc 2 w, one-le-pow w 2)
bit_at-bit_not (suc w) (suc j) a ha hj =
    rw (bit_not-half w a) (bit_at-bit_not w j (a / 2) (omega (arith, pow-suc 2 w)) (omega arith))

pub bit_at-zero : (j : ℕ) → bit_at j 0 ≡ 0
unfolding bit_at
bit_at-zero zero = refl
bit_at-zero (suc j) = bit_at-zero j

two_pow-half : (k : ℕ) → 2 ^ suc k / 2 ≡ 2 ^ k
two_pow-half k = omega (arith, pow-suc 2 k)

-- The bits of `1u << k`.
pub bit_at-two_pow : (j k : ℕ) → bit_at j (2 ^ k) ≡ (if j == k then 1 else 0)
unfolding bit_at
bit_at-two_pow zero zero = refl
bit_at-two_pow zero (suc k) = ground (arith, pow-suc 2 k)
bit_at-two_pow (suc j) zero = ground (arith, bit_at-zero j)
bit_at-two_pow (suc j) (suc k) = rw (two_pow-half k) (ground (arith, bit_at-two_pow j k))

-- A number with no bit set is 0.
eq_zero_of_bits : (n a : ℕ) → a ≤ n → ((j : ℕ) → bit_at j a ≡ 0) → a ≡ 0
unfolding bit_at
eq_zero_of_bits zero a h z = omega arith
eq_zero_of_bits (suc n) a h z =
    omega (arith, z 0, eq_zero_of_bits n (a / 2) (omega arith) (λ j. z (suc j)))

-- `m & (1u << k)` is 0 exactly where bit `k` of `m` is clear.
pub bit_and-two_pow : (m k : ℕ) → (bit_and m (2 ^ k) ≡ 0) ↔ (bit_at k m ≡ 0)
bit_and-two_pow m k = (
  λ e. omega (arith, clear e, here),
  λ z.
      eq_zero_of_bits _ _ (le_refl _)
        (λ j. ground (arith, bit_at-bit_and j m (2 ^ k), bit_at-two_pow j k, z)),
)
  where
    here : min (bit_at k m) 1 ≡ bit_at k (bit_and m (2 ^ k))
    here = ground (arith, bit_at-bit_and k m (2 ^ k), bit_at-two_pow k k)

    clear : bit_and m (2 ^ k) ≡ 0 → bit_at k (bit_and m (2 ^ k)) ≡ 0
    clear e = rw e (bit_at-zero k)

bit_xor-half : (a b : ℕ) → bit_xor a b / 2 ≡ bit_xor (a / 2) (b / 2)
bit_xor-half a b = omega (arith, bit_xor_step a b)

xor_undo_below : (n a k : ℕ) → a ≤ n → k ≤ n → bit_xor (bit_xor a k) k ≡ a
xor_undo_below zero zero zero ha hk = refl
xor_undo_below zero zero (suc k) ha hk = absurd (omega arith)
xor_undo_below zero (suc a) k ha hk = absurd (omega arith)
xor_undo_below (suc n) a k ha hk = omega (
  arith,
  bit_xor_step a k,
  bit_xor_step (bit_xor a k) k,
  ap (λ (t : ℕ). bit_xor t (k / 2)) (bit_xor-half a k),
  xor_undo_below n (a / 2) (k / 2) (omega arith) (omega arith),
)

-- Applying `^ k` twice changes nothing.
pub bit_xor_undo : (a k : ℕ) → bit_xor (bit_xor a k) k ≡ a
bit_xor_undo a k = xor_undo_below (a + k) a k (omega arith) (omega arith)

pub bit_xor-lt : (w a b : ℕ) → a < 2 ^ w → b < 2 ^ w → bit_xor a b < 2 ^ w
bit_xor-lt zero zero zero ha hb = omega arith
bit_xor-lt zero zero (suc b) ha hb = absurd (omega arith)
bit_xor-lt zero (suc a) b ha hb = absurd (omega arith)
bit_xor-lt (suc w) a b ha hb = omega (
  arith,
  pow-suc 2 w,
  bit_xor_step a b,
  bit_xor-lt w (a / 2) (b / 2) (omega (arith, pow-suc 2 w)) (omega (arith, pow-suc 2 w)),
)

or_zero_below : (n a : ℕ) → a ≤ n → bit_or a 0 ≡ a
or_zero_below zero zero h = refl
or_zero_below zero (suc a) h = absurd (omega arith)
or_zero_below (suc n) a h = omega (arith, bit_or_step a 0, or_zero_below n (a / 2) (omega arith))

mul-two_pow-suc : (q k : ℕ) → q * 2 ^ suc k ≡ 2 * (q * 2 ^ k)
mul-two_pow-suc q k = omega (arith, ap (λ (t : ℕ). q * t) (pow-suc 2 k))

-- `|` of a high and a low field is their sum when the low one fits below the high one.
pub bit_or_fields : (k q r : ℕ) → r < 2 ^ k → bit_or (q * 2 ^ k) r ≡ q * 2 ^ k + r
bit_or_fields zero q zero h = or_zero_below (q * 1) (q * 1) (le_refl _) ∙ omega arith
bit_or_fields zero q (suc r) h = absurd (omega arith)
bit_or_fields (suc k) q r h = ground (
  arith,
  bit_or_step (q * 2 ^ suc k) r,
  mul-two_pow-suc q k,
  pow-suc 2 k,
  bit_or_fields k q (r / 2) (omega (arith, pow-suc 2 k)),
)

pub two_pow-lt : (w k : ℕ) → k < w → 2 ^ k < 2 ^ w
two_pow-lt zero k h = absurd (omega arith)
two_pow-lt (suc w) zero h = omega (arith, pow-suc 2 w, one-le-pow w 2)
two_pow-lt (suc w) (suc k) h = omega (arith, pow-suc 2 w, pow-suc 2 k, two_pow-lt w k (omega arith))

xor_comm_below : (n a b : ℕ) → a ≤ n → b ≤ n → bit_xor a b ≡ bit_xor b a
xor_comm_below zero zero zero ha hb = refl
xor_comm_below zero zero (suc b) ha hb = absurd (omega arith)
xor_comm_below zero (suc a) b ha hb = absurd (omega arith)
xor_comm_below (suc n) a b ha hb = omega (
  arith,
  bit_xor_step a b,
  bit_xor_step b a,
  xor_comm_below n (a / 2) (b / 2) (omega arith) (omega arith),
)

pub bit_xor_comm : (a b : ℕ) → bit_xor a b ≡ bit_xor b a
bit_xor_comm a b = xor_comm_below (a + b) a b (omega arith) (omega arith)

and_zero_below : (n a : ℕ) → a ≤ n → bit_and a 0 ≡ 0
and_zero_below zero zero h = refl
and_zero_below zero (suc a) h = absurd (omega arith)
and_zero_below (suc n) a h = omega (arith, bit_and_step a 0, and_zero_below n (a / 2) (omega arith))

bit_and-zero : (a : ℕ) → bit_and a 0 ≡ 0
bit_and-zero a = and_zero_below a a (le_refl _)

mod-two_pow-suc : (k a : ℕ) → a % 2 ^ suc k ≡ a / 2 % 2 ^ k * 2 + a % 2
mod-two_pow-suc k a =
    ap (λ t. t % 2 ^ suc k) {x = a} {y = a / 2 / 2 ^ k * 2 ^ suc k + (a / 2 % 2 ^ k * 2 + a % 2)}
      (omega (arith, mul-two_pow-suc (a / 2 / 2 ^ k) k, div-add-mod (a / 2) (2 ^ k)))
    ∙ mul-add-mod_self_right (a / 2 / 2 ^ k) (2 ^ suc k) (a / 2 % 2 ^ k * 2 + a % 2)
    ∙ mod-eq_of_lt
        (omega (arith, pow-suc 2 k, one-le-pow k 2, mod-lt (a / 2) (one-le-pow k 2 (omega arith))))

-- A mask of `k` low bits is the remainder by `2 ^ k`.
pub bit_and_mask : (k a : ℕ) → bit_and a (2 ^ k - 1) ≡ a % 2 ^ k
bit_and_mask zero a = omega (arith, (bit_and-zero a))
bit_and_mask (suc k) a = ground (
  arith,
  bit_and_step a (2 ^ suc k - 1),
  pow-suc 2 k,
  one-le-pow k 2,
  bit_and_mask k (a / 2),
  mod-two_pow-suc k a,
)

-- `m & ~3` rounds a word down to a multiple of 4.
pub bit_and_not_three : (m : ℕ) → m < 2 ^ 32 → bit_and m (bit_not 32 3) ≡ m / 4 * 4
bit_and_not_three m h = omega (
  arith,
  bit_and_step m (2 ^ 32 - 4),
  bit_and_step (m / 2) (2 ^ 31 - 2),
  bit_and_mask 30 (m / 2 / 2),
)
