-- ===== src/Ring/Reset.antt =====
-- The lock bits once the slots of one window are reset.
use chess_rts.Base.{
  ℕ, zero, suc, ◌+◌, ◌*◌, ◌<◌, ◌≡◌, refl, Bool, true, ◌&&◌, if◌then◌else◌, ◌==◌, arith, ==_iff,
}
use chess_rts.Base.Bits.{bit_at, bit_not, bit_at-bit_and, bit_at-lt}
use chess_rts.State.{RenderRing}
use chess_rts.Ring.{tenant_mask, reset_ring}

-- The test of all numbers below a bound.
abbrev all_below : ℕ → (ℕ → Bool) → Bool
all_below zero p = true
all_below (suc n) p = p n && all_below n p

get : (n i : ℕ) (p : ℕ → Bool) → all_below n p ≡ true → i < n → p i ≡ true
get zero i p h lt = ground arith
get (suc n) i p h lt = ground (arith, get n i p)

-- Which bits `~tenant_mask` keeps: all but those of the window's four slots.
abbrev keeps : (w v j : ℕ) → Bool
keeps w v j = bit_at (v * 4 + j) (bit_not 32 (tenant_mask (w * 4))) == (if w == v then 0 else 1)

table : all_below 4 (λ w. all_below 4 (λ v. all_below 4 (keeps w v))) ≡ true
unfolding bit_at
table = refl

kept :
    (w v j : ℕ)
    → w < 4
    → v < 4
    → j < 4
    → bit_at (v * 4 + j) (bit_not 32 (tenant_mask (w * 4))) ≡ (if w == v then 0 else 1)
kept w v j hw hv hj = (==_iff _ _).0 (
    get 4 j (keeps w v)
      (get 4 v (λ v. all_below 4 (keeps w v))
        (get 4 w (λ w. all_below 4 (λ v. all_below 4 (keeps w v))) table hw) hv)
      hj)

-- What `vx_stream_init` does to the lock bits of the windows.
pub bits-reset_ring :
    (w v j : ℕ) (r : RenderRing)
    → w < 4
    → v < 4
    → j < 4
    → bit_at (v * 4 + j) (reset_ring w r).locked_mask
      ≡ (if w == v then 0 else bit_at (v * 4 + j) r.locked_mask)
unfolding reset_ring
bits-reset_ring w v j r hw hv hj = ground (
  arith,
  bit_at-bit_and (v * 4 + j) r.locked_mask (bit_not 32 (tenant_mask (w * 4))),
  kept w v j hw hv hj,
  bit_at-lt (v * 4 + j) r.locked_mask,
)
