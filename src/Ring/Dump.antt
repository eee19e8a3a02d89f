-- ===== src/Ring/Dump.antt =====
-- `vx_sys_dump_ring_state` of host/ipc/ring_stream.c: what it prints of a window.
use chess_rts.Base.{
  ℕ, zero, suc, map, ap, sym, ◌∙◌, ◌+◌, ◌*◌, ◌/◌, ◌^◌, ◌<◌, ◌≡◌, refl, bit_and, Bool, not, Option,
  none, some, List, [], ◌∷◌, if◌then◌else◌, leb, ◌==◌, arith, lt→leb_false,
}
use chess_rts.Base.Int.{ℤ, pos, negsuc}
use chess_rts.Base.Bits.{bit_at, bit_at-bit_and, bit_at-lt}
use chess_rts.State.{max_windows, Floats, Globals}
use chess_rts.Ring.Mask.{test_bit}

pub record RingDump : Type 0 where
  pub wsi : ℤ
  pub ready : ℤ
  pub local : ℤ
  pub slot_locks : List Bool

-- `(mask >> offset) & 0xF`
abbrev pub shifted_mask : (mask offset : ℕ) → ℕ
shifted_mask mask offset = bit_and (mask / 2 ^ offset) 15

-- `(tenant_mask & bit) != 0`
abbrev pub is_set : (mask bit : ℕ) → Bool
is_set mask bit = not (bit_and mask bit == 0)

-- `none` is a call that prints nothing.
pub vx_sys_dump_ring_state : {fl : Floats} → ℤ → Globals fl → Option RingDump
vx_sys_dump_ring_state (negsuc _) g = none
vx_sys_dump_ring_state (pos win_id) g =
    if leb max_windows win_id
    then none
    else some (record {
      wsi = g.wsi_state win_id;
      ready = g.ring.ready_idx win_id;
      local = g.ring.local_read win_id;
      slot_locks = is_set mask 1 ∷ is_set mask 2 ∷ is_set mask 4 ∷ is_set mask 8 ∷ [];
    })
  where
    mask : ℕ
    mask = shifted_mask g.ring.locked_mask (win_id * 4)

shift_one : (o j m : ℕ) → bit_at (o + 4 + j) m ≡ bit_at (o + j) (m / 16)
unfolding bit_at
shift_one o j m =
    ap (λ k. bit_at k m) {x = o + 4 + j} {y = suc (suc (suc (suc (o + j))))} (omega arith)
    ∙ ap (bit_at (o + j)) {x = m / 2 / 2 / 2 / 2} {y = m / 16} (omega arith)

-- The bits of the mask of a window, as the print-out shows them.
bit_at-shift : (w j m : ℕ) → w < max_windows → bit_at j (m / 2 ^ (w * 4)) ≡ bit_at (w * 4 + j) m
bit_at-shift zero j m lt =
    ap (bit_at j) {x = m / 1} {y = m} (omega arith)
    ∙ ap (λ k. bit_at k m) {x = j} {y = 0 + j} (omega arith)
bit_at-shift (suc zero) j m lt =
    sym (shift_one 0 j m ∙ ap (λ k. bit_at k (m / 16)) {x = 0 + j} {y = j} (omega arith))
bit_at-shift (suc (suc zero)) j m lt = sym (
    shift_one 4 j m
    ∙ shift_one 0 j (m / 16)
    ∙ ap (λ k. bit_at k (m / 16 / 16)) {x = 0 + j} {y = j} (omega arith)
    ∙ ap (bit_at j) {x = m / 16 / 16} {y = m / 256} (omega arith))
bit_at-shift (suc (suc (suc zero))) j m lt = sym (
    shift_one 8 j m
    ∙ shift_one 4 j (m / 16)
    ∙ shift_one 0 j (m / 16 / 16)
    ∙ ap (λ k. bit_at k (m / 16 / 16 / 16)) {x = 0 + j} {y = j} (omega arith)
    ∙ ap (bit_at j) {x = m / 16 / 16 / 16} {y = m / 4096} (omega arith))
bit_at-shift (suc (suc (suc (suc w)))) j m lt = absurd (omega arith)

low_four : (j : ℕ) → j < 4 → bit_at j 15 ≡ 1
unfolding bit_at
low_four zero lt = refl
low_four (suc zero) lt = refl
low_four (suc (suc zero)) lt = refl
low_four (suc (suc (suc zero))) lt = refl
low_four (suc (suc (suc (suc j)))) lt = absurd (omega arith)

is_set_lem :
    (w j mask : ℕ)
    → w < max_windows
    → j < 4
    → is_set (shifted_mask mask (w * 4)) (2 ^ j) ≡ (bit_at (w * 4 + j) mask == 1)
is_set_lem w j mask lt below = ground (
  arith,
  test_bit (shifted_mask mask (w * 4)) j,
  bit_at-bit_and j (mask / 2 ^ (w * 4)) 15,
  low_four j below,
  bit_at-shift w j mask lt,
  bit_at-lt (w * 4 + j) mask,
)

-- For a window in range the four figures that are printed are the lock bits of its slots.
pub dump_ring_state_lem :
    {fl : Floats} (w : ℕ) (g : Globals fl)
    → w < max_windows
    → vx_sys_dump_ring_state (pos w) g
      ≡ some (record {
        wsi = g.wsi_state w;
        ready = g.ring.ready_idx w;
        local = g.ring.local_read w;
        slot_locks = map (λ j. bit_at (w * 4 + j) g.ring.locked_mask == 1) (0 ∷ 1 ∷ 2 ∷ 3 ∷ []);
      })
unfolding vx_sys_dump_ring_state
dump_ring_state_lem w g lt =
    let locks : (j : ℕ)
        → j < 4
        → is_set (shifted_mask g.ring.locked_mask (w * 4)) (2 ^ j)
          ≡ (bit_at (w * 4 + j) g.ring.locked_mask == 1) =
      λ j below. is_set_lem w j g.ring.locked_mask lt below in
    rw
      (
        lt→leb_false w max_windows lt,
        locks 0 (omega arith),
        locks 1 (omega arith),
        locks 2 (omega arith),
        locks 3 (omega arith),
      )
      refl
