-- ===== src/Ring/Quiet.antt =====
-- `vx_stream_acquire` while no other thread touches the mask: the slot after the last committed
-- one if it is unlocked, and -1 if all four are locked.
use chess_rts.Base.{
  ℕ, zero, suc, ◌+◌, ◌-◌, ◌*◌, ◌%◌, ◌^◌, ◌<◌, bit_or, ◌≡◌, refl, true, false, Option, some, [],
  arith, lt→leb_false, ap, ◌∙◌,
}
use chess_rts.Base.Int.{ℤ, pos, minus_one}
use chess_rts.Base.Bits.{bit_at}
use chess_rts.State.{RenderRing, max_windows}
use chess_rts.Ring.{slot_of_round, try_slot, quiet, acquire_loop, vx_stream_acquire}
use chess_rts.Ring.Mask.{test_bit}
use chess_rts.Ring.Acquire.{ReadyAt, slot_of_round_lem}

try_slot_free :
    (k mask : ℕ)
    → bit_at k mask ≡ 0
    → try_slot (2 ^ k) mask [] ≡ record { taken = true; mask = bit_or mask (2 ^ k) }
unfolding try_slot
try_slot_free k mask h = ground (arith, test_bit mask k)

try_slot_held :
    (k mask : ℕ)
    → bit_at k mask ≡ 1
    → try_slot (2 ^ k) mask [] ≡ record { taken = false; mask = mask }
unfolding try_slot
try_slot_held k mask h = ground (arith, test_bit mask k)

module _ (ready : ℤ) (offset start : ℕ) (at : ReadyAt ready offset start) (low : offset < 29) where
  first_slot : start < 4 → slot_of_round ready offset 1 ≡ some (offset + start)
  first_slot lt =
      slot_of_round_lem ready offset start 1 at low (omega arith) (omega arith)
      ∙ ap {B = Option ℕ} some (omega arith)

  loop_free :
      (left mask : ℕ)
      → start < 4
      → bit_at (offset + start) mask ≡ 0
      → acquire_loop (suc left) ready offset 1 mask quiet
        ≡ some (record { slot = pos (offset + start); mask = bit_or mask (2 ^ (offset + start)) })
  unfolding acquire_loop
  loop_free left mask lt h = rw (first_slot lt, acquire_loop, try_slot_free (offset + start) mask h)

  loop_full :
      (left i mask : ℕ)
      → i + left ≡ 5
      → 0 < i
      → ((j : ℕ) → j < 4 → bit_at (offset + j) mask ≡ 1)
      → acquire_loop left ready offset i mask quiet
        ≡ some (record { slot = minus_one; mask = mask })
  unfolding acquire_loop
  loop_full zero i mask e lo full = refl
  loop_full (suc left) i mask e lo full =
      rw
        (
          slot_of_round_lem ready offset start i at low lo (omega arith),
          acquire_loop,
          try_slot_held (offset + (start + i - 1) % 4) mask
              (full ((start + i - 1) % 4) (omega arith)),
        )
        (loop_full left (i + 1) mask (omega arith) (omega arith) full)

module _ (win_id start : ℕ) (r : RenderRing) (lt : win_id < max_windows)
    (at : ReadyAt (r.ready_idx win_id) (win_id * 4) start) where
  -- The slot after the last committed one is taken if it is unlocked.
  pub acquire_free :
      start < 4
      → bit_at (win_id * 4 + start) r.locked_mask ≡ 0
      → vx_stream_acquire (pos win_id) r quiet
        ≡ some (
          pos (win_id * 4 + start),
          record r { locked_mask = bit_or r.locked_mask (2 ^ (win_id * 4 + start)) },
        )
  unfolding vx_stream_acquire
  acquire_free below free = rw (
    lt→leb_false win_id max_windows lt,
    loop_free (r.ready_idx win_id) (win_id * 4) start at (omega arith) 3 r.locked_mask below free,
  )

  -- With all four slots locked the call returns -1 and changes nothing.
  pub acquire_full :
      ((j : ℕ) → j < 4 → bit_at (win_id * 4 + j) r.locked_mask ≡ 1)
      → vx_stream_acquire (pos win_id) r quiet ≡ some (minus_one, r)
  unfolding vx_stream_acquire
  acquire_full full = rw (
    lt→leb_false win_id max_windows lt,
    loop_full (r.ready_idx win_id) (win_id * 4) start at (omega arith) 4 1 r.locked_mask refl
        (omega arith) full,
  )
