-- ===== src/Render.antt =====
-- render/gpu/vk_render_loop.c: what the render thread does for one window in one round of its loop.
-- `render_take` is the bookkeeping of the ring (from the load of `ready_idx` to the store into
-- `active_ring_slots`), `render_frame` the frame on the GPU, and `render_window` the whole. What
-- Vulkan answers is an argument, and the calls made of it are listed in order.
pub mod Debug
pub mod Fifo
pub mod Frame
pub mod Handshake
pub mod Rebuild
pub mod Round
use chess_rts.Base.{
  ℕ, ◌+◌, ◌-◌, ◌*◌, ◌%◌, ◌^◌, bit_and, bit_or, Bool, true, false, ◌&&◌, ◌||◌, Option, none, some,
  List, [], ◌∷◌, ◌++◌, if◌then◌else◌, leb, ltb, ◌==◌, update, not,
}
use chess_rts.Base.Int.{ℤ, pos, negsuc, minus_one, ◌+ℤ◌, ◌-ℤ◌, eqb_ℤ, rem_ℤ}
use chess_rts.Base.Bits.{bit_not}
use chess_rts.State.{RenderRing, RenderThreadInit, RenderPacket, Floats, Globals}
use chess_rts.Ring.{shift_count}

-- `win_wsi->max_frames_in_flight > 0 ? … : 3`, and at most 3.
unfoldable pub frame_slots : ℕ → ℕ
frame_slots max_frames =
    let n : ℕ = (if ltb 0 max_frames then max_frames else 3) in if ltb 3 n then 3 else n

-- `offset + 0`, or the slot after the last one read.
unfoldable pub new_local_read : ℤ → ℕ → ℤ
new_local_read local_read offset =
    if eqb_ℤ local_read minus_one
    then pos (offset + 0)
    else pos offset +ℤ rem_ℤ (local_read -ℤ pos offset +ℤ pos 1) 4

-- `locked_mask & ~(1u << slot)`; `none` is a shift by a count out of range.
unfoldable pub unlock : ℤ → ℕ → Option ℕ
unfolding shift_count
unlock slot mask = elim (shift_count slot) [
  | none ↦ none
  | some k ↦ some (bit_and mask (bit_not 32 (2 ^ k)))
]

-- The mask once the frame slot's old packet is unlocked, if it has one that is not read again.
unfoldable pub finish_slot : ℤ → ℤ → ℕ → Option ℕ
finish_slot finished read_idx mask =
    if not (eqb_ℤ finished minus_one) && not (eqb_ℤ finished read_idx)
    then unlock finished mask
    else some mask

pub data Take : Type 0 where
  idle : Take
  fault : Take
  took : (read_idx : ℤ) (frame : ℕ) (ring : RenderRing) → Take

-- The ring after slot `read_idx` is put into the frame slot, with the mask already updated.
unfoldable pub store_active : ℕ → ℕ → ℤ → RenderRing → ℕ → RenderRing
store_active wid frame read_idx r mask = record r {
  local_read = update r.local_read wid read_idx;
  active_ring_slots =
      update r.active_ring_slots wid (update (r.active_ring_slots wid) frame read_idx);
  locked_mask = mask;
}

-- The bookkeeping for a window that is not skipped, `fault` at undefined behaviour.
unfoldable pub take_oldest : (wid max_frames t_frame : ℕ) → RenderRing → Take
take_oldest wid max_frames t_frame r =
    elim (finish_slot (r.active_ring_slots wid frame) read_idx r.locked_mask) [
      | none ↦ fault
      | some mask ↦ took read_idx frame (store_active wid frame read_idx r mask)
    ]
  where
    read_idx : ℤ
    read_idx = new_local_read (r.local_read wid) (wid * 4)

    frame : ℕ
    frame = t_frame % frame_slots max_frames

-- Whether a window is skipped, by the `ready_idx` that was loaded and `local_read`.
abbrev pub is_read : (ready local_read : ℤ) → Bool
is_read ready local_read = eqb_ℤ ready minus_one || eqb_ℤ ready local_read

unfoldable pub render_take : (wid max_frames t_frame : ℕ) → RenderRing → Take
render_take wid max_frames t_frame r =
    if is_read (r.ready_idx wid) (r.local_read wid)
    then idle
    else take_oldest wid max_frames t_frame r
