-- ===== src/Ring.antt =====
-- host/ipc/ring_stream.c: the packet ring of 16 slots, four for each of the four windows. The Lua
-- thread acquires a slot, fills its packet and commits it; the render thread takes the slots of
-- a window in turn and unlocks a slot when the frame that used it has come round again.
pub mod Mask
pub mod Acquire
pub mod Quiet
pub mod Reset
pub mod Dump
use chess_rts.Base.{
  ℕ, zero, suc, ◌+◌, ◌-◌, ◌*◌, ◌/◌, ◌%◌, ◌^◌, bit_and, bit_or, Bool, true, false, ◌&&◌, Option,
  none, some, List, [], ◌∷◌, if◌then◌else◌, leb, ltb, ◌==◌, update,
}
use mathlib.Core.Option
use mathlib.Core.Option.{get_or}
use chess_rts.Base.Int.{ℤ, pos, negsuc, minus_one, ◌+ℤ◌, ◌-ℤ◌, eqb_ℤ, rem_ℤ, out_of_range}
use chess_rts.Base.Bits.{bit_not}
use chess_rts.State.{max_windows, ring_size, RenderRing, RenderThreadInit, Floats, Globals}

-- The index of the packet that `vx_stream_packet` points to; `none` is NULL.
pub vx_stream_packet : ℤ → Option ℕ
vx_stream_packet (negsuc _) = none
vx_stream_packet (pos idx) = if leb ring_size idx then none else some idx

-- What happens just before one attempt of the weak compare-exchange: another thread leaves a new
-- `locked_mask`, or the attempt is about to fail for no reason.
pub data Attempt : Type 0 where
  moved : (mask : ℕ) → Attempt
  spurious : Attempt

-- How the loop over one slot ends: whether the exchange succeeded, and the mask it leaves.
pub record Tried : Type 0 where
  pub taken : Bool
  pub mask : ℕ

-- `while ((expected & bit) == 0) { if (CWX(locked_mask, expected, expected | bit)) return …; }`.
-- The mask is `expected` unless another thread has moved it; an exchange that fails loads it
-- again. After the last listed attempt nobody interferes.
unfoldable pub try_slot : (bit expected : ℕ) → List Attempt → Tried
try_slot bit expected [] =
    if bit_and expected bit == 0
    then record { taken = true; mask = bit_or expected bit }
    else record { taken = false; mask = expected }
try_slot bit expected (spurious ∷ env) =
    let again = try_slot bit expected env in
    if bit_and expected bit == 0 then again else record { taken = false; mask = expected }
try_slot bit expected (moved m ∷ env) =
    let again = try_slot bit m env in
    if bit_and expected bit == 0
    then (if m == expected then record { taken = true; mask = bit_or expected bit } else again)
    else record { taken = false; mask = expected }

-- A shift count at which `1u << k` is defined.
unfoldable pub shift_count : ℤ → Option ℕ
shift_count (negsuc _) = none
shift_count (pos k) = if leb 32 k then none else some k

-- `local_curr` and `global_idx` of the loop body, for the window with this offset.
abbrev pub local_curr : ℤ → ℕ → ℤ
local_curr ready offset = if eqb_ℤ ready minus_one then minus_one else ready -ℤ pos offset

abbrev pub global_idx : ℤ → ℕ → ℕ → ℤ
global_idx ready offset i = pos offset +ℤ rem_ℤ (local_curr ready offset +ℤ pos i) 4

-- The shift count of `bit` in round `i`.
unfoldable pub slot_of_round : ℤ → ℕ → ℕ → Option ℕ
unfolding shift_count
slot_of_round ready offset i = shift_count (global_idx ready offset i)

-- The interference with one round of the loop: the mask that another thread has left when the
-- round loads it, if any has, and the attempts.
pub record Round : Type 0 where
  pub loaded : Option ℕ
  pub attempts : List Attempt

abbrev pub quiet : ℕ → Round
quiet _ = record { loaded = none; attempts = [] }

-- What `vx_stream_acquire` returns, and the mask that it leaves.
pub record Acquired : Type 0 where
  pub slot : ℤ
  pub mask : ℕ

-- The loop `for (int i = 1; i <= 4; i++)`, with the rounds left, this round's `i`, the mask and
-- the interference with each round. `none` is undefined behaviour: a shift count out of range.
unfoldable pub acquire_loop : ℕ → ℤ → ℕ → ℕ → ℕ → (ℕ → Round) → Option Acquired
acquire_loop zero ready offset i mask env = some (record { slot = minus_one; mask = mask })
acquire_loop (suc left) ready offset i mask env = elim (slot_of_round ready offset i) [
  | none ↦ none
  | some k ↦
      let t = try_slot (2 ^ k) (get_or (env i).loaded mask) (env i).attempts in
      let next = acquire_loop left ready offset (i + 1) t.mask env in
      if t.taken then some (record { slot = pos k; mask = t.mask }) else next
]

unfoldable pub vx_stream_acquire : ℤ → RenderRing → (ℕ → Round) → Option (ℤ × RenderRing)
vx_stream_acquire (negsuc _) r env = some (minus_one, r)
vx_stream_acquire (pos win_id) r env =
    if leb max_windows win_id
    then some (minus_one, r)
    else Option.map (λ a. (a.slot, record r { locked_mask = a.mask }))
        (acquire_loop 4 (r.ready_idx win_id) (win_id * 4) 1 r.locked_mask env)

unfoldable pub vx_stream_commit : ℤ → ℤ → RenderRing → RenderRing
vx_stream_commit (negsuc _) idx r = r
vx_stream_commit (pos win_id) idx r =
    if leb max_windows win_id then r else record r { ready_idx = update r.ready_idx win_id idx }

-- The slots that `vx_stream_init` unlocks and resets for one window.
abbrev pub tenant_mask : ℕ → ℕ
tenant_mask offset = 15 * 2 ^ offset % 2 ^ 32

unfoldable pub reset_ring : ℕ → RenderRing → RenderRing
reset_ring win_id r = record r {
  locked_mask = bit_and r.locked_mask (bit_not 32 (tenant_mask (win_id * 4)));
  ready_idx = update r.ready_idx win_id minus_one;
  local_read = update r.local_read win_id minus_one;
  active_ring_slots =
      update r.active_ring_slots win_id
        (λ f. if ltb f 10 then minus_one else r.active_ring_slots win_id f);
}
