-- ===== src/Render/Fifo/System.antt =====
-- One window's ring between the two threads. A call of `vx_stream_acquire` or `vx_stream_commit`
-- is one step, and so is the bookkeeping of the render thread; the steps come in any order. The
-- Lua thread commits a slot before it acquires the next. `committed` and `taken` record the slots
-- in the order of the calls.
use chess_rts.Base.{ℕ, ◌+◌, ◌*◌, ◌%◌, ◌<◌, ◌≡◌, Option, none, some, List, [], ◌∷◌, ◌++◌}
use chess_rts.Base.Int.{ℤ, pos, minus_one}
use chess_rts.Base.Bits.{bit_at}
use chess_rts.State.{RenderRing}
use chess_rts.Ring.{quiet, vx_stream_acquire, vx_stream_commit}
use chess_rts.Render.{frame_slots, idle, took, render_take}

pub record System : Type 0 where
  pub ring : RenderRing
  pub t_frame : ℕ
  pub holding : Option ℕ
  pub committed : List ℤ
  pub taken : List ℤ

-- What the threads do for the other windows leaves this window's cells and lock bits alone.
pub record SameWindow (w : ℕ) (r r' : RenderRing) : Type 0 where
  pub ready : r'.ready_idx w ≡ r.ready_idx w
  pub read : r'.local_read w ≡ r.local_read w
  pub active : (f : ℕ) → r'.active_ring_slots w f ≡ r.active_ring_slots w f
  pub bits : (j : ℕ) → j < 4 → bit_at (w * 4 + j) r'.locked_mask ≡ bit_at (w * 4 + j) r.locked_mask

pub data Step (w max_frames : ℕ) (s : System) : System → Type 0 where
  acquire :
      {g : ℕ} {r : RenderRing}
      → s.holding ≡ none
      → vx_stream_acquire (pos w) s.ring quiet ≡ some (pos g, r)
      → Step w max_frames s (record s { ring = r; holding = some g })
  refuse :
      {r : RenderRing}
      → s.holding ≡ none
      → vx_stream_acquire (pos w) s.ring quiet ≡ some (minus_one, r)
      → Step w max_frames s (record s { ring = r })
  commit :
      {g : ℕ}
      → s.holding ≡ some g
      → Step w max_frames s (record s {
        ring = vx_stream_commit (pos w) (pos g) s.ring;
        holding = none;
        committed = s.committed ++ pos g ∷ [];
      })
  skip : render_take w max_frames s.t_frame s.ring ≡ idle → Step w max_frames s s
  take :
      {i : ℤ} {f : ℕ} {r : RenderRing}
      → render_take w max_frames s.t_frame s.ring ≡ took i f r
      → Step w max_frames s (record s {
        ring = r;
        t_frame = (f + 1) % frame_slots max_frames;
        taken = s.taken ++ i ∷ [];
      })
  elsewhere : {r : RenderRing} → SameWindow w s.ring r → Step w max_frames s (record s { ring = r })

-- The window's ring as `vx_stream_init` leaves it, with the frame counter anywhere in its range.
pub record IsFresh (w max_frames : ℕ) (s : System) : Type 0 where
  pub ready : s.ring.ready_idx w ≡ minus_one
  pub read : s.ring.local_read w ≡ minus_one
  pub active : (f : ℕ) → f < 10 → s.ring.active_ring_slots w f ≡ minus_one
  pub bits : (j : ℕ) → j < 4 → bit_at (w * 4 + j) s.ring.locked_mask ≡ 0
  pub frame : s.t_frame < frame_slots max_frames
  pub holding : s.holding ≡ none
  pub committed : s.committed ≡ []
  pub taken : s.taken ≡ []

pub data Reach (w max_frames : ℕ) : System → Type 0 where
  start : {s : System} → IsFresh w max_frames s → Reach w max_frames s
  later : {s t : System} → Reach w max_frames s → Step w max_frames s t → Reach w max_frames t
