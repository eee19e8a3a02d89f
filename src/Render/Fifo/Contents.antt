-- ===== src/Render/Fifo/Contents.antt =====
-- The packets themselves along the queue of one window: the Lua thread fills the packet of the slot
-- it holds (vx_stream_packet of host/ipc/ring_stream.c), and the render thread finds a packet in the
-- slot that it takes and puts the image that it has acquired in (render/gpu/vk_render_loop.c).
-- `sent` records the packets as they are at their commits, `drawn` as they are taken.
mod Slots
mod Kept
pub mod Drawn
use chess_rts.Base.{ℕ, ◌+◌, ◌*◌, ◌%◌, ◌<◌, ◌≡◌, none, some, List, [], ◌∷◌, ◌++◌, update}
use chess_rts.Base.Int.{ℤ, pos, minus_one}
use chess_rts.State.{RenderPacket, RenderRing}
use chess_rts.Ring.{quiet, vx_stream_acquire, vx_stream_commit}
use chess_rts.Render.{frame_slots, took, render_take}
use chess_rts.Render.Frame.{with_image}
use chess_rts.Render.Fifo.System.{System, SameWindow, IsFresh}

pub record Contents : Type 0 where
  pub sys : System
  pub sent : List RenderPacket
  pub drawn : List RenderPacket

abbrev pub with_ring : RenderRing → Contents → Contents
with_ring r s = record s { sys = record (s.sys) { ring = r } }

-- The ring with another packet in a slot.
abbrev pub stored : ℕ → RenderPacket → RenderRing → RenderRing
stored slot p r = record r { packets = update r.packets slot p }

pub data ContentStep (w max_frames : ℕ) (s : Contents) : Contents → Type 0 where
  acquire :
      {g : ℕ} {r : RenderRing}
      → s.sys.holding ≡ none
      → vx_stream_acquire (pos w) s.sys.ring quiet ≡ some (pos g, r)
      → ContentStep w max_frames s
          (record s { sys = record (s.sys) { ring = r; holding = some g } })
  refuse :
      {r : RenderRing}
      → s.sys.holding ≡ none
      → vx_stream_acquire (pos w) s.sys.ring quiet ≡ some (minus_one, r)
      → ContentStep w max_frames s (with_ring r s)
  fill :
      {g : ℕ} (p : RenderPacket)
      → s.sys.holding ≡ some g
      → ContentStep w max_frames s (with_ring (stored g p s.sys.ring) s)
  commit :
      {g : ℕ}
      → s.sys.holding ≡ some g
      → ContentStep w max_frames s (record s {
        sys = record (s.sys) {
          ring = vx_stream_commit (pos w) (pos g) s.sys.ring;
          holding = none;
          committed = s.sys.committed ++ pos g ∷ [];
        };
        sent = s.sent ++ s.sys.ring.packets g ∷ [];
      })
  take :
      {slot f : ℕ} {r : RenderRing}
      → render_take w max_frames s.sys.t_frame s.sys.ring ≡ took (pos slot) f r
      → ContentStep w max_frames s (record s {
        sys = record (s.sys) {
          ring = r;
          t_frame = (f + 1) % frame_slots max_frames;
          taken = s.sys.taken ++ pos slot ∷ [];
        };
        drawn = s.drawn ++ r.packets slot ∷ [];
      })
  show :
      {slot : ℕ} (image view : ℕ)
      → s.sys.ring.local_read w ≡ pos slot
      → ContentStep w max_frames s
          (with_ring (stored slot (with_image image view (s.sys.ring.packets slot)) s.sys.ring) s)
  elsewhere :
      {r : RenderRing}
      → SameWindow w s.sys.ring r
      → ((k : ℕ) → r.packets (w * 4 + k % 4) ≡ s.sys.ring.packets (w * 4 + k % 4))
      → ContentStep w max_frames s (with_ring r s)

pub data ContentReach (w max_frames : ℕ) : Contents → Type 0 where
  start :
      {s : Contents}
      → IsFresh w max_frames s.sys
      → s.sent ≡ []
      → s.drawn ≡ []
      → ContentReach w max_frames s
  later :
      {s t : Contents}
      → ContentReach w max_frames s
      → ContentStep w max_frames s t
      → ContentReach w max_frames t
