-- ===== src/Render/Fifo/Windows.antt =====
-- The rings of all windows together, in the one ring that the two threads share: the Lua thread
-- works on any window at any time (host/ipc/ring_stream.c), the render thread goes through them
-- (render/gpu/vk_render_loop.c).
pub mod Others
pub mod Alone
use chess_rts.Base.{ℕ, ◌<◌, Option, none, List, [], update}
use chess_rts.Base.Int.{ℤ}
use chess_rts.State.{max_windows, RenderPacket, RenderRing}
use chess_rts.Ring.{reset_ring}
use chess_rts.Render.{frame_slots}
use chess_rts.Boot.Fresh.{at_rest}
use chess_rts.Render.Fifo.System.{
  System, Step, acquire, refuse, commit, skip, take, elsewhere, IsFresh,
}

-- `System` for each window, with the shared ring.
pub record Windows : Type 0 where
  pub ring : RenderRing
  pub t_frame : ℕ → ℕ
  pub holding : ℕ → Option ℕ
  pub committed : ℕ → List ℤ
  pub taken : ℕ → List ℤ

abbrev pub view : ℕ → Windows → System
view w s = record {
  ring = s.ring;
  t_frame = s.t_frame w;
  holding = s.holding w;
  committed = s.committed w;
  taken = s.taken w;
}

abbrev pub put : ℕ → System → Windows → Windows
put w t s = record {
  ring = t.ring;
  t_frame = update s.t_frame w t.t_frame;
  holding = update s.holding w t.holding;
  committed = update s.committed w t.committed;
  taken = update s.taken w t.taken;
}

-- A step of the window itself: all but what other windows do.
abbrev pub IsOwn : {w m : ℕ} {s t : System} → Step w m s t → Type 0
IsOwn (elsewhere _) = ⊥
IsOwn (acquire _ _) = Unit
IsOwn (refuse _ _) = Unit
IsOwn (commit _) = Unit
IsOwn (skip _) = Unit
IsOwn (take _) = Unit

-- `write` is a store into a packet: the Lua thread fills it, the render thread puts the image in.
-- `restart` is the reset in `vx_stream_init`, once the wait for the render thread has succeeded; the
-- window keeps its number of frames.
pub data AllStep (frames : ℕ → ℕ) (s : Windows) : Windows → Type 0 where
  own :
      {w : ℕ} {t : System}
      → w < max_windows
      → (st : Step w (frames w) (view w s) t) → IsOwn st
      → AllStep frames s (put w t s)
  write :
      (slot : ℕ) (p : RenderPacket)
      → AllStep frames s
          (record s { ring = record (s.ring) { packets = update s.ring.packets slot p } })
  restart :
      {w : ℕ}
      → w < max_windows
      → AllStep frames s (put w (at_rest (reset_ring w s.ring) (s.t_frame w)) s)

pub data AllReach (frames : ℕ → ℕ) : Windows → Type 0 where
  start :
      {s : Windows}
      → ((w : ℕ) → w < max_windows → IsFresh w (frames w) (view w s))
      → AllReach frames s
  later : {s t : Windows} → AllReach frames s → AllStep frames s t → AllReach frames t
