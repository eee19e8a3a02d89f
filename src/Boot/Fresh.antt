-- ===== src/Boot/Fresh.antt =====
-- The ring that `vx_init_mailbox` and `vx_stream_init` leave, as the two threads then find it.
use chess_rts.Base.{
  ℕ, ◌+◌, ◌*◌, ◌<◌, ◌≡◌, ◌≢◌, refl, ◌∙◌, Bool, true, false, none, some, [], arith, lt→leb_false,
}
use chess_rts.Base.Int.{pos}
use chess_rts.Base.Bits.{bit_at-zero}
use chess_rts.State.{max_windows, Floats, Globals, RenderThreadInit, RenderRing}
use chess_rts.Ring.{reset_ring}
use chess_rts.Ring.Reset.{bits-reset_ring}
use chess_rts.Render.{frame_slots}
use chess_rts.Render.Fifo.System.{System, IsFresh, SameWindow}
use chess_rts.Spin.Bounded.{idle_within, init_wait_lem}
use chess_rts.Boot.{vx_init_mailbox, vx_stream_init, after_wait, restart, set_wsi}

-- A ring and a frame counter, with nothing acquired, committed or taken yet.
abbrev pub at_rest : RenderRing → ℕ → System
at_rest r t_frame = record {
  ring = r;
  t_frame = t_frame;
  holding = none;
  committed = [];
  taken = [];
}

-- After `vx_init_mailbox`, each window's part of the ring is fresh, as the render thread, which
-- starts with frame 0, finds it.
pub init_mailbox-IsFresh :
    {fl : Floats} (g : Globals fl) (w max_frames : ℕ)
    → w < max_windows
    → IsFresh w max_frames (at_rest (vx_init_mailbox g).ring 0)
unfolding vx_init_mailbox frame_slots
init_mailbox-IsFresh g w max_frames lt = record {
  ready = ground arith;
  read = ground arith;
  active = λ f below. ground arith;
  bits = λ j below. bit_at-zero (w * 4 + j);
  frame = ground arith;
  holding = refl;
  committed = refl;
  taken = refl;
}

pub reset_ring-IsFresh :
    (w max_frames t_frame : ℕ) (r : RenderRing)
    → w < max_windows
    → t_frame < frame_slots max_frames
    → IsFresh w max_frames (at_rest (reset_ring w r) t_frame)
unfolding reset_ring
reset_ring-IsFresh w max_frames t_frame r lt frame = record {
  ready = ground arith;
  read = ground arith;
  active = λ f below. ground arith;
  bits = λ j below. ground (arith, bits-reset_ring w w j r lt lt below);
  frame = frame;
  holding = refl;
  committed = refl;
  taken = refl;
}

pub reset_ring-SameWindow :
    (w v : ℕ) (r : RenderRing)
    → w < max_windows
    → v < max_windows
    → w ≢ v
    → SameWindow v r (reset_ring w r)
unfolding reset_ring
reset_ring-SameWindow w v r lt lt' other = record {
  ready = ground arith;
  read = ground arith;
  active = λ f. ground arith;
  bits = λ j below. ground (arith, bits-reset_ring w v j r lt lt' below);
}

-- What a call for window `w` leaves, when one of its polls sees the flags clear and when none does.
abbrev pub Restarted :
    {fl : Floats} → ℕ → RenderThreadInit → Globals fl → Globals fl → Bool → Type 0
Restarted {fl} w wsi g g' true =
    (g'.wsi_state w ≡ pos 1)
    × (g'.window_wsi w ≡ wsi)
    × ((max_frames t_frame : ℕ)
        → t_frame < frame_slots max_frames
        → IsFresh w max_frames (at_rest g'.ring t_frame))
    × ((v : ℕ) → v < max_windows → w ≢ v → SameWindow v g.ring g'.ring)
Restarted {fl} w wsi g g' false =
    (g'.wsi_state w ≡ pos 0) × (g'.ring ≡ g.ring) × (g'.window_wsi ≡ g.window_wsi)

restart-Restarted :
    {fl : Floats} (w : ℕ) (wsi : RenderThreadInit) (g : Globals fl)
    → w < max_windows
    → Restarted w wsi g (restart w wsi (set_wsi w (pos 0) g)) true
unfolding restart
restart-Restarted w wsi g lt = (
  ground arith,
  ground arith,
  λ max_frames t_frame frame. reset_ring-IsFresh w max_frames t_frame g.ring lt frame,
  λ v lt' other. reset_ring-SameWindow w v g.ring lt lt' other,
)

stop-Restarted :
    {fl : Floats} (w : ℕ) (wsi : RenderThreadInit) (g : Globals fl)
    → Restarted w wsi g (set_wsi w (pos 0) g) false
stop-Restarted w wsi g = (ground arith, refl, refl)

after_wait-Restarted :
    {fl : Floats} (b : Bool) (w : ℕ) (wsi : RenderThreadInit) (g : Globals fl)
    → w < max_windows
    → (g' : Globals fl) × (after_wait (some b) w wsi (set_wsi w (pos 0) g) ≡ some g')
      × Restarted w wsi g g' b
unfolding after_wait
after_wait-Restarted true w wsi g lt =
    (restart w wsi (set_wsi w (pos 0) g), refl, restart-Restarted w wsi g lt)
after_wait-Restarted false w wsi g lt = (set_wsi w (pos 0) g, refl, stop-Restarted w wsi g)

stream_init_open :
    {fl : Floats} (busy : ℕ → Bool) (w : ℕ) (wsi : RenderThreadInit) (g : Globals fl)
    → w < max_windows
    → vx_stream_init busy (pos w) wsi g
      ≡ after_wait (some (idle_within 4000 busy 0)) w wsi (set_wsi w (pos 0) g)
unfolding vx_stream_init
stream_init_open busy w wsi g lt = rw (lt→leb_false w max_windows lt, init_wait_lem busy)

-- For a window in range the call ends, and what it leaves depends only on whether one of 4,000
-- polls sees the window's flags clear. If one does, the window is running with the new handles,
-- its part of the ring is fresh whatever the render thread's frame counter, and the other windows'
-- parts are as they were. If none does, the window is stopped, and no ring and no handle has
-- changed.
pub stream_init-Restarted :
    {fl : Floats} (busy : ℕ → Bool) (w : ℕ) (wsi : RenderThreadInit) (g : Globals fl)
    → w < max_windows
    → (g' : Globals fl) × (vx_stream_init busy (pos w) wsi g ≡ some g')
      × Restarted w wsi g g' (idle_within 4000 busy 0)
stream_init-Restarted busy w wsi g lt =
    let (g', e, h) = after_wait-Restarted (idle_within 4000 busy 0) w wsi g lt in
    (g', stream_init_open busy w wsi g lt ∙ e, h)
