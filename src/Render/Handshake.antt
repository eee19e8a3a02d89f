-- ===== src/Render/Handshake.antt =====
-- The render thread and `vx_stream_init` on one window, access by access: the loop body of
-- render/gpu/vk_render_loop.c and the reset of host/ipc/ring_stream.c, which meet by `g_wsi_state`
-- and `g_render_busy`. The accesses are taken to be
-- sequentially consistent; the release stores and acquire loads of the code allow more. The frame on the GPU is one
-- step, taken at any time between the test of `g_wsi_state` and `frame_done`.
pub mod Phase
pub mod Exclude
pub mod Whole
pub mod Reset
pub mod Late
use chess_rts.Base.{
  ℕ, ◌+◌, ◌*◌, ◌%◌, ◌≡◌, ◌⊎◌, Option, none, some, List, ◌++◌, if◌then◌else◌, ltb, update, bit_and,
}
use chess_rts.Base.Bits.{bit_not}
use chess_rts.Base.Int.{ℤ, pos, negsuc, minus_one, eqb_ℤ}
use chess_rts.State.{RenderThreadInit, RenderRing, Floats, Globals}
use chess_rts.Ring.{tenant_mask}
use chess_rts.Render.{frame_slots, new_local_read, finish_slot, is_read}
use chess_rts.Render.Frame.{FrameAnswers, FrameCall, is_skipped, draw_frame, set_busy}
use chess_rts.Boot.{set_wsi}

-- Where the render thread is in its work on the window: after which access, with the local
-- variables that it still needs.
pub data RenderAt : Type 0 where
  away : RenderAt
  loaded : (ready : ℤ) → RenderAt
  picked : (read_idx : ℤ) → RenderAt
  claimed : (read_idx : ℤ) → RenderAt
  busy : (read_idx : ℤ) → RenderAt
  framed : (read_idx : ℤ) (slots frame : ℕ) (finished : ℤ) → RenderAt
  unlocked : (read_idx : ℤ) (slots frame : ℕ) → RenderAt
  stored : (read_idx : ℤ) (slots frame : ℕ) → RenderAt
  drawing : (slot slots frame : ℕ) → RenderAt
  frame_done : (slots frame : ℕ) → RenderAt

-- Where a call of `vx_stream_init` is: in its wait, between the loads of the two flags, or before
-- one of its stores.
pub data InitAt : Type 0 where
  outside : InitAt
  waiting : RenderThreadInit → InitAt
  render_clear : RenderThreadInit → InitAt
  copying : RenderThreadInit → InitAt
  unlocking : InitAt
  clearing_ready : InitAt
  clearing_local : InitAt
  clearing_active : (f : ℕ) → InitAt
  opening : InitAt

pub record Meeting (fl : Floats) : Type 0 where
  pub globals : Globals fl
  pub t_frame : ℕ
  pub render : RenderAt
  pub init : InitAt
  pub calls : List FrameCall

abbrev pub store_ring : {fl : Floats} → RenderRing → Globals fl → Globals fl
store_ring r g = record g { ring = r }

-- `g_ring.local_read[wid] = idx` and `g_ring.active_ring_slots[wid][f] = idx`.
abbrev pub set_local : {fl : Floats} → ℕ → ℤ → Globals fl → Globals fl
set_local wid idx g = store_ring (record g.ring { local_read = update g.ring.local_read wid idx }) g

abbrev pub set_active : {fl : Floats} → (wid f : ℕ) → ℤ → Globals fl → Globals fl
set_active wid f idx g =
    store_ring
      (record g.ring {
        active_ring_slots =
            update g.ring.active_ring_slots wid (update (g.ring.active_ring_slots wid) f idx);
      })
      g

abbrev pub set_mask : {fl : Floats} → ℕ → Globals fl → Globals fl
set_mask mask g = store_ring (record g.ring { locked_mask = mask }) g

-- The store of a new mask; `none` is a shift by a count out of range.
unfoldable pub unlocked_by :
    {fl : Floats} → ℤ → (slots frame : ℕ) → Meeting fl → Option ℕ → Option (Meeting fl)
unlocked_by read_idx slots frame s none = none
unlocked_by read_idx slots frame s (some mask) =
    some (record s { globals = set_mask mask s.globals; render = unlocked read_idx slots frame })

-- The frame on the GPU; `none` is undefined behaviour.
unfoldable pub drawn_by :
    {fl : Floats}
    → (slots frame : ℕ) → Meeting fl
    → Option (Globals fl × List FrameCall)
    → Option (Meeting fl)
drawn_by slots frame s none = none
drawn_by slots frame s (some (g, calls)) =
    some (record s { globals = g; render = frame_done slots frame; calls = s.calls ++ calls })

-- One access of the render thread in window `wid`; `none` is undefined behaviour.
unfoldable pub render_step :
    {fl : Floats} → FrameAnswers → (wid : ℕ) → RenderAt → Meeting fl → Option (Meeting fl)
render_step a wid away s = some (record s { render = loaded (s.globals.ring.ready_idx wid) })
render_step a wid (loaded ready) s = some (record s {
  render =
      let local_read = s.globals.ring.local_read wid in
      if is_read ready local_read then away else picked (new_local_read local_read (wid * 4));
})
render_step a wid (picked read_idx) s =
    some (record s { globals = set_local wid read_idx s.globals; render = claimed read_idx })
render_step a wid (claimed read_idx) s =
    some (record s { globals = set_busy wid (pos 1) s.globals; render = busy read_idx })
render_step a wid (busy read_idx) s =
    let slots = frame_slots (s.globals.window_wsi wid).max_frames_in_flight in
    let frame = s.t_frame % slots in
    some (record s {
      render = framed read_idx slots frame (s.globals.ring.active_ring_slots wid frame);
    })
render_step a wid (framed read_idx slots frame finished) s =
    unlocked_by read_idx slots frame s (finish_slot finished read_idx s.globals.ring.locked_mask)
render_step a wid (unlocked read_idx slots frame) s = some (record s {
  globals = set_active wid frame read_idx s.globals;
  render = stored read_idx slots frame;
})
render_step a wid (stored (negsuc _) slots frame) s = none
render_step a wid (stored (pos slot) slots frame) s = some (record s {
  render =
      if is_skipped wid slot s.globals then frame_done slots frame else drawing slot slots frame;
})
render_step a wid (drawing slot slots frame) s =
    drawn_by slots frame s (draw_frame a wid frame slot s.globals)
render_step a wid (frame_done slots frame) s = some (record s {
  globals = set_busy wid (pos 0) s.globals;
  t_frame = (frame + 1) % slots;
  render = away;
})

-- One access of `vx_stream_init`.
unfoldable pub init_step : {fl : Floats} → (win_id : ℕ) → InitAt → Globals fl → InitAt × Globals fl
init_step win_id outside g = (outside, g)
init_step win_id (waiting wsi) g =
    (if eqb_ℤ (g.render_busy win_id) (pos 0) then render_clear wsi else waiting wsi, g)
init_step win_id (render_clear wsi) g =
    (if eqb_ℤ (g.transfer_busy win_id) (pos 0) then copying wsi else waiting wsi, g)
init_step win_id (copying wsi) g =
    (unlocking, record g { window_wsi = update g.window_wsi win_id wsi })
init_step win_id unlocking g = (
  clearing_ready,
  set_mask (bit_and g.ring.locked_mask (bit_not 32 (tenant_mask (win_id * 4)))) g,
)
init_step win_id clearing_ready g = (
  clearing_local,
  store_ring (record g.ring { ready_idx = update g.ring.ready_idx win_id minus_one }) g,
)
init_step win_id clearing_local g = (clearing_active 0, set_local win_id minus_one g)
init_step win_id (clearing_active f) g =
    (if ltb f 9 then clearing_active (f + 1) else opening, set_active win_id f minus_one g)
init_step win_id opening g = (outside, set_wsi win_id (pos 1) g)

-- What the other threads, and the calls for other windows, leave of the two flags of window `w`:
-- nobody else writes `g_render_busy`, and all others that write `g_wsi_state` store 0.
pub record KeepsFlags {fl : Floats} (w : ℕ) (g g' : Globals fl) : Type 0 where
  pub render_busy : g'.render_busy w ≡ g.render_busy w
  pub wsi_state : (g'.wsi_state w ≡ g.wsi_state w) ⊎ (g'.wsi_state w ≡ pos 0)

-- `call` and `give_up` are the beginning of `vx_stream_init` and the end of its timeout.
pub data MeetStep {fl : Floats} (w : ℕ) (s : Meeting fl) : Meeting fl → Type 0 where
  render :
      {t : Meeting fl} (a : FrameAnswers) → render_step a w s.render s ≡ some t → MeetStep w s t
  call :
      (wsi : RenderThreadInit)
      → s.init ≡ outside
      → MeetStep w s (record s { globals = set_wsi w (pos 0) s.globals; init = waiting wsi })
  init : MeetStep w s (record s {
    globals = (init_step w s.init s.globals).1;
    init = (init_step w s.init s.globals).0;
  })
  give_up :
      (wsi : RenderThreadInit) → s.init ≡ waiting wsi → MeetStep w s (record s { init = outside })
  others : (g : Globals fl) → KeepsFlags w s.globals g → MeetStep w s (record s { globals = g })

pub data MeetReach {fl : Floats} (w : ℕ) (s : Meeting fl) : Meeting fl → Type 0 where
  here : MeetReach w s s
  next : {t u : Meeting fl} → MeetReach w s t → MeetStep w t u → MeetReach w s u
