-- ===== src/Render/Frame.antt =====
-- render/gpu/vk_render_loop.c, from the busy flag on: one frame of one window. What Vulkan answers
-- is an argument, and the calls are listed in order; the fences and semaphores of a frame are
-- named by their index. The code tests three of the errors of the acquisition; after another one it
-- goes on with an image index that nothing has set, which is undefined behaviour, and so is an index
-- out of the arrays of `RenderThreadInit`. The code does not look at what the
-- submission (`submit_ok`) and the presentation answer; of the answers to the wait it looks at the
-- timeout only.
pub mod Fence
use chess_rts.Base.{
  ℕ, ◌+◌, ◌%◌, Bool, true, false, ◌||◌, Option, none, some, List, [], ◌∷◌, ◌++◌, if◌then◌else◌,
  ◌==◌, update, ltb, arith, ◌≡◌,
}
use chess_rts.Base.Int.{ℤ, pos, negsuc, eqb_ℤ}
use chess_rts.State.{
  cmd_rebuild_wsi, Floats, TenantMailbox, IpcMailbox, RenderPacket, RenderRing, Globals,
}
use chess_rts.Render.{frame_slots, Take, idle, fault, took, render_take}
use chess_rts.Draw.Record.{RecordCall, vx_record_commands}
use chess_rts.Tenant.{set_tenant}

pub data Acquire : Type 0 where
  image : (index : ℕ) → Acquire
  no_image : Acquire
  out_of_date : Acquire
  other_error : Acquire

-- The length of `swapchain_images`, `swapchain_views` and `render_finished`.
abbrev pub max_images : ℕ
max_images = 10

-- Whether the code has a defined meaning after the answer.
unfoldable pub is_defined : Acquire → Bool
is_defined (image index) = ltb index max_images
is_defined no_image = true
is_defined out_of_date = true
is_defined other_error = false

pub record FrameAnswers : Type 0 where
  pub wait_times_out : Bool
  pub acquire : Acquire
  pub submit_ok : Bool

pub data FrameCall : Type 0 where
  wait_for_fence : (frame : ℕ) → FrameCall
  acquire_next_image : (frame : ℕ) → FrameCall
  sleep_ms : ℕ → FrameCall
  reset_fence : (frame : ℕ) → FrameCall
  reset_command_buffer : (cmd : ℕ) → FrameCall
  record_commands : (cmd : ℕ) → List RecordCall → FrameCall
  queue_submit : (cmd frame image : ℕ) → FrameCall
  queue_present : (image : ℕ) → FrameCall

-- The packet with the image that was acquired.
abbrev pub with_image : (image_ view : ℕ) → RenderPacket → RenderPacket
with_image image_ view p = record p { swapchain_image = image_; swapchain_view = view }

-- From the acquisition on. What `other_error` leaves is not used: `draw_frame` is undefined then.
unfoldable pub frame_acquired :
    {fl : Floats} → Acquire → (wid frame slot : ℕ) → Globals fl → Globals fl × List FrameCall
frame_acquired no_image wid frame slot g = (g, [])
frame_acquired other_error wid frame slot g = (g, [])
frame_acquired {fl} out_of_date wid frame slot g = (
  record g {
    mailbox =
        set_tenant wid (λ (t : TenantMailbox fl). record t { window_resized = pos 1 }) g.mailbox;
  },
  sleep_ms 10 ∷ [],
)
frame_acquired (image index) wid frame slot g = (
  record g { ring = record g.ring { packets = update g.ring.packets slot p } },
  reset_fence frame
      ∷ reset_command_buffer cmd
      ∷ record_commands cmd (vx_record_commands p p.draw_queue p.draw_count)
      ∷ queue_submit cmd frame index
      ∷ queue_present index
      ∷ [],
)
  where
    cmd : ℕ
    cmd = g.render_cmd_buffers wid frame

    p : RenderPacket
    p =
        with_image ((g.window_wsi wid).swapchain_images index)
          ((g.window_wsi wid).swapchain_views index) (g.ring.packets slot)

-- Whether the frame is skipped before the GPU is asked for anything.
abbrev pub is_skipped : {fl : Floats} → (wid slot : ℕ) → Globals fl → Bool
is_skipped wid slot g =
    eqb_ℤ (g.wsi_state wid) (pos 0)
    || (g.ring.packets slot).width == 0
    || (g.ring.packets slot).height == 0

-- From the wait for the frame's fence to `frame_done`, where that is defined.
unfoldable pub drawn :
    {fl : Floats} → FrameAnswers → (wid frame slot : ℕ) → Globals fl → Globals fl × List FrameCall
drawn a wid frame slot g =
    if a.wait_times_out
    then (g, wait_for_fence frame ∷ [])
    else (let (g', calls) = frame_acquired a.acquire wid frame slot g in
        (g', wait_for_fence frame ∷ acquire_next_image frame ∷ calls))

-- `none` is undefined behaviour.
unfoldable pub draw_frame :
    {fl : Floats}
    → FrameAnswers
    → (wid frame slot : ℕ) → Globals fl
    → Option (Globals fl × List FrameCall)
draw_frame a wid frame slot g =
    if a.wait_times_out || is_defined a.acquire then some (drawn a wid frame slot g) else none

-- All from the test of `g_wsi_state` to `frame_done`.
unfoldable pub render_frame :
    {fl : Floats}
    → FrameAnswers
    → (wid frame slot : ℕ) → Globals fl
    → Option (Globals fl × List FrameCall)
render_frame a wid frame slot g =
    if is_skipped wid slot g then some (g, []) else draw_frame a wid frame slot g

-- The same where that is defined.
unfoldable pub framed :
    {fl : Floats} → FrameAnswers → (wid frame slot : ℕ) → Globals fl → Globals fl × List FrameCall
unfolding drawn
framed a wid frame slot g = if is_skipped wid slot g then (g, []) else drawn a wid frame slot g

pub render_frame_lem :
    {fl : Floats} (a : FrameAnswers) (wid frame slot : ℕ) (g : Globals fl)
    → is_defined a.acquire ≡ true
    → render_frame a wid frame slot g ≡ some (framed a wid frame slot g)
unfolding render_frame draw_frame framed
render_frame_lem a wid frame slot g e = ground (arith, e)

abbrev pub set_busy : {fl : Floats} → ℕ → ℤ → Globals fl → Globals fl
set_busy wid busy g = record g { render_busy = update g.render_busy wid busy }

-- The round for a window: the globals, the window's frame counter and the calls.
pub record Rendered (fl : Floats) : Type 0 where
  pub globals : Globals fl
  pub t_frame : ℕ
  pub calls : List FrameCall

-- From `frame_done` on.
unfoldable pub after_frame :
    {fl : Floats}
    → (wid frame : ℕ) → Globals fl
    → Option (Globals fl × List FrameCall)
    → Option (Rendered fl)
after_frame wid frame g none = none
after_frame wid frame g (some (g', calls)) = some (record {
  globals = set_busy wid (pos 0) g';
  t_frame = (frame + 1) % frame_slots (g.window_wsi wid).max_frames_in_flight;
  calls = calls;
})

-- The round once a slot is taken. A negative slot would be out of the array's bounds.
unfoldable pub render_slot :
    {fl : Floats} → FrameAnswers → (wid frame : ℕ) → ℤ → Globals fl → Option (Rendered fl)
render_slot a wid frame (negsuc _) g = none
render_slot a wid frame (pos slot) g =
    after_frame wid frame g (render_frame a wid frame slot (set_busy wid (pos 1) g))

-- The round after the bookkeeping of the ring.
unfoldable pub after_take :
    {fl : Floats} → FrameAnswers → (wid t_frame : ℕ) → Globals fl → Take → Option (Rendered fl)
after_take a wid t_frame g idle = some (record { globals = g; t_frame = t_frame; calls = [] })
after_take a wid t_frame g fault = none
after_take a wid t_frame g (took read_idx frame ring) =
    render_slot a wid frame read_idx (record g { ring = ring })

-- `none` is undefined behaviour.
unfoldable pub render_window :
    {fl : Floats} → FrameAnswers → (wid t_frame : ℕ) → Globals fl → Option (Rendered fl)
render_window a wid t_frame g =
    after_take a wid t_frame g
      (render_take wid (g.window_wsi wid).max_frames_in_flight t_frame g.ring)
