-- ===== src/Draw/Record/Phases.antt =====
-- A packet's command buffer as a whole.
use chess_rts.Base.{
  ℕ, ◌≡◌, ◌≢◌, refl, ap, ◌∙◌, true, false, ◌||◌, [], ◌∷◌, ◌++◌, map, ◌==◌, sym, ==_iff, ne→==_false,
}
use chess_rts.State.{DrawCommand, RenderPacket}
use chess_rts.Draw.{vx_execute_draw_commands}
use chess_rts.Draw.Record.{
  undefined, color_attachment, depth_attachment, present_src, pre_barriers, present_barrier,
  pipeline_barrier, begin_rendering, draw_call, end_rendering, end_command_buffer,
  vx_record_commands,
}
use chess_rts.Draw.Record.Calls.{
  initial, recording, executable, after_barriers, after_call, after_calls, Named, after_execute,
}

equal_to_self : (a : ℕ) → (a == a) ≡ true
equal_to_self a = (==_iff a a).1 refl

after_barriers-pre :
    (p : RenderPacket)
    → p.swapchain_image ≢ p.depth_image
    → after_barriers p.swapchain_image p.depth_image (pre_barriers p) undefined undefined
      ≡ recording color_attachment depth_attachment
unfolding after_barriers
after_barriers-pre p other =
    rw
      (
        equal_to_self p.swapchain_image,
        ne→==_false p.depth_image p.swapchain_image (λ e. other (sym e)),
        equal_to_self p.depth_image,
      )
      refl

after_barriers-present :
    (p : RenderPacket)
    → after_barriers p.swapchain_image p.depth_image
        (present_barrier p)
        color_attachment
        depth_attachment
      ≡ recording present_src depth_attachment
unfolding after_barriers
after_barriers-present p = rw (equal_to_self p.swapchain_image) refl

has_size : (p : RenderPacket) → p.width ≢ 0 → p.height ≢ 0 → (p.width == 0 || p.height == 0) ≡ false
has_size p w h = rw (ne→==_false p.width 0 w, ne→==_false p.height 0 h) refl

-- The packet of a window that has a size, with different images for color and depth and a pipeline in
-- each of its `count` commands, is recorded as a command buffer in which every call stands where it is
-- allowed: all draws stand inside the rendering and find a pipeline, a vertex buffer and an index
-- buffer bound, the rendering finds its two images in the layouts for attachments, and the image is
-- left ready to present.
pub record_commands-executable :
    (p : RenderPacket) (queue : ℕ → DrawCommand) (count : ℕ)
    → p.width ≢ 0
    → p.height ≢ 0
    → p.swapchain_image ≢ p.depth_image
    → Named queue count
    → after_calls p.swapchain_image p.depth_image (vx_record_commands p queue count) initial
      ≡ executable present_src depth_attachment
unfolding vx_record_commands after_calls after_call
record_commands-executable p queue count w h other named =
    let s : ℕ = p.swapchain_image in
    let d : ℕ = p.depth_image in
    let draws = vx_execute_draw_commands p queue count in
    let last = end_rendering ∷ pipeline_barrier (present_barrier p) ∷ end_command_buffer ∷ [] in
    let render = begin_rendering p.swapchain_view p.depth_view p.width p.height in
    let (_, _, _, drawn) = after_execute s d p queue count last named in
    rw (has_size p w h) (
      ap (λ phase. after_calls s d (map draw_call draws ++ last) (after_call s d render phase))
        (after_barriers-pre p other)
      ∙ drawn
      ∙ ap (after_call s d end_command_buffer) (after_barriers-present p))
