-- ===== src/Draw/Record.antt =====
-- render/gpu/vk_record.c: the command buffer of a frame. The barriers of one call are a list; the
-- stages and access masks, the load and store operations and the clear values are left out.
pub mod Calls
pub mod Phases
use chess_rts.Base.{ℕ, Bool, true, false, ◌||◌, List, [], ◌∷◌, ◌++◌, map, if◌then◌else◌, ◌==◌}
use chess_rts.State.{DrawCommand, RenderPacket}
use chess_rts.Draw.{DrawCall, vx_execute_draw_commands}

pub data Layout : Type 0 where
  undefined : Layout
  color_attachment : Layout
  depth_attachment : Layout
  present_src : Layout

pub record Barrier : Type 0 where
  pub image : ℕ
  pub old_layout : Layout
  pub new_layout : Layout

pub data RecordCall : Type 0 where
  begin_command_buffer : RecordCall
  pipeline_barrier : List Barrier → RecordCall
  begin_rendering : (color_view depth_view width height : ℕ) → RecordCall
  draw_call : DrawCall → RecordCall
  end_rendering : RecordCall
  end_command_buffer : RecordCall

abbrev pub pre_barriers : RenderPacket → List Barrier
pre_barriers p =
    record { image = p.swapchain_image; old_layout = undefined; new_layout = color_attachment }
    ∷ record { image = p.depth_image; old_layout = undefined; new_layout = depth_attachment }
    ∷ []

abbrev pub present_barrier : RenderPacket → List Barrier
present_barrier p =
    record { image = p.swapchain_image; old_layout = color_attachment; new_layout = present_src }
    ∷ []

pub vx_record_commands : RenderPacket → (ℕ → DrawCommand) → (count : ℕ) → List RecordCall
vx_record_commands p queue count =
    if p.width == 0 || p.height == 0
    then []
    else begin_command_buffer
      ∷ pipeline_barrier (pre_barriers p)
      ∷ begin_rendering p.swapchain_view p.depth_view p.width p.height
      ∷ (map draw_call (vx_execute_draw_commands p queue count)
          ++ (end_rendering ∷ pipeline_barrier (present_barrier p) ∷ end_command_buffer ∷ []))
