-- ===== src/Draw.antt =====
-- render/gpu/vk_draw.c: the Vulkan calls that draw a packet, in order. A pipeline and a descriptor
-- set are bound only when they change. The viewport's extent is given as the integers that the
-- code casts to float, and an unsigned field that becomes `int32_t` keeps its value.
pub mod Bindings
pub mod Record
use chess_rts.Base.{
  ℕ, zero, suc, ◌+◌, Bool, true, false, ◌||◌, List, [], ◌∷◌, ◌++◌, if◌then◌else◌, ltb, ◌==◌,
}
use chess_rts.Base.Int.{ℤ, pos}
use chess_rts.State.{DrawCommand, RenderPacket}

pub data DrawCall : Type 0 where
  set_viewport : (width height : ℕ) → DrawCall
  set_scissor : (x y : ℤ) (width height : ℕ) → DrawCall
  bind_vertex_buffers : (buffer : ℕ) → DrawCall
  bind_index_buffer : (buffer : ℕ) → DrawCall
  bind_pipeline : (pipeline : ℕ) → DrawCall
  bind_descriptor_sets : (layout set : ℕ) → DrawCall
  set_cull_mode : ℕ → DrawCall
  set_front_face : ℕ → DrawCall
  set_primitive_topology : ℕ → DrawCall
  set_depth_test_enable : ℕ → DrawCall
  set_depth_write_enable : ℕ → DrawCall
  set_depth_compare_op : ℕ → DrawCall
  push_constants : (layout offset size : ℕ) (values : ℕ → ℕ) → DrawCall
  draw_indexed :
      (index_count instance_count first_index : ℕ) (vertex_offset : ℤ) (first_instance : ℕ)
      → DrawCall

-- The calls of one round that are made whatever is bound. The values start at `pc_offset`.
pub draw_state : ℕ → DrawCommand → List DrawCall
draw_state gfx_layout draw =
    set_scissor draw.scissor_x draw.scissor_y draw.scissor_w draw.scissor_h
    ∷ set_cull_mode draw.cull_mode
    ∷ set_front_face draw.front_face
    ∷ set_primitive_topology draw.topology
    ∷ set_depth_test_enable draw.depth_test
    ∷ set_depth_write_enable draw.depth_write
    ∷ set_depth_compare_op draw.depth_compare_op
    ∷ push_constants gfx_layout draw.pc_offset draw.pc_size
        (λ i. draw.push_constants (draw.pc_offset + i))
    ∷ draw_indexed draw.index_count draw.instance_count draw.first_index draw.vertex_offset
        draw.first_instance
    ∷ []

abbrev pub when_new : (handle current : ℕ) → DrawCall → List DrawCall
when_new handle current call = if handle == current then [] else call ∷ []

-- The loop, with the rounds left, `i`, `cur_pipe` and `cur_desc`. After a round the current
-- pipeline and set are the command's, whether they were bound in it or before.
pub draw_loop : ℕ → (gfx_layout : ℕ) → (ℕ → DrawCommand) → (i cur_pipe cur_desc : ℕ) → List DrawCall
draw_loop zero gfx_layout queue i cur_pipe cur_desc = []
draw_loop (suc left) gfx_layout queue i cur_pipe cur_desc =
    when_new draw.pipeline_id cur_pipe (bind_pipeline draw.pipeline_id)
    ++ (when_new draw.descriptor_set cur_desc (bind_descriptor_sets gfx_layout draw.descriptor_set)
        ++ (draw_state gfx_layout draw
            ++ draw_loop left gfx_layout queue (i + 1) draw.pipeline_id draw.descriptor_set))
  where
    draw : DrawCommand
    draw = queue i

abbrev pub max_draws : ℕ
max_draws = 1024

pub vx_execute_draw_commands : RenderPacket → (ℕ → DrawCommand) → (count : ℕ) → List DrawCall
vx_execute_draw_commands p queue count =
    set_viewport p.width p.height
    ∷ set_scissor (pos 0) (pos 0) p.width p.height
    ∷ (if count == 0 || p.vertex_buffer == 0 || p.index_buffer == 0
        then []
        else bind_vertex_buffers p.vertex_buffer
          ∷ bind_index_buffer p.index_buffer
          ∷ draw_loop safe_count p.gfx_layout queue 0 0 0)
  where
    safe_count : ℕ
    safe_count = if ltb max_draws count then max_draws else count
