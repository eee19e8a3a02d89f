-- ===== src/Layout/Shared.antt =====
-- generated/ssot_types.h, generated/ssot_render.h and host/state/state_types.c: the structures that the
-- threads, the Lua side and the shaders share, with their padding.
use chess_rts.Base.{false}
use chess_rts.State.{max_windows, ring_size}
use chess_rts.Layout.{
  CType, array, struct, end, ◌▹◌, var, alignas, u8, u16, u32, u64, i16, i32, f32, pointer,
}

abbrev pub mat4_t : CType
mat4_t = struct false 1 (var "m" (array 16 f32) ▹ end)

abbrev pub render_thread_init : CType
render_thread_init = struct false 1 (
    var "device" pointer
    ▹ var "queue" pointer
    ▹ var "transfer_queue" pointer
    ▹ var "swapchain" pointer
    ▹ var "max_frames_in_flight" u32
    ▹ var "_pad_auto_0" (array 4 u8)
    ▹ var "swapchain_images" (array 10 u64)
    ▹ var "swapchain_views" (array 10 u64)
    ▹ var "image_available" (array 10 pointer)
    ▹ var "render_finished" (array 10 pointer)
    ▹ var "in_flight" (array 10 pointer)
    ▹ var "vkWaitForFences" pointer
    ▹ var "vkAcquireNextImageKHR" pointer
    ▹ var "vkResetFences" pointer
    ▹ var "vkQueueSubmit" pointer
    ▹ var "vkQueuePresentKHR" pointer
    ▹ var "pfnBegin" pointer
    ▹ var "pfnEnd" pointer
    ▹ var "pfnSetCullMode" pointer
    ▹ var "pfnSetFrontFace" pointer
    ▹ var "pfnSetPrimitiveTopology" pointer
    ▹ var "pfnSetDepthTestEnable" pointer
    ▹ var "pfnSetDepthWriteEnable" pointer
    ▹ var "pfnSetDepthCompareOp" pointer
    ▹ end)

abbrev pub rts_tile_instance : CType
rts_tile_instance =
    struct false 1 (var "px" f32 ▹ var "py" f32 ▹ var "pz" f32 ▹ var "tile_data" u32 ▹ end)

abbrev pub push_constants : CType
push_constants = struct false 1 (
    var "viewProj" mat4_t
    ▹ var "aos_current_idx" u32
    ▹ var "aos_prev_idx" u32
    ▹ var "dt" f32
    ▹ var "total_time" f32
    ▹ var "target_state" u32
    ▹ var "hover_idx" u32
    ▹ var "flags" u32
    ▹ var "_pad_tail" (array 4 u8)
    ▹ end)

abbrev pub draw_command : CType
draw_command = struct false 1 (
    var "pipeline_id" u64
    ▹ var "descriptor_set" u64
    ▹ var "index_count" u32
    ▹ var "instance_count" u32
    ▹ var "first_index" u32
    ▹ var "vertex_offset" i32
    ▹ var "first_instance" u32
    ▹ var "pc_offset" u16
    ▹ var "pc_size" u16
    ▹ var "push_constants" (array 128 u8)
    ▹ var "scissor_x" i16
    ▹ var "scissor_y" i16
    ▹ var "scissor_w" u16
    ▹ var "scissor_h" u16
    ▹ var "cull_mode" u8
    ▹ var "depth_test" u8
    ▹ var "depth_write" u8
    ▹ var "depth_compare_op" u8
    ▹ var "front_face" u8
    ▹ var "topology" u8
    ▹ var "_pad_tail" (array 2 u8)
    ▹ end)

abbrev pub render_packet : CType
render_packet = struct false 64 (
    var "draw_queue" pointer
    ▹ var "draw_count" u32
    ▹ var "target_window_id" u32
    ▹ var "gfx_layout" u64
    ▹ var "vertex_buffer" u64
    ▹ var "index_buffer" u64
    ▹ var "swapchain_image" u64
    ▹ var "swapchain_view" u64
    ▹ var "depth_image" u64
    ▹ var "depth_view" u64
    ▹ var "width" u32
    ▹ var "height" u32
    ▹ var "_pad_tail" (array 48 u8)
    ▹ end)

abbrev pub tenant_mailbox : CType
tenant_mailbox = struct false 1 (
    var "vk_instance" pointer
    ▹ var "vk_surface" pointer
    ▹ var "glfw_cmd" i32
    ▹ var "glfw_arg_w" i32
    ▹ var "glfw_arg_h" i32
    ▹ var "last_key_pressed" i32
    ▹ var "wasd_mask" u32
    ▹ var "mouse_dx" f32
    ▹ var "mouse_dy" f32
    ▹ var "mouse_x" f32
    ▹ var "mouse_y" f32
    ▹ var "mouse_captured" i32
    ▹ var "window_resized" i32
    ▹ var "win_w" i32
    ▹ var "win_h" i32
    ▹ var "click_x" f32
    ▹ var "click_y" f32
    ▹ var "mouse_left" i32
    ▹ var "mouse_right" i32
    ▹ var "key_space" i32
    ▹ var "_pad" (array 40 u8)
    ▹ end)

abbrev pub ipc_mailbox : CType
ipc_mailbox = struct false 1 (
    alignas 64 "ready_index" i32
    ▹ var "is_running" i32
    ▹ var "lua_finished" i32
    ▹ var "active_window" i32
    ▹ alignas 64 "tenants" (array max_windows tenant_mailbox)
    ▹ end)

abbrev pub engine_state : CType
engine_state =
    struct false 1
      (var "mailbox" ipc_mailbox ▹ var "render_index" i32 ▹ var "write_index" i32 ▹ end)

abbrev pub render_ring : CType
render_ring = struct false 1 (
    alignas 64 "packets" (array ring_size render_packet)
    ▹ alignas 64 "ready_idx" (array max_windows i32)
    ▹ alignas 64 "local_read" (array max_windows i32)
    ▹ alignas 64 "active_ring_slots" (array max_windows (array 10 i32))
    ▹ alignas 64 "locked_mask" u32
    ▹ end)

abbrev pub transfer_job : CType
transfer_job = struct false 1 (
    var "src_buffer" u64
    ▹ var "dst_buffer" u64
    ▹ var "size" u64
    ▹ var "timeline_sem" u64
    ▹ var "signal_val" u64
    ▹ var "target_window_id" i32
    ▹ var "_pad" u32
    ▹ alignas 64 "status" i32
    ▹ end)
