-- ===== src/Tests.antt =====
-- Concrete states for the tests: integers for the floating-point types, a ring that is fresh, and
-- globals in which window 0 is running.
mod Stream
mod Transport
mod Tenants
mod Desks
mod Gpu
mod Jobs
mod Copies
mod Kills
mod Wire
mod Host
mod Layout
use chess_rts.Base.{ℕ, ◌+◌, if◌then◌else◌, ◌==◌}
use chess_rts.Base.Int.{ℤ, pos, minus_one, ◌+ℤ◌, ◌-ℤ◌}
use chess_rts.State.{
  Floats, TenantMailbox, IpcMailbox, DrawCommand, RenderPacket, RenderThreadInit, RenderRing,
  TransferJob, Globals,
}

abbrev pub whole : Floats
whole = record {
  Float = ℤ;
  Double = ℤ;
  narrow = λ x. x;
  sub = λ x y. x -ℤ y;
  add = λ x y. x +ℤ y;
  float_zero = pos 0;
  float_minus_one = minus_one;
}

abbrev pub a_tenant : TenantMailbox whole
a_tenant = record {
  vk_instance = 7;
  vk_surface = 0;
  glfw_cmd = pos 0;
  glfw_arg_w = pos 0;
  glfw_arg_h = pos 0;
  last_key_pressed = pos 0;
  wasd_mask = 0;
  mouse_dx = pos 1;
  mouse_dy = pos 0;
  mouse_x = pos 0;
  mouse_y = pos 0;
  mouse_captured = pos 0;
  window_resized = pos 0;
  win_w = pos 1280;
  win_h = pos 720;
  click_x = minus_one;
  click_y = minus_one;
  mouse_left = pos 0;
  mouse_right = pos 0;
  key_space = pos 0;
}

abbrev pub a_draw : DrawCommand
a_draw = record {
  pipeline_id = 5;
  descriptor_set = 6;
  index_count = 36;
  instance_count = 1;
  first_index = 0;
  vertex_offset = pos 0;
  first_instance = 0;
  pc_offset = 0;
  pc_size = 64;
  push_constants = λ i. i;
  scissor_x = pos 0;
  scissor_y = pos 0;
  scissor_w = 1280;
  scissor_h = 720;
  cull_mode = 0;
  depth_test = 1;
  depth_write = 1;
  depth_compare_op = 1;
  front_face = 0;
  topology = 3;
}

abbrev pub a_packet : RenderPacket
a_packet = record {
  draw_queue = λ _. a_draw;
  draw_count = 2;
  target_window_id = 0;
  gfx_layout = 3;
  vertex_buffer = 10;
  index_buffer = 11;
  swapchain_image = 0;
  swapchain_view = 0;
  depth_image = 12;
  depth_view = 13;
  width = 1280;
  height = 720;
}

abbrev pub a_wsi : RenderThreadInit
a_wsi = record {
  device = 1;
  queue = 2;
  transfer_queue = 3;
  swapchain = 4;
  max_frames_in_flight = 2;
  swapchain_images = λ i. i + 100;
  swapchain_views = λ i. i + 200;
}

abbrev pub fresh_ring : RenderRing
fresh_ring = record {
  packets = λ _. a_packet;
  ready_idx = λ _. minus_one;
  local_read = λ _. minus_one;
  active_ring_slots = λ _ _. minus_one;
  locked_mask = 0;
}

-- A job that is ready for window 0.
abbrev pub a_job : TransferJob
a_job = record {
  src_buffer = 20;
  dst_buffer = 21;
  size = 256;
  timeline_sem = 22;
  signal_val = 1;
  target_window_id = pos 0;
  status = pos 2;
}

abbrev pub some_globals : Globals whole
some_globals = record {
  mailbox = record {
    ready_index = pos 0;
    is_running = pos 1;
    lua_finished = pos 0;
    active_window = pos 0;
    tenants = λ _. a_tenant;
  };
  ring = fresh_ring;
  window_wsi = λ _. a_wsi;
  wsi_state = λ _. pos 1;
  render_busy = λ _. pos 0;
  transfer_busy = λ _. pos 0;
  render_thread_active = pos 1;
  transfer_ring = λ i. if i == 1 then a_job else record a_job { status = pos 0 };
  transfer_thread_active = pos 1;
  render_cmd_pools = λ _. 30;
  transfer_cmd_pools = λ _. 31;
  render_cmd_buffers = λ _ f. f + 32;
  transfer_cmd_buffers = λ _. 35;
  transfer_fences = λ _. 36;
}
