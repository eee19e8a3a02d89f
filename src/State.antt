-- ===== src/State.antt =====
-- host/state/state_types.c and state_globals.c: the structures and the globals that the Lua thread,
-- the render thread, the transfer thread and the window callbacks share. An array of MAX_WINDOWS
-- cells is a function of the index; the operations check the index as the code does. A pointer or
-- a Vulkan handle is a number, with 0 for NULL. Padding is left out.
use chess_rts.Base.{ℕ}
use chess_rts.Base.Int.{ℤ}

abbrev pub cmd_idle : ℕ
cmd_idle = 0

abbrev pub cmd_boot_window : ℕ
cmd_boot_window = 1

abbrev pub cmd_kill_window : ℕ
cmd_kill_window = 2

abbrev pub cmd_rebuild_wsi : ℕ
cmd_rebuild_wsi = 3

abbrev pub max_windows : ℕ
max_windows = 4

abbrev pub ring_size : ℕ
ring_size = 16

abbrev pub transfer_ring_size : ℕ
transfer_ring_size = 16

-- The floating-point types and what the program computes with them: the cast of a double to
-- a float, the difference of doubles, the sum of floats, and the literals `0.0f` and `-1.0f`.
pub record Floats : Type 1 where
  pub Float : Type 0
  pub Double : Type 0
  pub narrow : Double → Float
  pub sub : Double → Double → Double
  pub add : Float → Float → Float
  pub float_zero : Float
  pub float_minus_one : Float

pub record TenantMailbox (fl : Floats) : Type 0 where
  pub vk_instance : ℕ
  pub vk_surface : ℕ
  pub glfw_cmd : ℤ
  pub glfw_arg_w : ℤ
  pub glfw_arg_h : ℤ
  pub last_key_pressed : ℤ
  pub wasd_mask : ℕ
  pub mouse_dx : fl.Float
  pub mouse_dy : fl.Float
  pub mouse_x : fl.Float
  pub mouse_y : fl.Float
  pub mouse_captured : ℤ
  pub window_resized : ℤ
  pub win_w : ℤ
  pub win_h : ℤ
  pub click_x : fl.Float
  pub click_y : fl.Float
  pub mouse_left : ℤ
  pub mouse_right : ℤ
  pub key_space : ℤ

pub record IpcMailbox (fl : Floats) : Type 0 where
  pub ready_index : ℤ
  pub is_running : ℤ
  pub lua_finished : ℤ
  pub active_window : ℤ
  pub tenants : ℕ → TenantMailbox fl

-- `DrawCommand` of generated/ssot_render.h; `push_constants` is the block of 128 bytes.
pub record DrawCommand : Type 0 where
  pub pipeline_id : ℕ
  pub descriptor_set : ℕ
  pub index_count : ℕ
  pub instance_count : ℕ
  pub first_index : ℕ
  pub vertex_offset : ℤ
  pub first_instance : ℕ
  pub pc_offset : ℕ
  pub pc_size : ℕ
  pub push_constants : ℕ → ℕ
  pub scissor_x : ℤ
  pub scissor_y : ℤ
  pub scissor_w : ℕ
  pub scissor_h : ℕ
  pub cull_mode : ℕ
  pub depth_test : ℕ
  pub depth_write : ℕ
  pub depth_compare_op : ℕ
  pub front_face : ℕ
  pub topology : ℕ

-- `draw_queue` stands for what the pointer of that name points to when it is read.
pub record RenderPacket : Type 0 where
  pub draw_queue : ℕ → DrawCommand
  pub draw_count : ℕ
  pub target_window_id : ℕ
  pub gfx_layout : ℕ
  pub vertex_buffer : ℕ
  pub index_buffer : ℕ
  pub swapchain_image : ℕ
  pub swapchain_view : ℕ
  pub depth_image : ℕ
  pub depth_view : ℕ
  pub width : ℕ
  pub height : ℕ

-- The handles of `RenderThreadInit`. The function pointers are not kept: what they return is an
-- argument of the loops that call them. Nor are the semaphores and fences of the frames, which
-- those loops name by their index.
pub record RenderThreadInit : Type 0 where
  pub device : ℕ
  pub queue : ℕ
  pub transfer_queue : ℕ
  pub swapchain : ℕ
  pub max_frames_in_flight : ℕ
  pub swapchain_images : ℕ → ℕ
  pub swapchain_views : ℕ → ℕ

pub record RenderRing : Type 0 where
  pub packets : ℕ → RenderPacket
  pub ready_idx : ℕ → ℤ
  pub local_read : ℕ → ℤ
  pub active_ring_slots : ℕ → ℕ → ℤ
  pub locked_mask : ℕ

pub record TransferJob : Type 0 where
  pub src_buffer : ℕ
  pub dst_buffer : ℕ
  pub size : ℕ
  pub timeline_sem : ℕ
  pub signal_val : ℕ
  pub target_window_id : ℤ
  pub status : ℤ

-- The globals of state_globals.c.
pub record Globals (fl : Floats) : Type 0 where
  pub mailbox : IpcMailbox fl
  pub ring : RenderRing
  pub window_wsi : ℕ → RenderThreadInit
  pub wsi_state : ℕ → ℤ
  pub render_busy : ℕ → ℤ
  pub transfer_busy : ℕ → ℤ
  pub render_thread_active : ℤ
  pub transfer_ring : ℕ → TransferJob
  pub transfer_thread_active : ℤ
  pub render_cmd_pools : ℕ → ℕ
  pub transfer_cmd_pools : ℕ → ℕ
  pub render_cmd_buffers : ℕ → ℕ → ℕ
  pub transfer_cmd_buffers : ℕ → ℕ
  pub transfer_fences : ℕ → ℕ
