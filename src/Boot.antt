-- ===== src/Boot.antt =====
-- host/ipc/mailbox.c, host/boot/lifecycle.c, host/threading/thread_lifecycle.c and
-- `vx_stream_init` of host/ipc/ring_stream.c: how the shared state starts, how a window's part of
-- it starts again, and how the threads are stopped. Pointers to Vulkan objects are numbers; the
-- Vulkan calls of `vx_thread_kill` are listed in order.
pub mod Fresh
pub mod Pools
pub mod Purge
use chess_rts.Base.{
  ℕ, zero, suc, ◌+◌, ◌*◌, Bool, true, false, Option, none, some, List, [], ◌∷◌, ◌++◌, if◌then◌else◌,
  leb, ltb, ◌==◌, update,
}
use chess_rts.Base.Int.{ℤ, pos, negsuc, minus_one}
use chess_rts.State.{
  cmd_idle, max_windows, Floats, TenantMailbox, IpcMailbox, RenderThreadInit, RenderRing, Globals,
}
use chess_rts.Ring.{reset_ring}
use chess_rts.Spin.{init_wait}

-- A loop `for (int i = 0; i < MAX_WINDOWS; i++)` that sets cell `i` of an array.
abbrev pub set_windows {ℓ} : {A : Type ℓ} → A → (ℕ → A) → ℕ → A
set_windows a f i = if ltb i max_windows then a else f i

abbrev pub empty_tenant : (fl : Floats) → TenantMailbox fl
empty_tenant fl = record {
  vk_instance = 0;
  vk_surface = 0;
  glfw_cmd = pos cmd_idle;
  glfw_arg_w = pos 0;
  glfw_arg_h = pos 0;
  last_key_pressed = pos 0;
  wasd_mask = 0;
  mouse_dx = fl.float_zero;
  mouse_dy = fl.float_zero;
  mouse_x = fl.float_zero;
  mouse_y = fl.float_zero;
  mouse_captured = pos 0;
  window_resized = pos 0;
  win_w = pos 1280;
  win_h = pos 720;
  click_x = fl.float_minus_one;
  click_y = fl.float_minus_one;
  mouse_left = pos 0;
  mouse_right = pos 0;
  key_space = pos 0;
}

pub vx_init_mailbox : {fl : Floats} → Globals fl → Globals fl
vx_init_mailbox {fl} g = record g {
  mailbox = record {
    ready_index = pos 0;
    is_running = pos 1;
    lua_finished = pos 0;
    active_window = pos 0;
    tenants = set_windows (empty_tenant fl) g.mailbox.tenants;
  };
  ring = record g.ring {
    locked_mask = 0;
    ready_idx = set_windows minus_one g.ring.ready_idx;
    local_read = set_windows minus_one g.ring.local_read;
    active_ring_slots = λ i f.
        if ltb i max_windows
        then if ltb f 10 then minus_one else g.ring.active_ring_slots i f
        else g.ring.active_ring_slots i f;
  };
  wsi_state = set_windows (pos 0) g.wsi_state;
  render_busy = set_windows (pos 0) g.render_busy;
  transfer_busy = set_windows (pos 0) g.transfer_busy;
}

pub vx_core_is_running : {fl : Floats} → Globals fl → ℤ
vx_core_is_running g = g.mailbox.is_running

unfoldable pub vx_core_shutdown : {fl : Floats} → Globals fl → Globals fl
vx_core_shutdown g = record g { mailbox = record g.mailbox { is_running = pos 0 } }

pub vx_core_mark_finished : {fl : Floats} → Globals fl → Globals fl
vx_core_mark_finished g = record g { mailbox = record g.mailbox { lua_finished = pos 1 } }

-- `g_wsi_state[win_id] = state`.
abbrev pub set_wsi : {fl : Floats} → ℕ → ℤ → Globals fl → Globals fl
set_wsi win_id state g = record g { wsi_state = update g.wsi_state win_id state }

-- What follows the wait of `vx_stream_init` once the flags are clear.
unfoldable pub restart : {fl : Floats} → ℕ → RenderThreadInit → Globals fl → Globals fl
restart win_id wsi g =
    set_wsi win_id (pos 1)
      (record g { window_wsi = update g.window_wsi win_id wsi; ring = reset_ring win_id g.ring })

-- What `vx_stream_init` does with the outcome of its wait.
pub after_wait :
    {fl : Floats} → Option Bool → ℕ → RenderThreadInit → Globals fl → Option (Globals fl)
after_wait none win_id wsi g = none
after_wait (some true) win_id wsi g = some (restart win_id wsi g)
after_wait (some false) win_id wsi g = some g

-- `busy k` is what poll `k` sees of the two flags. `none` would be fuel that has run out.
pub vx_stream_init :
    {fl : Floats} → (ℕ → Bool) → ℤ → RenderThreadInit → Globals fl → Option (Globals fl)
vx_stream_init busy (negsuc _) wsi g = some g
vx_stream_init busy (pos win_id) wsi g =
    if leb max_windows win_id
    then some g
    else after_wait (init_wait 4000 busy 0 2000 0) win_id wsi (set_wsi win_id (pos 0) g)

-- The Vulkan calls of `vx_thread_kill`, with the device and the object.
pub data KillCall : Type 0 where
  device_wait_idle : (device : ℕ) → KillCall
  destroy_command_pool : (device pool : ℕ) → KillCall
  destroy_fence : (device fence : ℕ) → KillCall

pub vx_thread_start : {fl : Floats} → Globals fl → Globals fl
vx_thread_start g = record g { render_thread_active = pos 1; transfer_thread_active = pos 1 }

-- The part for window `i`: the state, and the calls.
pub purge_window : {fl : Floats} → ℕ → Globals fl → Globals fl × List KillCall
purge_window i g = (
  record g {
    render_cmd_pools = update g.render_cmd_pools i 0;
    transfer_cmd_pools = update g.transfer_cmd_pools i 0;
    transfer_fences = update g.transfer_fences i 0;
  },
  unless_null device (device_wait_idle device)
      ++ unless_null (g.render_cmd_pools i) (destroy_command_pool device (g.render_cmd_pools i))
      ++ unless_null (g.transfer_cmd_pools i) (destroy_command_pool device (g.transfer_cmd_pools i))
      ++ unless_null (g.transfer_fences i) (destroy_fence device (g.transfer_fences i)),
)
  where
    device : ℕ
    device = (g.window_wsi i).device

    unless_null : ℕ → KillCall → List KillCall
    unless_null handle call = if handle == 0 then [] else call ∷ []

-- The last loop, from window `i` on.
pub purge_windows : {fl : Floats} → ℕ → ℕ → Globals fl → Globals fl × List KillCall
purge_windows zero i g = (g, [])
purge_windows (suc left) i g =
    let (next, calls) = purge_window i g in
    let (end, more) = purge_windows left (i + 1) next in (end, calls ++ more)

-- `stopped` is the state that the two threads leave when they have seen their flags and are
-- joined.
pub vx_thread_kill :
    {fl : Floats} → (stopped : Globals fl → Globals fl) → Globals fl → Globals fl × List KillCall
vx_thread_kill stopped g =
    let s = stopped (record g { render_thread_active = pos 0; transfer_thread_active = pos 0 }) in
    purge_windows max_windows 0 (record s {
      ring = record s.ring { ready_idx = set_windows minus_one s.ring.ready_idx; locked_mask = 0 };
    })
