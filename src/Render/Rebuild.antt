-- ===== src/Render/Rebuild.antt =====
-- render/gpu/vk_render_loop.c, the first loop of a round: the rebuild command, which stops a window
-- and leaves it to the Lua thread to start again. `busy k` is what poll `k` of the wait sees.
pub mod Calls
pub mod Stopped
use chess_rts.Base.{
  ℕ, zero, suc, ◌+◌, Bool, true, false, Option, none, some, List, [], ◌∷◌, ◌++◌, if◌then◌else◌,
  ◌>>=◌, ◌==◌, update,
}
use chess_rts.Base.Int.{ℤ, pos, eqb_ℤ}
use chess_rts.State.{
  cmd_idle, cmd_rebuild_wsi, Floats, TenantMailbox, IpcMailbox, RenderThreadInit, Globals,
}
use chess_rts.Spin.{drain_wait}
use chess_rts.Tenant.{set_tenant}

pub data RebuildCall : Type 0 where
  queue_wait_idle : (queue : ℕ) → RebuildCall
  reset_command_pool : (device pool : ℕ) → RebuildCall

-- `if (handle) call`
abbrev pub if_set : ℕ → RebuildCall → List RebuildCall
if_set handle call = if handle == 0 then [] else call ∷ []

pub rebuild_calls : {fl : Floats} → ℕ → Globals fl → List RebuildCall
rebuild_calls w g =
    if wsi.device == 0
    then []
    else if_set wsi.queue (queue_wait_idle wsi.queue)
      ++ if_set wsi.transfer_queue (queue_wait_idle wsi.transfer_queue)
      ++ if_set (g.render_cmd_pools w) (reset_command_pool wsi.device (g.render_cmd_pools w))
      ++ if_set (g.transfer_cmd_pools w) (reset_command_pool wsi.device (g.transfer_cmd_pools w))
  where
    wsi : RenderThreadInit
    wsi = g.window_wsi w

abbrev pub stopped_tenant : {fl : Floats} → TenantMailbox fl → TenantMailbox fl
stopped_tenant t = record t { window_resized = pos 0; glfw_cmd = pos cmd_idle }

-- The stores once the wait is over, whatever its outcome.
unfoldable pub stop_window : {fl : Floats} → ℕ → Globals fl → Globals fl
stop_window w g = record g {
  wsi_state = update g.wsi_state w (pos 0);
  mailbox = set_tenant w stopped_tenant g.mailbox;
}

-- The body of the loop: `none` would be fuel that has run out in the wait.
pub rebuild_window :
    {fl : Floats} → (ℕ → Bool) → ℕ → Globals fl → Option (Globals fl × List RebuildCall)
rebuild_window busy w g =
    if eqb_ℤ (g.mailbox.tenants w).glfw_cmd (pos cmd_rebuild_wsi)
    then elim (drain_wait 4001 busy 0 2000 0) [
      | none ↦ none
      | some _ ↦ some (stop_window w g, rebuild_calls w g)
    ]
    else some (g, [])

-- The loop from window `w` on. `busy w` is what the wait for window `w` sees.
pub rebuild_windows :
    {fl : Floats} → ℕ → (ℕ → ℕ → Bool) → ℕ → Globals fl → Option (Globals fl × List RebuildCall)
rebuild_windows zero busy w g = some (g, [])
rebuild_windows (suc left) busy w g = do
  (g', calls) ← rebuild_window (busy w) w g
  (g'', more) ← rebuild_windows left busy (w + 1) g'
  some (g'', calls ++ more)
