-- ===== src/Boot/Pools.antt =====
-- render/tenant/vk_tenant_alloc.c: the command pools, command buffers and the fence of a window.
-- The handles that Vulkan creates are an argument, and the calls are listed in order.
pub mod Ledger
use chess_rts.Base.{
  ℕ, Bool, true, false, Option, none, some, List, [], ◌∷◌, ◌++◌, if◌then◌else◌, leb, ◌==◌, update,
}
use chess_rts.Base.Int.{ℤ, pos, negsuc}
use chess_rts.State.{max_windows, Floats, RenderThreadInit, Globals}

pub record NewHandles : Type 0 where
  pub render_pool : ℕ
  pub render_buffers : ℕ → ℕ
  pub transfer_pool : ℕ
  pub transfer_buffer : ℕ
  pub transfer_fence : ℕ

pub data AllocCall : Type 0 where
  create_command_pool : (device family pool : ℕ) → AllocCall
  allocate_command_buffers : (device pool count : ℕ) → AllocCall
  create_fence : (device fence : ℕ) → AllocCall

-- The render pool with its three buffers, unless the window has one.
pub allocate_render :
    {fl : Floats}
    → NewHandles
    → (wid device gfx_family : ℕ) → Globals fl
    → Globals fl × List AllocCall
allocate_render new wid device gfx_family g =
    if g.render_cmd_pools wid == 0
    then (
      record g {
        render_cmd_pools = update g.render_cmd_pools wid new.render_pool;
        render_cmd_buffers =
            update g.render_cmd_buffers wid
              (λ i. if leb 3 i then g.render_cmd_buffers wid i else new.render_buffers i);
      },
      create_command_pool device gfx_family new.render_pool
          ∷ allocate_command_buffers device new.render_pool 3
          ∷ [],
    )
    else (g, [])

-- The transfer pool with its buffer and its fence, unless the window has a transfer pool.
pub allocate_transfer :
    {fl : Floats}
    → NewHandles
    → (wid device transfer_family : ℕ) → Globals fl
    → Globals fl × List AllocCall
allocate_transfer new wid device transfer_family g =
    if g.transfer_cmd_pools wid == 0
    then (
      record g {
        transfer_cmd_pools = update g.transfer_cmd_pools wid new.transfer_pool;
        transfer_cmd_buffers = update g.transfer_cmd_buffers wid new.transfer_buffer;
        transfer_fences = update g.transfer_fences wid new.transfer_fence;
      },
      create_command_pool device transfer_family new.transfer_pool
          ∷ allocate_command_buffers device new.transfer_pool 1
          ∷ create_fence device new.transfer_fence
          ∷ [],
    )
    else (g, [])

-- Both, for a window in range.
pub allocate_for :
    {fl : Floats}
    → NewHandles
    → (wid device gfx_family transfer_family : ℕ) → Globals fl
    → Globals fl × List AllocCall
allocate_for new wid device gfx_family transfer_family g =
    let (g1, calls) = allocate_render new wid device gfx_family g in
    let (g2, more) = allocate_transfer new wid device transfer_family g1 in (g2, calls ++ more)

-- `wsi` is `none` for NULL.
pub vx_stream_allocate_tenant :
    {fl : Floats}
    → NewHandles
    → ℤ
    → Option RenderThreadInit
    → (gfx_family transfer_family : ℕ) → Globals fl
    → Globals fl × List AllocCall
vx_stream_allocate_tenant new (negsuc _) wsi gfx_family transfer_family g = (g, [])
vx_stream_allocate_tenant new (pos wid) none gfx_family transfer_family g = (g, [])
vx_stream_allocate_tenant new (pos wid) (some wsi) gfx_family transfer_family g =
    if leb max_windows wid
    then (g, [])
    else if wsi.device == 0
    then (g, [])
    else allocate_for new wid wsi.device gfx_family transfer_family g
