-- ===== src/Boot/Pools/Ledger.antt =====
-- The handles of a window, from their creation to their destruction.
use mathlib.Core.Path.{subst}
use mathlib.Core.List.{append_assoc}
use chess_rts.Base.{
  Bool, true, ℕ, ◌<◌, ◌≡◌, ◌≢◌, refl, sym, ap, ◌∙◌, some, List, [], ◌∷◌, ◌++◌, ◌==◌, update_self,
  lt→leb_false, ne→==_false,
}
use chess_rts.Base.Int.{pos}
use chess_rts.State.{max_windows, Floats, RenderThreadInit, Globals}
use chess_rts.Spin.{init_wait}
use chess_rts.Boot.{
  set_wsi, restart, after_wait, vx_stream_init, KillCall, device_wait_idle, destroy_command_pool,
  destroy_fence, purge_window,
}
use chess_rts.Boot.Pools.{
  NewHandles, AllocCall, create_command_pool, allocate_command_buffers, create_fence,
  allocate_render, allocate_transfer, allocate_for, vx_stream_allocate_tenant,
}

-- A handle with the device that it belongs to.
pub data Handle : Type 0 where
  command_pool : (device pool : ℕ) → Handle
  fence : (device fence : ℕ) → Handle

abbrev pub created_by : AllocCall → List Handle
created_by (create_command_pool device _ pool) = command_pool device pool ∷ []
created_by (allocate_command_buffers _ _ _) = []
created_by (create_fence device f) = fence device f ∷ []

pub created : List AllocCall → List Handle
created [] = []
created (call ∷ calls) = created_by call ++ created calls

abbrev pub destroyed_by : KillCall → List Handle
destroyed_by (device_wait_idle _) = []
destroyed_by (destroy_command_pool device pool) = command_pool device pool ∷ []
destroyed_by (destroy_fence device f) = fence device f ∷ []

unfoldable pub destroyed : List KillCall → List Handle
destroyed [] = []
destroyed (call ∷ calls) = destroyed_by call ++ destroyed calls

pub destroyed-append : (xs ys : List KillCall) → destroyed (xs ++ ys) ≡ destroyed xs ++ destroyed ys
unfolding destroyed
destroyed-append [] ys = refl
destroyed-append (x ∷ xs) ys =
    ap (λ hs. destroyed_by x ++ hs) (destroyed-append xs ys)
    ∙ sym (append_assoc (destroyed_by x) (destroyed xs) (destroyed ys))

-- The handles that Vulkan creates are not NULL.
pub record AreHandles (new : NewHandles) : Type 0 where
  pub render_pool : new.render_pool ≢ 0
  pub transfer_pool : new.transfer_pool ≢ 0
  pub fence : new.transfer_fence ≢ 0

-- The window has these pools and this fence.
pub record Owns {fl : Floats} (w : ℕ) (g : Globals fl) (render_pool transfer_pool fence : ℕ)
    : Type 0 where
  pub render : g.render_cmd_pools w ≡ render_pool
  pub transfer : g.transfer_cmd_pools w ≡ transfer_pool
  pub signal : g.transfer_fences w ≡ fence

all_handles : ℕ → NewHandles → List Handle
all_handles device new =
    command_pool device new.render_pool
    ∷ command_pool device new.transfer_pool
    ∷ fence device new.transfer_fence
    ∷ []

allocated :
    {fl : Floats} (new : NewHandles) (w device gfx transfer : ℕ) (g : Globals fl)
    → Owns w g 0 0 0
    → let r = allocate_for new w device gfx transfer g in
      (created r.1 ≡ all_handles device new)
      × Owns w r.0 new.render_pool new.transfer_pool new.transfer_fence
      × (r.0.window_wsi ≡ g.window_wsi)
unfolding allocate_for allocate_render allocate_transfer created all_handles
allocated new w device gfx transfer g h =
    rw (ap (λ p. p == 0) h.render, ap (λ p. p == 0) h.transfer)
      (
        refl,
        record {
          render = update_self g.render_cmd_pools w new.render_pool;
          transfer = update_self g.transfer_cmd_pools w new.transfer_pool;
          signal = update_self g.transfer_fences w new.transfer_fence;
        },
        refl,
      )

purged :
    {fl : Floats} (new : NewHandles) (w device : ℕ) (g : Globals fl)
    → AreHandles new
    → (g.window_wsi w).device ≡ device
    → device ≢ 0
    → Owns w g new.render_pool new.transfer_pool new.transfer_fence
    → destroyed (purge_window w g).1 ≡ all_handles device new
unfolding purge_window destroyed all_handles
purged new w device g are same real h =
    rw
      (
        same,
        h.render,
        h.transfer,
        h.signal,
        ne→==_false device 0 real,
        ne→==_false new.render_pool 0 are.render_pool,
        ne→==_false new.transfer_pool 0 are.transfer_pool,
        ne→==_false new.transfer_fence 0 are.fence,
      )
      refl

again :
    {fl : Floats} (new next : NewHandles) (w device gfx transfer : ℕ) (g : Globals fl)
    → AreHandles new
    → Owns w g new.render_pool new.transfer_pool new.transfer_fence
    → (allocate_for next w device gfx transfer g).1 ≡ []
unfolding allocate_for allocate_render allocate_transfer
again new next w device gfx transfer g are h =
    rw
      (
        ap (λ p. p == 0) h.render ∙ ne→==_false _ 0 are.render_pool,
        ap (λ p. p == 0) h.transfer ∙ ne→==_false _ 0 are.transfer_pool,
      )
      refl

allocate_tenant_open :
    {fl : Floats} (new : NewHandles) (w : ℕ) (wsi : RenderThreadInit) (gfx transfer : ℕ)
    (g : Globals fl)
    → w < max_windows
    → wsi.device ≢ 0
    → vx_stream_allocate_tenant new (pos w) (some wsi) gfx transfer g
      ≡ allocate_for new w wsi.device gfx transfer g
unfolding vx_stream_allocate_tenant
allocate_tenant_open new w wsi gfx transfer g lt real =
    rw (lt→leb_false w max_windows lt, ne→==_false wsi.device 0 real) refl

-- The order of the Lua side: the allocation, and then `vx_stream_init` with the same handles.
pub started :
    {fl : Floats} (busy : ℕ → Bool) (w : ℕ) (wsi : RenderThreadInit) (g : Globals fl)
    → w < max_windows
    → init_wait 4000 busy 0 2000 0 ≡ some true
    → vx_stream_init busy (pos w) wsi g ≡ some (restart w wsi (set_wsi w (pos 0) g))
unfolding vx_stream_init after_wait
started busy w wsi g lt clear = rw (lt→leb_false w max_windows lt, clear) refl

-- For a window in range that has no pools and no fence yet, as at the first start of a tenant, and where
-- Vulkan creates real handles: after the allocation and a `vx_stream_init` with the same handles whose
-- wait sees both flags clear, the part of `vx_thread_kill` for this window destroys exactly the
-- handles that the allocation has created, on the same device, and a second allocation for the
-- device creates none.
pub allocate_tenant-purged :
    {fl : Floats} (new next : NewHandles) (busy : ℕ → Bool) (w : ℕ) (wsi : RenderThreadInit)
    (gfx transfer : ℕ) (g : Globals fl)
    → w < max_windows
    → wsi.device ≢ 0
    → AreHandles new
    → Owns w g 0 0 0
    → init_wait 4000 busy 0 2000 0 ≡ some true
    → let r = vx_stream_allocate_tenant new (pos w) (some wsi) gfx transfer g in
      (g' : Globals fl) × (vx_stream_init busy (pos w) wsi r.0 ≡ some g')
      × (destroyed (purge_window w g').1 ≡ created r.1)
      × ((vx_stream_allocate_tenant next (pos w) (some wsi) gfx transfer g').1 ≡ [])
unfolding restart
allocate_tenant-purged {fl} new next busy w wsi gfx transfer g lt real are none_yet clear =
    let r = allocate_for new w wsi.device gfx transfer g in
    let g' = restart w wsi (set_wsi w (pos 0) r.0) in
    let (made, owns, kept) = allocated new w wsi.device gfx transfer g none_yet in
    let owns' : Owns w g' new.render_pool new.transfer_pool new.transfer_fence = record {
      render = owns.render;
      transfer = owns.transfer;
      signal = owns.signal;
    } in
    subst
      (λ (x : Globals fl × List AllocCall).
        (g' : Globals fl) × (vx_stream_init busy (pos w) wsi x.0 ≡ some g')
        × (destroyed (purge_window w g').1 ≡ created x.1)
        × ((vx_stream_allocate_tenant next (pos w) (some wsi) gfx transfer g').1 ≡ []))
      (sym (allocate_tenant_open new w wsi gfx transfer g lt real))
      (
        g',
        started busy w wsi r.0 lt clear,
        purged new w wsi.device g' are
              (ap (λ (h : RenderThreadInit). h.device) (update_self r.0.window_wsi w wsi)) real
              owns'
            ∙ sym made,
        ap (λ (x : Globals fl × List AllocCall). x.1)
              (allocate_tenant_open next w wsi gfx transfer g' lt real)
            ∙ again new next w wsi.device gfx transfer g' are owns',
      )
