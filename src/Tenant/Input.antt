-- ===== src/Tenant/Input.antt =====
-- host/tenant/tenant_input.c and tenant_sys.c: the functions that the Lua thread calls. A read that
-- empties what it reads is an atomic exchange, and returns the new mailbox too.
use chess_rts.Base.{ℕ, ◌&&◌, none, some, if◌then◌else◌}
use chess_rts.Base.Int.{ℤ, pos, eqb_ℤ}
use chess_rts.State.{cmd_idle, Floats, TenantMailbox, IpcMailbox, Globals}
use chess_rts.Tenant.{window, set_tenant}

-- `if (win_id < 0 || win_id >= MAX_WINDOWS) return otherwise; return L(tenants[win_id].…);`
abbrev read_tenant {ℓ} :
    {A : Type ℓ} {fl : Floats} → A → (TenantMailbox fl → A) → ℤ → IpcMailbox fl → A
read_tenant otherwise field win_id m = elim (window win_id) [
  | none ↦ otherwise
  | some w ↦ field (m.tenants w)
]

pub vx_input_last_key : {fl : Floats} → ℤ → IpcMailbox fl → ℤ × IpcMailbox fl
vx_input_last_key win_id m = elim (window win_id) [
  | none ↦ (pos 0, m)
  | some w ↦ (
    (m.tenants w).last_key_pressed,
    set_tenant w (λ (t : TenantMailbox _). record t { last_key_pressed = pos 0 }) m,
  )
]

pub vx_input_get_active_window : {fl : Floats} → IpcMailbox fl → ℤ
vx_input_get_active_window m = m.active_window

pub vx_input_mouse_btn : {fl : Floats} → ℤ → ℤ → IpcMailbox fl → ℤ
vx_input_mouse_btn win_id btn m = elim (window win_id) [
  | none ↦ pos 0
  | some w ↦
      if eqb_ℤ btn (pos 0)
      then (m.tenants w).mouse_left
      else if eqb_ℤ btn (pos 1)
      then (m.tenants w).mouse_right
      else pos 0
]

pub vx_input_mouse_x : {fl : Floats} → ℤ → IpcMailbox fl → fl.Float
vx_input_mouse_x {fl} win_id m =
    read_tenant fl.float_zero (λ (t : TenantMailbox fl). t.mouse_x) win_id m

pub vx_input_mouse_y : {fl : Floats} → ℤ → IpcMailbox fl → fl.Float
vx_input_mouse_y {fl} win_id m =
    read_tenant fl.float_zero (λ (t : TenantMailbox fl). t.mouse_y) win_id m

pub vx_input_click_x : {fl : Floats} → ℤ → IpcMailbox fl → fl.Float
vx_input_click_x {fl} win_id m =
    read_tenant fl.float_minus_one (λ (t : TenantMailbox fl). t.click_x) win_id m

pub vx_input_click_y : {fl : Floats} → ℤ → IpcMailbox fl → fl.Float
vx_input_click_y {fl} win_id m =
    read_tenant fl.float_minus_one (λ (t : TenantMailbox fl). t.click_y) win_id m

pub vx_input_is_captured : {fl : Floats} → ℤ → IpcMailbox fl → ℤ
vx_input_is_captured {fl} win_id m =
    read_tenant (pos 0) (λ (t : TenantMailbox fl). t.mouse_captured) win_id m

pub vx_input_wasd : {fl : Floats} → ℤ → IpcMailbox fl → ℕ
vx_input_wasd {fl} win_id m = read_tenant 0 (λ (t : TenantMailbox fl). t.wasd_mask) win_id m

unfoldable pub vx_input_mouse_dx : {fl : Floats} → ℤ → IpcMailbox fl → fl.Float × IpcMailbox fl
vx_input_mouse_dx {fl} win_id m = elim (window win_id) [
  | none ↦ (fl.float_zero, m)
  | some w ↦ (
    (m.tenants w).mouse_dx,
    set_tenant w (λ (t : TenantMailbox fl). record t { mouse_dx = fl.float_zero }) m,
  )
]

unfoldable pub vx_input_mouse_dy : {fl : Floats} → ℤ → IpcMailbox fl → fl.Float × IpcMailbox fl
vx_input_mouse_dy {fl} win_id m = elim (window win_id) [
  | none ↦ (fl.float_zero, m)
  | some w ↦ (
    (m.tenants w).mouse_dy,
    set_tenant w (λ (t : TenantMailbox fl). record t { mouse_dy = fl.float_zero }) m,
  )
]

pub vx_input_spacebar : {fl : Floats} → ℤ → IpcMailbox fl → ℤ
vx_input_spacebar {fl} win_id m =
    read_tenant (pos 0) (λ (t : TenantMailbox fl). t.key_space) win_id m

unfoldable pub vx_sys_is_tenant_idle : {fl : Floats} → ℤ → Globals fl → ℤ
vx_sys_is_tenant_idle win_id g = elim (window win_id) [
  | none ↦ pos 1
  | some w ↦
      if eqb_ℤ (g.render_busy w) (pos 0) && eqb_ℤ (g.mailbox.tenants w).glfw_cmd (pos cmd_idle)
      then pos 1
      else pos 0
]

pub vx_sys_get_resize_state : {fl : Floats} → ℤ → IpcMailbox fl → ℤ
vx_sys_get_resize_state {fl} win_id m =
    read_tenant (pos 0) (λ (t : TenantMailbox fl). t.window_resized) win_id m

pub vx_sys_publish_instance : {fl : Floats} → ℤ → ℕ → IpcMailbox fl → IpcMailbox fl
vx_sys_publish_instance {fl} win_id instance_ m = elim (window win_id) [
  | none ↦ m
  | some w ↦ set_tenant w (λ (t : TenantMailbox fl). record t { vk_instance = instance_ }) m
]

pub vx_sys_get_surface : {fl : Floats} → ℤ → IpcMailbox fl → ℕ
vx_sys_get_surface {fl} win_id m = read_tenant 0 (λ (t : TenantMailbox fl). t.vk_surface) win_id m

unfoldable pub vx_sys_set_cmd : {fl : Floats} → (win_id cmd w h : ℤ) → IpcMailbox fl → IpcMailbox fl
vx_sys_set_cmd {fl} win_id cmd w h m = elim (window win_id) [
  | none ↦ m
  | some id ↦
      set_tenant id
        (λ (t : TenantMailbox fl). record t { glfw_arg_w = w; glfw_arg_h = h; glfw_cmd = cmd }) m
]

pub vx_sys_window_size : {fl : Floats} → ℤ → IpcMailbox fl → ℤ × ℤ
vx_sys_window_size win_id m = elim (window win_id) [
  | none ↦ (pos 0, pos 0)
  | some w ↦ ((m.tenants w).win_w, (m.tenants w).win_h)
]
