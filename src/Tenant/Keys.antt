-- ===== src/Tenant/Keys.antt =====
-- host/tenant/tenant_callbacks_key.c and tenant_callbacks_state.c: the key callback and the
-- framebuffer callback. The codes of GLFW's keys are a parameter, as are the window's place, its
-- size and the video mode that GLFW answers with; the calls made of GLFW are listed in order. Only
-- the main thread stores the mask of held keys, so its exchange loop ends with the new mask.
pub mod Held
use chess_rts.Base.{
  ℕ, bit_and, bit_or, Bool, true, false, ◌&&◌, not, Option, none, some, List, [], ◌∷◌, ◌++◌,
  if◌then◌else◌, ◌==◌, ◌||◌, update,
}
use chess_rts.Base.Int.{ℤ, pos, eqb_ℤ}
use chess_rts.Base.Bits.{bit_not}
use chess_rts.State.{Floats, TenantMailbox, IpcMailbox}
use chess_rts.Tenant.{window, set_tenant}

-- The keys that the callback names, and the others.
pub data Key : Type 0 where
  key_w : Key
  key_s : Key
  key_a : Key
  key_d : Key
  key_e : Key
  key_q : Key
  key_escape : Key
  key_space : Key
  key_f11 : Key
  key_f10 : Key
  key_1 : Key
  key_2 : Key
  key_3 : Key
  key_4 : Key
  key_f5 : Key
  key_enter : Key
  key_kp_enter : Key
  key_other : (code : ℤ) → Key

pub data Action : Type 0 where
  press : Action
  release : Action
  repeat : Action

-- The state that only the callbacks use.
pub record Callbacks (fl : Floats) : Type 0 where
  pub is_fullscreen : ℕ → Bool
  pub win_x : ℕ → ℤ
  pub win_y : ℕ → ℤ
  pub win_w : ℕ → ℤ
  pub win_h : ℕ → ℤ
  pub last_mx : ℕ → fl.Double
  pub last_my : ℕ → fl.Double
  pub first_mouse : ℕ → Bool

pub record Host (fl : Floats) : Type 0 where
  pub mailbox : IpcMailbox fl
  pub callbacks : Callbacks fl

-- What GLFW knows: the key codes, the window's place and size, and the monitor's video mode.
pub record Glfw : Type 0 where
  pub code : Key → ℤ
  pub window_pos : ℤ × ℤ
  pub window_size : ℤ × ℤ
  pub mode_width : ℤ
  pub mode_height : ℤ
  pub refresh_rate : ℤ

pub data GlfwCall : Type 0 where
  set_fullscreen : (width height refresh_rate : ℤ) → GlfwCall
  set_windowed : (x y width height : ℤ) → GlfwCall
  set_cursor_captured : GlfwCall
  set_cursor_normal : GlfwCall
  dump_ring_state : (win_id : ℕ) → GlfwCall

-- `bit`
abbrev pub key_bit : Key → ℕ
key_bit key_w = 1
key_bit key_s = 2
key_bit key_a = 4
key_bit key_d = 8
key_bit key_e = 16
key_bit key_q = 32
key_bit _ = 0

pub mask_after : Key → Action → ℕ → ℕ
mask_after key press mask = if key_bit key == 0 then mask else bit_or mask (key_bit key)
mask_after key release mask =
    if key_bit key == 0 then mask else bit_and mask (bit_not 32 (key_bit key))
mask_after key repeat mask = mask

-- Whether a press of the key is left in `last_key_pressed`.
abbrev pub is_remembered : Key → Bool
is_remembered key_escape = true
is_remembered key_1 = true
is_remembered key_2 = true
is_remembered key_3 = true
is_remembered key_4 = true
is_remembered key_f5 = true
is_remembered key_enter = true
is_remembered key_kp_enter = true
is_remembered _ = false

abbrev pub last_key_after : (Key → ℤ) → Key → Action → ℤ → ℤ
last_key_after code key press last = if is_remembered key then code key else last
last_key_after code key _ last = last

abbrev pub space_after : Key → Action → ℤ → ℤ
space_after key_space release _ = pos 0
space_after key_space _ _ = pos 1
space_after _ _ held = held

-- `!is_cap`, when F10 is pressed.
abbrev pub captured_after : Key → Action → ℤ → ℤ
captured_after key_f10 press is_cap = if eqb_ℤ is_cap (pos 0) then pos 1 else pos 0
captured_after _ _ is_cap = is_cap

-- All stores into the window's mailbox.
pub key_tenant : {fl : Floats} → Glfw → Key → Action → TenantMailbox fl → TenantMailbox fl
key_tenant glfw key action t = record t {
  wasd_mask = mask_after key action t.wasd_mask;
  last_key_pressed = last_key_after glfw.code key action t.last_key_pressed;
  key_space = space_after key action t.key_space;
  mouse_captured = captured_after key action t.mouse_captured;
}

-- F11: the state of the callbacks and the call.
pub toggle_fullscreen : {fl : Floats} → Glfw → ℕ → Callbacks fl → Callbacks fl × List GlfwCall
toggle_fullscreen glfw id c =
    if c.is_fullscreen id
    then (
      record c { is_fullscreen = update c.is_fullscreen id false },
      set_windowed (c.win_x id) (c.win_y id) (c.win_w id) (c.win_h id) ∷ [],
    )
    else (
      record c {
        is_fullscreen = update c.is_fullscreen id true;
        win_x = update c.win_x id glfw.window_pos.0;
        win_y = update c.win_y id glfw.window_pos.1;
        win_w = update c.win_w id glfw.window_size.0;
        win_h = update c.win_h id glfw.window_size.1;
      },
      set_fullscreen glfw.mode_width glfw.mode_height glfw.refresh_rate ∷ [],
    )

-- What a key does beside its stores into the mailbox. `captured` is the value after the toggle.
pub key_effect :
    {fl : Floats}
    → Glfw
    → ℕ
    → (captured : ℤ) → Key
    → Action
    → Callbacks fl
    → Callbacks fl × List GlfwCall
key_effect glfw id captured key_f11 press c = toggle_fullscreen glfw id c
key_effect glfw id captured key_f10 press c =
    (c, (if eqb_ℤ captured (pos 0) then set_cursor_normal else set_cursor_captured) ∷ [])
key_effect glfw id captured key_f5 press c =
    (c, dump_ring_state 0 ∷ dump_ring_state 1 ∷ dump_ring_state 2 ∷ dump_ring_state 3 ∷ [])
key_effect glfw id captured _ _ c = (c, [])

-- The callback for a window in range, or for none.
pub key_on : {fl : Floats} → Glfw → Option ℕ → Key → Action → Host fl → Host fl × List GlfwCall
key_on glfw none key action h = (h, [])
key_on {fl} glfw (some w) key action h =
    let t : TenantMailbox fl = key_tenant glfw key action (h.mailbox.tenants w) in
    let (c, calls) = key_effect glfw w t.mouse_captured key action h.callbacks in
    (
      record {
        mailbox =
            set_tenant w (key_tenant glfw key action) (record h.mailbox { active_window = pos w });
        callbacks = c;
      },
      calls,
    )

-- `id` is the window's user pointer.
pub glfw_key_callback :
    {fl : Floats} → Glfw → (id : ℤ) → Key → Action → Host fl → Host fl × List GlfwCall
glfw_key_callback glfw id key action h = key_on glfw (window id) key action h

pub glfw_framebuffer_size_callback :
    {fl : Floats} → (id width height : ℤ) → IpcMailbox fl → IpcMailbox fl
glfw_framebuffer_size_callback {fl} id width height m =
    if eqb_ℤ width (pos 0) || eqb_ℤ height (pos 0) then m else elim (window id) [
      | none ↦ m
      | some w ↦
          set_tenant w
            (λ (t : TenantMailbox fl). record t {
              win_w = width;
              win_h = height;
              window_resized = pos 1;
            })
            m
    ]
