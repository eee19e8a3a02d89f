-- ===== src/Tenant/Mouse.antt =====
-- host/tenant/tenant_callbacks_mouse.c: the cursor and the button callbacks. `narrow` is the cast of
-- a double to a float. Where GLFW says that the cursor is, is an argument. An exchange loop on a
-- motion sum ends with the sum stored, since no other thread stores it but to empty it.
pub mod Motion
use chess_rts.Base.{ℕ, Bool, true, false, Option, none, some, List, if◌then◌else◌, update}
use chess_rts.Base.Int.{ℤ, pos}
use chess_rts.State.{Floats, TenantMailbox, IpcMailbox}
use chess_rts.Tenant.{window, set_tenant}
use chess_rts.Tenant.Keys.{Callbacks, Host, Action, press}

-- The last position, which is this one for the first event of the window.
abbrev pub last_position : {A : Type 0} → Bool → (now last : A) → A
last_position first now last = if first then now else last

-- All stores into the window's mailbox, given the last position.
pub cursor_tenant :
    {fl : Floats} → (last_x last_y xpos ypos : fl.Double) → TenantMailbox fl → TenantMailbox fl
cursor_tenant {fl} last_x last_y xpos ypos t = record t {
  mouse_x = fl.narrow xpos;
  mouse_y = fl.narrow ypos;
  mouse_dx = fl.add t.mouse_dx (fl.narrow (fl.sub xpos last_x));
  mouse_dy = fl.add t.mouse_dy (fl.narrow (fl.sub ypos last_y));
}

-- The callback for a window in range, or for none.
pub cursor_on : {fl : Floats} → Option ℕ → (xpos ypos : fl.Double) → Host fl → Host fl
cursor_on none xpos ypos h = h
cursor_on {fl} (some w) xpos ypos h = record {
  mailbox =
      set_tenant w
        (cursor_tenant (last_position (c.first_mouse w) xpos (c.last_mx w))
          (last_position (c.first_mouse w) ypos (c.last_my w)) xpos ypos)
        h.mailbox;
  callbacks = record c {
    last_mx = update c.last_mx w xpos;
    last_my = update c.last_my w ypos;
    first_mouse = update c.first_mouse w false;
  };
}
  where
    c : Callbacks fl
    c = h.callbacks

pub glfw_cursor_callback : {fl : Floats} → (id : ℤ) → (xpos ypos : fl.Double) → Host fl → Host fl
glfw_cursor_callback id xpos ypos h = cursor_on (window id) xpos ypos h

pub data Button : Type 0 where
  button_left : Button
  button_right : Button
  button_other : Button

-- `GLFW_PRESS`, or any other action.
abbrev pub is_press : Action → Bool
is_press press = true
is_press _ = false

-- The stores into the window's mailbox, with the cursor's place that GLFW answers with.
pub button_tenant :
    {fl : Floats} → (cx cy : fl.Double) → Button → Action → TenantMailbox fl → TenantMailbox fl
button_tenant {fl} cx cy button_left action t =
    if is_press action
    then record t { click_x = fl.narrow cx; click_y = fl.narrow cy; mouse_left = pos 1 }
    else record t { mouse_left = pos 0 }
button_tenant cx cy button_right action t = record t {
  mouse_right = (if is_press action then pos 1 else pos 0);
}
button_tenant cx cy button_other action t = t

pub glfw_mouse_button_callback :
    {fl : Floats} → (cx cy : fl.Double) → (id : ℤ) → Button → Action → IpcMailbox fl → IpcMailbox fl
glfw_mouse_button_callback cx cy id button action m = elim (window id) [
  | none ↦ m
  | some w ↦
      set_tenant w (button_tenant cx cy button action)
        (if is_press action then record m { active_window = pos w } else m)
]
