-- ===== src/Tenant/Loop.antt =====
-- host/runtime/main_loop.c: what the main loop does for window `id` in one round. What GLFW and the
-- driver answer is an argument. The handle 0 stands for NULL; the calls that only set a new window
-- up are left out. They dereference the window: where `glfwCreateWindow` answers NULL, the source's
-- behaviour is undefined, and what `boot_window` gives then is not the code's.
pub mod Serve
pub mod Command
use chess_rts.Base.{
  ℕ, zero, suc, ◌+◌, Bool, true, false, ◌&&◌, not, Option, none, some, if◌then◌else◌, ltb, ◌==◌,
  update,
}
use chess_rts.Base.Int.{ℤ, pos, eqb_ℤ}
use chess_rts.State.{
  cmd_idle, cmd_boot_window, cmd_kill_window, Floats, TenantMailbox, IpcMailbox, Globals,
}
use chess_rts.Spin.{drain_wait}
use chess_rts.Tenant.{set_tenant}

-- The answers: the window that `glfwCreateWindow` makes for a width and a height, the size of its
-- framebuffer, the surface for an instance (`none` if the call fails), and whether a window is to
-- close. `busy k` is what poll `k` of a wait sees, `escape` the code of the escape key.
pub record Answers : Type 0 where
  pub create_window : ℤ → ℤ → ℕ
  pub framebuffer_size : ℕ → ℤ × ℤ
  pub create_surface : ℕ → ℕ → Option ℕ
  pub should_close : ℕ → Bool
  pub busy : ℕ → Bool
  pub escape : ℤ

-- The globals and the main loop's own array of windows.
pub record Main (fl : Floats) : Type 0 where
  pub globals : Globals fl
  pub windows : ℕ → ℕ

abbrev pub on_tenant :
    {fl : Floats} → ℕ → (TenantMailbox fl → TenantMailbox fl) → Globals fl → Globals fl
on_tenant id change g = record g { mailbox = set_tenant id change g.mailbox }

-- The new surface, if there is an instance and the call succeeds, or the old one.
pub new_surface : Answers → (instance_ new old : ℕ) → ℕ
new_surface a instance_ new old =
    if instance_ == 0
    then old
    else elim (a.create_surface instance_ new) [ none ↦ old | some surface ↦ surface ]

-- The stores of CMD_BOOT_WINDOW, given the new window.
unfoldable pub booted : {fl : Floats} → Answers → ℕ → TenantMailbox fl → TenantMailbox fl
booted a new t = record t {
  win_w = (a.framebuffer_size new).0;
  win_h = (a.framebuffer_size new).1;
  vk_surface = new_surface a t.vk_instance new t.vk_surface;
  glfw_cmd = pos cmd_idle;
}

unfoldable pub boot_window : {fl : Floats} → Answers → ℕ → Main fl → Main fl
boot_window {fl} a id m = record {
  globals = on_tenant id (booted a new) m.globals;
  windows = update m.windows id new;
}
  where
    t : TenantMailbox fl
    t = m.globals.mailbox.tenants id

    new : ℕ
    new = a.create_window t.glfw_arg_w t.glfw_arg_h

-- The stores of CMD_KILL_WINDOW. The outcome of the wait is not looked at.
unfoldable pub killed : {fl : Floats} → TenantMailbox fl → TenantMailbox fl
killed t = record t { vk_surface = 0; glfw_cmd = pos cmd_idle }

unfoldable pub kill_window : {fl : Floats} → ℕ → Main fl → Main fl
kill_window id m = record {
  globals =
      on_tenant id killed (record m.globals { wsi_state = update m.globals.wsi_state id (pos 0) });
  windows = update m.windows id 0;
}

-- The conditions of the two commands.
abbrev pub wants_boot : {fl : Floats} → ℕ → Main fl → Bool
wants_boot id m =
    eqb_ℤ (m.globals.mailbox.tenants id).glfw_cmd (pos cmd_boot_window) && m.windows id == 0

abbrev pub wants_kill : {fl : Floats} → ℕ → Main fl → Bool
wants_kill id m =
    eqb_ℤ (m.globals.mailbox.tenants id).glfw_cmd (pos cmd_kill_window) && not (m.windows id == 0)

-- The command. `none` would be fuel that has run out in the wait.
unfoldable pub serve_command : {fl : Floats} → Answers → ℕ → Main fl → Option (Main fl)
serve_command a id m =
    if wants_boot id m
    then some (boot_window a id m)
    else if wants_kill id m
    then elim (drain_wait 4001 a.busy 0 2000 0) [ none ↦ none | some _ ↦ some (kill_window id m) ]
    else some m

-- A window that is to close leaves the escape key.
unfoldable pub notice_close : {fl : Floats} → Answers → ℕ → Main fl → Main fl
notice_close {fl} a id m =
    if not (m.windows id == 0) && a.should_close (m.windows id)
    then record m {
      globals =
          on_tenant id (λ (t : TenantMailbox fl). record t { last_key_pressed = a.escape })
            m.globals;
    }
    else m

unfoldable pub main_round : {fl : Floats} → Answers → ℕ → Main fl → Option (Main fl)
main_round a id m = elim (serve_command a id m) [
  | none ↦ none
  | some served ↦ some (notice_close a id served)
]
