-- ===== src/Tenant/Loop/Command.antt =====
-- A command from the Lua thread to the main loop: `vx_sys_set_cmd`, then the round that serves it.
use chess_rts.Base.{ℕ, ◌<◌, ◌≡◌, update_self, lt→leb_false}
use chess_rts.Base.Int.{ℤ, pos}
use chess_rts.State.{max_windows, Floats}
use chess_rts.Tenant.{window}
use chess_rts.Tenant.Input.{vx_sys_set_cmd}
use chess_rts.Tenant.Loop.{Main}
use chess_rts.Tenant.Loop.Serve.{tenant}

-- The state once the Lua thread has set a command.
abbrev pub commanded : {fl : Floats} → (id : ℕ) → (cmd w h : ℤ) → Main fl → Main fl
commanded id cmd w h m = record m {
  globals = record m.globals { mailbox = vx_sys_set_cmd (pos id) cmd w h m.globals.mailbox };
}

tenant-commanded :
    {fl : Floats} (id : ℕ) (cmd w h : ℤ) (m : Main fl)
    → id < max_windows
    → tenant id (commanded id cmd w h m)
      ≡ record (tenant id m) { glfw_arg_w = w; glfw_arg_h = h; glfw_cmd = cmd }
unfolding vx_sys_set_cmd window
tenant-commanded id cmd w h m lt =
    rw (lt→leb_false id max_windows lt, vx_sys_set_cmd) (update_self m.globals.mailbox.tenants id _)
