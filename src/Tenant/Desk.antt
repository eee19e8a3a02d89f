-- ===== src/Tenant/Desk.antt =====
-- The command word of a window between three threads: the Lua thread sets it (`vx_sys_set_cmd` of
-- host/tenant/tenant_sys.c, with or without a look at
-- `vx_sys_is_tenant_idle`), the main loop carries out
-- CMD_BOOT_WINDOW and CMD_KILL_WINDOW (host/runtime/main_loop.c) and the render thread CMD_REBUILD_WSI
-- (render/gpu/vk_render_loop.c). The accesses to the command and its two arguments are steps of their own.
pub mod Invariant
pub mod Row
pub mod Once
pub mod Lost
use chess_rts.Base.{ℕ, ◌≡◌, ◌++◌, List, [], ◌∷◌, Bool, true, false, update, ◌<◌}
use chess_rts.Base.Int.{ℤ, pos, eqb_ℤ}
use chess_rts.State.{
  cmd_idle, cmd_boot_window, cmd_kill_window, cmd_rebuild_wsi, Floats, TenantMailbox, Globals,
}
use chess_rts.Render.Rebuild.{stop_window}
use chess_rts.Tenant.Input.{vx_sys_is_tenant_idle}
use chess_rts.Tenant.Loop.{Answers, Main, on_tenant, booted, kill_window, wants_boot, wants_kill}

-- What the Lua thread asks for.
pub data Request : Type 0 where
  boot : (w h : ℤ) → Request
  kill : Request
  rebuild : Request

-- The arguments of `vx_sys_set_cmd`.
abbrev pub code : Request → ℤ
code (boot w h) = pos cmd_boot_window
code kill = pos cmd_kill_window
code rebuild = pos cmd_rebuild_wsi

abbrev pub width : Request → ℤ
width (boot w h) = w
width kill = pos 0
width rebuild = pos 0

abbrev pub height : Request → ℤ
height (boot w h) = h
height kill = pos 0
height rebuild = pos 0

-- `cleared` is about to store; the others are between the stores of a call.
pub data LuaAt : Type 0 where
  resting : LuaAt
  cleared : LuaAt
  stored_w : Request → LuaAt
  stored_h : Request → LuaAt

-- What the main loop has loaded of a command that it carries out.
pub data MainAt : Type 0 where
  polling : MainAt
  booting : MainAt
  loaded_w : (w : ℤ) → MainAt
  creating : (w h : ℤ) → MainAt
  killing : MainAt

pub data RebuildAt : Type 0 where
  elsewhere : RebuildAt
  rebuilding : RebuildAt

-- The state, with what was asked for and what was carried out so far.
pub record Desk (fl : Floats) : Type 0 where
  pub core : Main fl
  pub lua : LuaAt
  pub main : MainAt
  pub render : RebuildAt
  pub issued : List Request
  pub served : List Request

abbrev pub tenant : {fl : Floats} → ℕ → Main fl → TenantMailbox fl
tenant id m = m.globals.mailbox.tenants id

-- A store into the window's mailbox.
abbrev pub store : {fl : Floats} → ℕ → (TenantMailbox fl → TenantMailbox fl) → Main fl → Main fl
store id change m = record m { globals = on_tenant id change m.globals }

abbrev pub boot_core : {fl : Floats} → Answers → ℕ → (w h : ℤ) → Main fl → Main fl
boot_core a id w h m = record {
  globals = on_tenant id (booted a (a.create_window w h)) m.globals;
  windows = update m.windows id (a.create_window w h);
}

-- What all else leaves: nobody else stores a command or its arguments.
pub record KeepsCommand {fl : Floats} (id : ℕ) (m m' : Main fl) : Type 0 where
  pub cmd : (tenant id m').glfw_cmd ≡ (tenant id m).glfw_cmd
  pub arg_w : (tenant id m').glfw_arg_w ≡ (tenant id m).glfw_arg_w
  pub arg_h : (tenant id m').glfw_arg_h ≡ (tenant id m).glfw_arg_h

-- Where `asks` is true, the Lua thread stores a command only when `vx_sys_is_tenant_idle` has
-- answered 1 since its last one.
pub data DeskStep {fl : Floats} (asks : Bool) (id : ℕ) (s : Desk fl) : Desk fl → Type 0 where
  look :
      s.lua ≡ resting
      → (asks ≡ true → vx_sys_is_tenant_idle (pos id) s.core.globals ≡ pos 1)
      → DeskStep asks id s (record s { lua = cleared })
  put_w :
      (r : Request)
      → s.lua ≡ cleared
      → DeskStep asks id s (record s {
        core = store id (λ t. record t { glfw_arg_w = width r }) s.core;
        lua = stored_w r;
      })
  put_h :
      {r : Request}
      → s.lua ≡ stored_w r
      → DeskStep asks id s (record s {
        core = store id (λ t. record t { glfw_arg_h = height r }) s.core;
        lua = stored_h r;
      })
  put_cmd :
      {r : Request}
      → s.lua ≡ stored_h r
      → DeskStep asks id s (record s {
        core = store id (λ t. record t { glfw_cmd = code r }) s.core;
        lua = resting;
        issued = s.issued ++ r ∷ [];
      })
  see_boot :
      s.main ≡ polling
      → wants_boot id s.core ≡ true
      → DeskStep asks id s (record s { main = booting })
  get_w :
      s.main ≡ booting
      → DeskStep asks id s (record s { main = loaded_w (tenant id s.core).glfw_arg_w })
  get_h :
      {w : ℤ}
      → s.main ≡ loaded_w w
      → DeskStep asks id s (record s { main = creating w (tenant id s.core).glfw_arg_h })
  create :
      {w h : ℤ} (a : Answers)
      → s.main ≡ creating w h
      → DeskStep asks id s (record s {
        core = boot_core a id w h s.core;
        main = polling;
        served = s.served ++ boot w h ∷ [];
      })
  see_kill :
      s.main ≡ polling
      → wants_kill id s.core ≡ true
      → DeskStep asks id s (record s { main = killing })
  destroy :
      s.main ≡ killing
      → DeskStep asks id s (record s {
        core = kill_window id s.core;
        main = polling;
        served = s.served ++ kill ∷ [];
      })
  see_rebuild :
      s.render ≡ elsewhere
      → eqb_ℤ (tenant id s.core).glfw_cmd (pos cmd_rebuild_wsi) ≡ true
      → DeskStep asks id s (record s { render = rebuilding })
  stop :
      s.render ≡ rebuilding
      → DeskStep asks id s (record s {
        core = record (s.core) { globals = stop_window id s.core.globals };
        render = elsewhere;
        served = s.served ++ rebuild ∷ [];
      })
  others : (m : Main fl) → KeepsCommand id s.core m → DeskStep asks id s (record s { core = m })

pub data DeskReach {fl : Floats} (asks : Bool) (id : ℕ) : Desk fl → Type 0 where
  start :
      {m : Main fl}
      → (tenant id m).glfw_cmd ≡ pos cmd_idle
      → DeskReach asks id (record {
        core = m;
        lua = resting;
        main = polling;
        render = elsewhere;
        issued = [];
        served = [];
      })
  later : {s t : Desk fl} → DeskReach asks id s → DeskStep asks id s t → DeskReach asks id t
