-- ===== src/Tenant/Desk/Invariant.antt =====
-- What holds of a window's command between any two steps of the three threads: it is idle and all is
-- done, or it stands for the one request that is still to be carried out.
use mathlib.Core.Path.{subst}
use chess_rts.Base.{
  suc, some, ℕ, ◌≡◌, refl, sym, ap, ◌∙◌, ◌⊎◌, ◌++◌, [], ◌∷◌, Bool, true, false, ◌&&◌, update_self,
  ◌<◌, arith, lt→leb_false, if◌then◌else◌,
}
use chess_rts.Base.Int.{ℤ, pos, eqb_ℤ, eqb_ℤ→eq}
use chess_rts.State.{
  max_windows, cmd_idle, cmd_boot_window, cmd_kill_window, cmd_rebuild_wsi, Floats, TenantMailbox,
  Globals,
}
use chess_rts.Tenant.{window}
use chess_rts.Tenant.Input.{vx_sys_is_tenant_idle}
use chess_rts.Tenant.Loop.{Main}
use chess_rts.Tenant.Desk.{
  Request, boot, kill, rebuild, code, width, height, LuaAt, resting, cleared, stored_w, stored_h,
  MainAt, polling, booting, loaded_w, creating, killing, RebuildAt, elsewhere, rebuilding, Desk,
  tenant, store, KeepsCommand,
}

-- The arguments that the Lua thread has stored.
abbrev pub ArgsFit : LuaAt → (w h : ℤ) → Type 0
ArgsFit resting w h = Unit
ArgsFit cleared w h = Unit
ArgsFit (stored_w r) w h = w ≡ width r
ArgsFit (stored_h r) w h = (w ≡ width r) × (h ≡ height r)

-- What the main loop and the render thread may be doing while a command is open.
abbrev pub MainFits : MainAt → Request → Type 0
MainFits polling r = Unit
MainFits booting r = (w h : ℤ) × (r ≡ boot w h)
MainFits (loaded_w w) r = (h : ℤ) × (r ≡ boot w h)
MainFits (creating w h) r = r ≡ boot w h
MainFits killing r = r ≡ kill

abbrev pub RenderFits : RebuildAt → Request → Type 0
RenderFits elsewhere r = Unit
RenderFits rebuilding r = r ≡ rebuild

pub record Quiet {fl : Floats} (id : ℕ) (s : Desk fl) : Type 0 where
  pub cmd : (tenant id s.core).glfw_cmd ≡ pos cmd_idle
  pub main : s.main ≡ polling
  pub render : s.render ≡ elsewhere
  pub level : s.issued ≡ s.served
  pub args : ArgsFit s.lua (tenant id s.core).glfw_arg_w (tenant id s.core).glfw_arg_h

pub record Open {fl : Floats} (id : ℕ) (r : Request) (s : Desk fl) : Type 0 where
  pub cmd : (tenant id s.core).glfw_cmd ≡ code r
  pub arg_w : (tenant id s.core).glfw_arg_w ≡ width r
  pub arg_h : (tenant id s.core).glfw_arg_h ≡ height r
  pub lua : s.lua ≡ resting
  pub ahead : s.issued ≡ s.served ++ r ∷ []
  pub main : MainFits s.main r
  pub render : RenderFits s.render r

abbrev pub Holds : {fl : Floats} → ℕ → Desk fl → Type 0
Holds id s = Quiet id s ⊎ ((r : Request) × Open id r s)

pub tenant-store :
    {fl : Floats} (id : ℕ) (change : TenantMailbox fl → TenantMailbox fl) (m : Main fl)
    → tenant id (store id change m) ≡ change (tenant id m)
tenant-store id change m = update_self m.globals.mailbox.tenants id (change (tenant id m))

second : (a b : Bool) → (if a && b then pos 1 else pos 0) ≡ pos 1 → b ≡ true
second true true e = refl
second true false e = absurd (ground arith)
second false b e = absurd (ground arith)

window_in : (id : ℕ) → id < max_windows → window (pos id) ≡ some id
unfolding window
window_in id lt = rw (lt→leb_false id max_windows lt)

pub idle→cmd :
    {fl : Floats} (id : ℕ) (g : Globals fl)
    → id < max_windows
    → vx_sys_is_tenant_idle (pos id) g ≡ pos 1
    → (g.mailbox.tenants id).glfw_cmd ≡ pos cmd_idle
unfolding vx_sys_is_tenant_idle
idle→cmd id g lt e = eqb_ℤ→eq _ (pos cmd_idle) (
    second (eqb_ℤ (g.render_busy id) (pos 0)) (eqb_ℤ (g.mailbox.tenants id).glfw_cmd (pos cmd_idle))
      (rw (window_in id lt, vx_sys_is_tenant_idle) at e))

pub not_idle : (r : Request) → code r ≡ pos cmd_idle → ⊥
not_idle (boot w h) e = absurd (ground arith)
not_idle kill e = absurd (ground arith)
not_idle rebuild e = absurd (ground arith)

pub code_boot :
    (r : Request) → eqb_ℤ (code r) (pos cmd_boot_window) ≡ true → (w h : ℤ) × (r ≡ boot w h)
code_boot (boot w h) e = (w, h, refl)
code_boot kill e = absurd (cc e)
code_boot rebuild e = absurd (cc e)

pub code_kill : (r : Request) → eqb_ℤ (code r) (pos cmd_kill_window) ≡ true → r ≡ kill
code_kill (boot w h) e = absurd (cc e)
code_kill kill e = refl
code_kill rebuild e = absurd (cc e)

pub code_rebuild : (r : Request) → eqb_ℤ (code r) (pos cmd_rebuild_wsi) ≡ true → r ≡ rebuild
code_rebuild (boot w h) e = absurd (cc e)
code_rebuild kill e = absurd (cc e)
code_rebuild rebuild e = refl

kept_args : (l : LuaAt) {w w' h h' : ℤ} → w' ≡ w → h' ≡ h → ArgsFit l w h → ArgsFit l w' h'
kept_args resting e q a = tt
kept_args cleared e q a = tt
kept_args (stored_w r) e q a = e ∙ a
kept_args (stored_h r) e q a = (e ∙ a.0, q ∙ a.1)

-- Where the window's command and arguments are as they were.
pub kept-Quiet :
    {fl : Floats} {id : ℕ} {s : Desk fl} (m : Main fl)
    → KeepsCommand id s.core m
    → Quiet id s
    → Quiet id (record s { core = m })
kept-Quiet {s = s} m k q = record {
  cmd = k.cmd ∙ q.cmd;
  main = q.main;
  render = q.render;
  level = q.level;
  args = kept_args s.lua k.arg_w k.arg_h q.args;
}

pub kept-Open :
    {fl : Floats} {id : ℕ} {r : Request} {s : Desk fl} (m : Main fl)
    → KeepsCommand id s.core m
    → Open id r s
    → Open id r (record s { core = m })
kept-Open m k o = record {
  cmd = k.cmd ∙ o.cmd;
  arg_w = k.arg_w ∙ o.arg_w;
  arg_h = k.arg_h ∙ o.arg_h;
  lua = o.lua;
  ahead = o.ahead;
  main = o.main;
  render = o.render;
}

pub and_left : (a b : Bool) → a && b ≡ true → a ≡ true
and_left true b e = refl
and_left false b e = e

pub boot_only :
    (x : RebuildAt) {w h : ℤ} {r : Request} → r ≡ boot w h → RenderFits x r → x ≡ elsewhere
boot_only elsewhere p f = refl
boot_only rebuilding p f = absurd (cc p)

pub kill_only : (x : RebuildAt) {r : Request} → r ≡ kill → RenderFits x r → x ≡ elsewhere
kill_only elsewhere p f = refl
kill_only rebuilding p f = absurd (cc p)

pub rebuild_only : (x : MainAt) {r : Request} → r ≡ rebuild → MainFits x r → x ≡ polling
rebuild_only polling p f = refl
rebuild_only booting p f = absurd (cc (f.2))
rebuild_only (loaded_w w) p f = absurd (cc (f.1))
rebuild_only (creating w h) p f = absurd (cc f)
rebuild_only killing p f = absurd (cc f)

zero_suc : (n : ℕ) → pos 0 ≡ pos (suc n) → ⊥
zero_suc n e = absurd (ground arith)

module _ {fl : Floats} {id : ℕ} {s : Desk fl} where
  -- Nobody looks at a command that is idle.
  pub quiet_code : (n : ℕ) → Quiet id s → eqb_ℤ (tenant id s.core).glfw_cmd (pos (suc n)) ≡ true → ⊥
  quiet_code n q e = zero_suc n (sym q.cmd ∙ eqb_ℤ→eq (tenant id s.core).glfw_cmd (pos (suc n)) e)

  -- The command is done, and the word is idle again.
  pub closed :
      {r : Request} (m : Main fl)
      → Open id r s
      → (tenant id m).glfw_cmd ≡ pos cmd_idle
      → {p : Request} → r ≡ p
      → (x : MainAt) → x ≡ polling
      → (y : RebuildAt) → y ≡ elsewhere
      → Quiet id (record s { core = m; main = x; render = y; served = s.served ++ p ∷ [] })
  closed m o idle e x ex y ey = record {
    cmd = idle;
    main = ex;
    render = ey;
    level = o.ahead ∙ ap (λ r. s.served ++ r ∷ []) e;
    args = subst (λ l. ArgsFit l (tenant id m).glfw_arg_w (tenant id m).glfw_arg_h) (sym o.lua) tt;
  }
