-- ===== src/Tenant/Desk/Lost.antt =====
-- A command that is stored while another one is being carried out (host/runtime/main_loop.c, and
-- `vx_sys_set_cmd` of host/tenant/tenant_sys.c).
use chess_rts.Base.{◌≡◌, refl, ◌++◌, [], ◌∷◌, false, ℕ}
use chess_rts.Base.Int.{ℤ, pos}
use chess_rts.State.{cmd_idle, Floats}
use chess_rts.Tenant.Loop.{Answers}
use chess_rts.Tenant.Desk.{
  boot, rebuild, resting, creating, Desk, tenant, look, put_w, put_h, put_cmd, create, DeskReach,
  later,
}
use chess_rts.Tenant.Desk.Row.{set_in_a_row}
use chess_rts.Tenant.Desk.Once.{boot_core-cmd}

-- Without the question a command can be lost: a rebuild that is stored while the main loop creates
-- the window is never carried out, and the word is idle again.
pub lost_rebuild :
    {fl : Floats} {id : ℕ} {s : Desk fl} {w h : ℤ}
    → Answers
    → DeskReach false id s
    → s.lua ≡ resting
    → s.main ≡ creating w h
    → (t : Desk fl) × DeskReach false id t
      × (t.issued ≡ s.issued ++ rebuild ∷ [])
      × (t.served ≡ s.served ++ boot w h ∷ [])
      × ((tenant id t.core).glfw_cmd ≡ pos cmd_idle)
lost_rebuild {id = id} {s} {w} {h} a reach l m = (
  _,
  later
      (later
        (later (later (later reach (look l (λ no. absurd (cc no)))) (put_w rebuild refl))
          (put_h refl))
        (put_cmd refl))
      (create a m),
  refl,
  refl,
  boot_core-cmd a id w h (set_in_a_row id rebuild s.core),
)
