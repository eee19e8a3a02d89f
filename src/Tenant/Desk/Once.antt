-- ===== src/Tenant/Desk/Once.antt =====
-- Each command is carried out once, in order, and with the arguments it was asked for with.
use mathlib.Core.Path.{subst}
use chess_rts.Base.{
  ℕ, ◌≡◌, refl, sym, ap, ◌∙◌, ◌⊎◌, inl, inr, ◌++◌, [], ◌∷◌, true, update_self, ◌<◌,
}
use chess_rts.Base.Int.{ℤ, pos, eqb_ℤ}
use chess_rts.State.{
  max_windows, cmd_idle, cmd_boot_window, cmd_kill_window, cmd_rebuild_wsi, Floats, Globals,
}
use chess_rts.Render.Rebuild.{stop_window, stopped_tenant}
use chess_rts.Tenant.Loop.{Answers, Main, booted, killed, kill_window}
use chess_rts.Tenant.Desk.{
  Request, boot, code, width, height, polling, elsewhere, Desk, tenant, boot_core, DeskStep, look,
  put_w, put_h, put_cmd, see_boot, get_w, get_h, create, see_kill, destroy, see_rebuild, stop,
  others, DeskReach, start, later,
}
use chess_rts.Tenant.Desk.Invariant.{
  ArgsFit, MainFits, RenderFits, Quiet, Open, Holds, tenant-store, idle→cmd, not_idle, code_boot,
  code_kill, code_rebuild, kept-Quiet, kept-Open, and_left, boot_only, kill_only, rebuild_only,
  quiet_code, closed,
}

Quiet-Holds :
    {fl : Floats} {id : ℕ} {s t : Desk fl} → Quiet id s → DeskStep true id s t → Holds id t
Quiet-Holds q (look e i) =
    inl (record { cmd = q.cmd; main = q.main; render = q.render; level = q.level; args = tt })
Quiet-Holds {id = id} {s} q (put_w r e) =
    let kept = tenant-store id (λ t. record t { glfw_arg_w = width r }) s.core in
    inl (record {
      cmd = ap (λ t. t.glfw_cmd) kept ∙ q.cmd;
      main = q.main;
      render = q.render;
      level = q.level;
      args = ap (λ t. t.glfw_arg_w) kept;
    })
Quiet-Holds {id = id} {s} q (put_h {r} e) =
    let kept = tenant-store id (λ t. record t { glfw_arg_h = height r }) s.core in
    inl (record {
      cmd = ap (λ t. t.glfw_cmd) kept ∙ q.cmd;
      main = q.main;
      render = q.render;
      level = q.level;
      args = (
        ap (λ t. t.glfw_arg_w) kept
            ∙ subst (λ l. ArgsFit l (tenant id s.core).glfw_arg_w (tenant id s.core).glfw_arg_h) e
                q.args,
        ap (λ t. t.glfw_arg_h) kept,
      );
    })
Quiet-Holds {id = id} {s} q (put_cmd {r} e) =
    let kept = tenant-store id (λ t. record t { glfw_cmd = code r }) s.core in
    let a =
      subst (λ l. ArgsFit l (tenant id s.core).glfw_arg_w (tenant id s.core).glfw_arg_h) e q.args in
    inr (
      r,
      record {
        cmd = ap (λ t. t.glfw_cmd) kept;
        arg_w = ap (λ t. t.glfw_arg_w) kept ∙ a.0;
        arg_h = ap (λ t. t.glfw_arg_h) kept ∙ a.1;
        lua = refl;
        ahead = ap (λ l. l ++ r ∷ []) q.level;
        main = subst (λ x. MainFits x r) (sym q.main) tt;
        render = subst (λ x. RenderFits x r) (sym q.render) tt;
      },
    )
Quiet-Holds q (see_boot e b) = absurd (quiet_code 0 q (and_left _ _ b))
Quiet-Holds q (get_w e) = absurd (cc (e, q.main))
Quiet-Holds q (get_h e) = absurd (cc (e, q.main))
Quiet-Holds q (create a e) = absurd (cc (e, q.main))
Quiet-Holds q (see_kill e b) = absurd (quiet_code 1 q (and_left _ _ b))
Quiet-Holds q (destroy e) = absurd (cc (e, q.main))
Quiet-Holds q (see_rebuild e b) = absurd (quiet_code 2 q b)
Quiet-Holds q (stop e) = absurd (cc (e, q.render))
Quiet-Holds q (others m k) = inl (kept-Quiet m k q)

pub boot_core-cmd :
    {fl : Floats} (a : Answers) (id : ℕ) (w h : ℤ) (m : Main fl)
    → (tenant id (boot_core a id w h m)).glfw_cmd ≡ pos cmd_idle
unfolding booted
boot_core-cmd a id w h m = ap (λ t. t.glfw_cmd) (tenant-store id (booted a (a.create_window w h)) m)

kill_window-cmd :
    {fl : Floats} (id : ℕ) (m : Main fl) → (tenant id (kill_window id m)).glfw_cmd ≡ pos cmd_idle
unfolding kill_window killed
kill_window-cmd id m = ap (λ t. t.glfw_cmd) (tenant-store id killed m)

stop_window-cmd :
    {fl : Floats} (id : ℕ) (g : Globals fl)
    → ((stop_window id g).mailbox.tenants id).glfw_cmd ≡ pos cmd_idle
unfolding stop_window
stop_window-cmd id g =
    ap (λ t. t.glfw_cmd) (update_self g.mailbox.tenants id (stopped_tenant (g.mailbox.tenants id)))

module _ {fl : Floats} {id : ℕ} {r : Request} where
  Open-Holds : {s t : Desk fl} → id < max_windows → Open id r s → DeskStep true id s t → Holds id t
  Open-Holds {s} lt o (look e i) =
      absurd (not_idle r (sym o.cmd ∙ idle→cmd id s.core.globals lt (i refl)))
  Open-Holds lt o (put_w p e) = absurd (cc (e, o.lua))
  Open-Holds lt o (put_h e) = absurd (cc (e, o.lua))
  Open-Holds lt o (put_cmd e) = absurd (cc (e, o.lua))
  Open-Holds lt o (see_boot e b) = inr (
    r,
    record {
      cmd = o.cmd;
      arg_w = o.arg_w;
      arg_h = o.arg_h;
      lua = o.lua;
      ahead = o.ahead;
      main = code_boot r (ap (λ c. eqb_ℤ c (pos cmd_boot_window)) (sym o.cmd) ∙ and_left _ _ b);
      render = o.render;
    },
  )
  Open-Holds lt o (get_w e) =
      let f = subst (λ x. MainFits x r) e o.main in
      inr (
        r,
        record {
          cmd = o.cmd;
          arg_w = o.arg_w;
          arg_h = o.arg_h;
          lua = o.lua;
          ahead = o.ahead;
          main = (f.1, f.2 ∙ ap (λ w. boot w f.1) (sym (o.arg_w ∙ ap width f.2)));
          render = o.render;
        },
      )
  Open-Holds lt o (get_h {w} e) =
      let f = subst (λ x. MainFits x r) e o.main in
      inr (
        r,
        record {
          cmd = o.cmd;
          arg_w = o.arg_w;
          arg_h = o.arg_h;
          lua = o.lua;
          ahead = o.ahead;
          main = f.1 ∙ ap (λ h. boot w h) (sym (o.arg_h ∙ ap height f.1));
          render = o.render;
        },
      )
  Open-Holds {s} lt o (create {w} {h} a e) =
      let p = subst (λ x. MainFits x r) e o.main in
      inl (
        closed (boot_core a id w h s.core) o (boot_core-cmd a id w h s.core) p polling refl s.render
          (boot_only s.render p o.render))
  Open-Holds lt o (see_kill e b) = inr (
    r,
    record {
      cmd = o.cmd;
      arg_w = o.arg_w;
      arg_h = o.arg_h;
      lua = o.lua;
      ahead = o.ahead;
      main = code_kill r (ap (λ c. eqb_ℤ c (pos cmd_kill_window)) (sym o.cmd) ∙ and_left _ _ b);
      render = o.render;
    },
  )
  Open-Holds {s} lt o (destroy e) =
      let p = subst (λ x. MainFits x r) e o.main in
      inl (
        closed (kill_window id s.core) o (kill_window-cmd id s.core) p polling refl s.render
          (kill_only s.render p o.render))
  Open-Holds lt o (see_rebuild e b) = inr (
    r,
    record {
      cmd = o.cmd;
      arg_w = o.arg_w;
      arg_h = o.arg_h;
      lua = o.lua;
      ahead = o.ahead;
      main = o.main;
      render = code_rebuild r (ap (λ c. eqb_ℤ c (pos cmd_rebuild_wsi)) (sym o.cmd) ∙ b);
    },
  )
  Open-Holds {s} lt o (stop e) =
      let p = subst (λ x. RenderFits x r) e o.render in
      inl (
        closed (record s.core { globals = stop_window id s.core.globals }) o
          (stop_window-cmd id s.core.globals) p s.main (rebuild_only s.main p o.main) elsewhere
          refl)
  Open-Holds lt o (others m k) = inr (r, kept-Open m k o)

reach-Holds :
    {fl : Floats} {id : ℕ} {s : Desk fl} → id < max_windows → DeskReach true id s → Holds id s
reach-Holds lt (start e) =
    inl (record { cmd = e; main = refl; render = refl; level = refl; args = tt })
reach-Holds lt (later r st) = elim (reach-Holds lt r) [
  | inl q ↦ Quiet-Holds q st
  | inr o ↦ Open-Holds lt o.1 st
]

-- From a state in which the command of window `id` is idle and no thread is at work on it, whatever
-- the three threads and the others do: the commands that the main loop and the render thread have
-- carried out are those that the Lua thread has issued, in the same order and each with its own
-- width and height, except that the last one issued may still be open; and when it is not, the word
-- in the mailbox is idle, and otherwise it is the code of that command. The Lua thread is taken to
-- ask `vx_sys_is_tenant_idle` before each command, and to store it when the answer is 1.
pub DeskReach-once :
    {fl : Floats} {id : ℕ} {s : Desk fl}
    → id < max_windows
    → DeskReach true id s
    → ((s.issued ≡ s.served) × ((tenant id s.core).glfw_cmd ≡ pos cmd_idle))
      ⊎ ((r : Request) × (s.issued ≡ s.served ++ r ∷ []) × ((tenant id s.core).glfw_cmd ≡ code r))
DeskReach-once lt reach = elim (reach-Holds lt reach) [
  | inl q ↦ inl (q.level, q.cmd)
  | inr o ↦ inr (o.0, o.1.ahead, o.1.cmd)
]
