-- ===== src/Tests/Desks.antt =====
-- The command word at work: window 2 is asked for, and booted by the main loop.
use chess_rts.Base.{◌≡◌, refl, ◌⊎◌, ◌++◌, [], ◌∷◌, Bool, true, false, arith}
use chess_rts.Base.Int.{pos}
use chess_rts.State.{cmd_idle}
use chess_rts.Tenant.{window}
use chess_rts.Tenant.Input.{vx_sys_is_tenant_idle}
use chess_rts.Tenant.Loop.{Main}
use chess_rts.Tenant.Desk.{
  Request, boot, rebuild, code, resting, polling, creating, elsewhere, Desk, tenant, store,
  boot_core, look, put_w, put_h, put_cmd, see_boot, get_w, get_h, create, DeskReach, start, later,
}
use chess_rts.Tenant.Desk.Once.{DeskReach-once}
use chess_rts.Tenant.Desk.Lost.{lost_rebuild}
use chess_rts.Tests.{whole}
use chess_rts.Tests.Tenants.{some_answers, a_main}

abbrev asked_main : Main whole
asked_main =
    store 2 (λ t. record t { glfw_cmd = pos 1 })
      (store 2 (λ t. record t { glfw_arg_h = pos 480 })
        (store 2 (λ t. record t { glfw_arg_w = pos 640 }) a_main))

-- The main loop has loaded the command and its arguments.
abbrev at_work : Desk whole
at_work = record {
  core = asked_main;
  lua = resting;
  main = creating (pos 640) (pos 480);
  render = elsewhere;
  issued = boot (pos 640) (pos 480) ∷ [];
  served = [];
}

abbrev served_desk : Desk whole
served_desk = record at_work {
  core = boot_core some_answers 2 (pos 640) (pos 480) asked_main;
  main = polling;
  served = boot (pos 640) (pos 480) ∷ [];
}

to_work : (asks : Bool) → DeskReach asks 2 at_work
unfolding vx_sys_is_tenant_idle window
to_work asks =
    later
      (later
        (later
          (later
            (later
              (later (later (start {m = a_main} refl) (look refl (λ _. refl)))
                (put_w (boot (pos 640) (pos 480)) refl))
              (put_h refl))
            (put_cmd refl))
          (see_boot refl refl))
        (get_w refl))
      (get_h refl)

DeskReach-once_example :
    ((served_desk.issued ≡ served_desk.served)
      × ((tenant 2 served_desk.core).glfw_cmd ≡ pos cmd_idle))
    ⊎ ((r : Request) × (served_desk.issued ≡ served_desk.served ++ r ∷ [])
        × ((tenant 2 served_desk.core).glfw_cmd ≡ code r))
DeskReach-once_example =
    DeskReach-once {s = served_desk} (omega arith) (later (to_work true) (create some_answers refl))

lost_rebuild_example :
    (t : Desk whole) × DeskReach false 2 t
    × (t.issued ≡ boot (pos 640) (pos 480) ∷ rebuild ∷ [])
    × (t.served ≡ boot (pos 640) (pos 480) ∷ [])
    × ((tenant 2 t.core).glfw_cmd ≡ pos cmd_idle)
lost_rebuild_example = lost_rebuild {s = at_work} some_answers (to_work false) refl refl
