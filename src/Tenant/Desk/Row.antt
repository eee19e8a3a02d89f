-- ===== src/Tenant/Desk/Row.antt =====
-- Without a break, the steps of the Lua thread are its calls (host/tenant/tenant_sys.c) and the steps of
-- the main loop are the round that serves the command (host/runtime/main_loop.c).
use mathlib.Core.Path.{fun_ext}
use chess_rts.Base.{
  ℕ, ◌≡◌, refl, ap, ◌∙◌, update, update_self, ◌<◌, inl, inr, Bool-cases, ◌==◌, lt→leb_false,
}
use chess_rts.Base.Int.{pos}
use chess_rts.State.{max_windows, Floats, TenantMailbox}
use chess_rts.Tenant.{window}
use chess_rts.Tenant.Input.{vx_sys_set_cmd}
use chess_rts.Tenant.Loop.{Answers, Main, boot_window}
use chess_rts.Tenant.Desk.{Request, code, width, height, tenant, store, boot_core}

-- The three stores of `vx_sys_set_cmd` in a row.
abbrev pub set_in_a_row : {fl : Floats} → ℕ → Request → Main fl → Main fl
set_in_a_row id r m =
    store id (λ t. record t { glfw_cmd = code r })
      (store id (λ t. record t { glfw_arg_h = height r })
        (store id (λ t. record t { glfw_arg_w = width r }) m))

update_change_twice {ℓ} :
    {A : Type ℓ} (f : ℕ → A) (id : ℕ) (c d : A → A) (k : ℕ)
    → (let g = update f id (c (f id)) in update g id (d (g id))) k ≡ update f id (d (c (f id))) k
update_change_twice f id c d k = elim (Bool-cases (id == k)) [
  | inl same ↦ rw same (ap d (update_self f id (c (f id))))
  | inr other ↦ rw other refl
]

store-store :
    {fl : Floats} (id : ℕ) (c d : TenantMailbox fl → TenantMailbox fl) (m : Main fl)
    → store id d (store id c m) ≡ store id (λ t. d (c t)) m
store-store id c d m =
    ap
      (λ f. record m {
        globals = record m.globals { mailbox = record m.globals.mailbox { tenants = f } };
      })
      (fun_ext (λ k. update_change_twice m.globals.mailbox.tenants id c d k))

set_in_a_row_lem :
    {fl : Floats} (id : ℕ) (r : Request) (m : Main fl)
    → id < max_windows
    → set_in_a_row id r m ≡ record m {
      globals = record m.globals {
        mailbox = vx_sys_set_cmd (pos id) (code r) (width r) (height r) m.globals.mailbox;
      };
    }
unfolding vx_sys_set_cmd window
set_in_a_row_lem id r m lt =
    rw (lt→leb_false id max_windows lt, vx_sys_set_cmd)
      (ap (store id (λ t. record t { glfw_cmd = code r })) (
          store-store id (λ t. record t { glfw_arg_w = width r })
            (λ t. record t { glfw_arg_h = height r }) m)
        ∙ store-store id (λ t. record t { glfw_arg_w = width r; glfw_arg_h = height r })
            (λ t. record t { glfw_cmd = code r }) m)

boot_core_lem :
    {fl : Floats} (a : Answers) (id : ℕ) (m : Main fl)
    → boot_core a id (tenant id m).glfw_arg_w (tenant id m).glfw_arg_h m ≡ boot_window a id m
unfolding boot_window
boot_core_lem a id m = refl
