-- ===== src/Tests/Host.antt =====
-- The whole program: a wait that ends, and a window that is made and destroyed.
use chess_rts.Base.{ℕ, ◌<◌, ◌≡◌, true, false, none, some, if◌then◌else◌, ◌==◌}
use chess_rts.Base.Int.{ℤ, pos, eqb_ℤ}
use chess_rts.State.{TenantMailbox, cmd_boot_window}
use chess_rts.Host.{MainRound, finish_wait}
use chess_rts.Host.Finish.{finish_wait_lem}
use chess_rts.Boot.{vx_core_shutdown}
use chess_rts.Tenant.Loop.{on_tenant}
use chess_rts.Tests.{whole}
use chess_rts.Tests.Tenants.{some_answers}

-- The flag of the Lua thread is seen by the third poll.
abbrev third_sees : ℕ → ℤ
third_sees k = if k == 2 then pos 1 else pos 0

finish_wait_lem_example :
    ((n fuel : ℕ)
      → eqb_ℤ (third_sees n) (pos 0) ≡ false
      → n < fuel
      → (last : ℕ) × (finish_wait fuel third_sees 0 0 ≡ some last))
    × (((n : ℕ) → eqb_ℤ (third_sees n) (pos 0) ≡ true)
        → (fuel : ℕ) → finish_wait fuel third_sees 0 0 ≡ none)
finish_wait_lem_example = finish_wait_lem third_sees

-- The Lua thread boots window 1, and then shuts the program down.
abbrev boots : MainRound whole
boots = record {
  others = on_tenant 1 (λ (t : TenantMailbox whole). record t { glfw_cmd = pos cmd_boot_window });
  answers = λ _. some_answers;
}

abbrev shuts_down : MainRound whole
shuts_down = record { others = vx_core_shutdown; answers = λ _. some_answers }
