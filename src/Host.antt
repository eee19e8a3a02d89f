-- ===== src/Host.antt =====
-- host/runtime/main_loop.c as a whole: the loop over the rounds and the four windows, the wait for
-- the Lua thread and the end; with host/lua/lua_vm.c and host/boot/main_headless.c in Host/Lua.
-- What the other threads have done when a round begins is an argument, and so is what each poll
-- of `lua_finished` sees.
pub mod Lua
pub mod Ledger
pub mod Finish
use chess_rts.Base.{
  ℕ, zero, suc, ◌+◌, Bool, true, false, ◌&&◌, not, Option, none, some, List, [], ◌∷◌, ◌++◌,
  if◌then◌else◌, ◌>>=◌, ◌==◌,
}
use chess_rts.Base.Int.{ℤ, pos, minus_one, eqb_ℤ}
use chess_rts.State.{max_windows, Floats, TenantMailbox, Globals}
use chess_rts.Spin.{vx_spin_wait}
use chess_rts.Boot.{vx_init_mailbox}
use chess_rts.Tenant.Loop.{Answers, Main, wants_boot, wants_kill, main_round}

-- The windows that GLFW makes and destroys; `glfwCreateWindow` may return NULL.
pub data WindowCall : Type 0 where
  created : (window : ℕ) → WindowCall
  destroyed : (window : ℕ) → WindowCall

pub window_calls : {fl : Floats} → Answers → ℕ → Main fl → List WindowCall
window_calls {fl} a id m =
    if wants_boot id m
    then created (a.create_window t.glfw_arg_w t.glfw_arg_h) ∷ []
    else if wants_kill id m
    then destroyed (m.windows id) ∷ []
    else []
  where
    t : TenantMailbox fl
    t = m.globals.mailbox.tenants id

-- The loop over the windows from `id` on, with the number of windows left; `answers id` is what
-- GLFW and the wait for window `id` answer.
pub main_windows :
    {fl : Floats} → ℕ → (ℕ → Answers) → ℕ → Main fl → Option (Main fl × List WindowCall)
main_windows zero answers id m = some (m, [])
main_windows (suc left) answers id m = do
  m' ← main_round (answers id) id m
  (m'', calls) ← main_windows left answers (id + 1) m'
  some (m'', window_calls (answers id) id m ++ calls)

pub record MainRound (fl : Floats) : Type 0 where
  pub others : Globals fl → Globals fl
  pub answers : ℕ → Answers

unfoldable pub is_down : {fl : Floats} → Globals fl → Bool
is_down g = eqb_ℤ g.mailbox.is_running (pos 0)

-- `while (vx_core_is_running())`; `none` if the listed rounds do not end it.
pub main_loop : {fl : Floats} → List (MainRound fl) → Main fl → Option (Main fl × List WindowCall)
main_loop [] m = none
main_loop (r ∷ rounds) m =
    let m' = record m { globals = r.others m.globals } in
    if is_down m'.globals then some (m', []) else (do
      (after, calls) ← main_windows max_windows r.answers 0 m'
      (last, more) ← main_loop rounds after
      some (last, calls ++ more))

-- `while (L(lua_finished) == 0) vx_spin_wait(&spin_count);` from poll `k` on, with the spin count
-- when it ends; `none` is fuel that has run out. The count is an `int` there, which would overflow
-- after 2^31 polls of a millisecond each.
pub finish_wait : ℕ → (ℕ → ℤ) → (k spin_count : ℕ) → Option ℕ
finish_wait zero lua_finished k spin_count = none
finish_wait (suc fuel) lua_finished k spin_count =
    let again = finish_wait fuel lua_finished (k + 1) (vx_spin_wait spin_count).1 in
    if eqb_ℤ (lua_finished k) (pos 0) then again else some spin_count

-- The windows that are still open when the program ends.
pub close_windows : ℕ → ℕ → (ℕ → ℕ) → List WindowCall
close_windows zero i windows = []
close_windows (suc left) i windows =
    let rest = close_windows left (i + 1) windows in
    if windows i == 0 then rest else destroyed (windows i) ∷ rest

-- What `main` returns, and the windows it makes and destroys.
pub host_main :
    {fl : Floats}
    → (glfw_init : Bool) → List (MainRound fl)
    → (fuel : ℕ) → (lua_finished : ℕ → ℤ) → Globals fl
    → Option (ℤ × List WindowCall)
host_main false rounds fuel lua_finished g = some (minus_one, [])
host_main true rounds fuel lua_finished g = do
  (m, calls) ← main_loop rounds (record { globals = vx_init_mailbox g; windows = λ _. 0 })
  _ ← finish_wait fuel lua_finished 0 0
  some (pos 0, calls ++ close_windows max_windows 0 m.windows)
