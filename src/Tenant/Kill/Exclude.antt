-- ===== src/Tenant/Kill/Exclude.antt =====
-- The window is destroyed only when neither thread is at work with its handles.
use mathlib.Core.Option
use chess_rts.Base.{ℕ, ◌≡◌, refl}
use chess_rts.State.{Floats}
use chess_rts.Tenant.Loop.{Main, kill_window}
use chess_rts.Tenant.Kill.{serving, destroying, kill_step}

-- Without a break the stores are those of the main loop's round.
kill_in_a_row :
    {fl : Floats} (id : ℕ) (m : Main fl)
    → (kill_step id destroying (kill_step id serving m.globals).1).1 ≡ (kill_window id m).globals
unfolding kill_step kill_window
kill_in_a_row id m = refl
