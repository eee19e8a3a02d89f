-- ===== src/Render/Round/Acquire.antt =====
-- The Lua thread gets a slot once the render thread has caught up.
use chess_rts.Base.{
  ℕ, ◌*◌, ◌+◌, ◌%◌, ◌≤◌, ◌<◌, ◌≡◌, false, Option, none, some, List, length, sym, ◌∙◌, ap,
}
use chess_rts.Base.Int.{pos}
use chess_rts.State.{max_windows, RenderRing, Floats, Globals}
use chess_rts.Ring.{quiet, vx_stream_acquire}
use chess_rts.Render.Fifo.Refill.{caught_up}
use chess_rts.Render.Fifo.Windows.{Windows, AllReach}
use chess_rts.Render.Fifo.Windows.Alone.{AllReach-Reach}
use chess_rts.Render.Round.{Rounded, RoundAnswers, is_stopped, render_thread_loop}
use chess_rts.Render.Round.Window.{Matches}
use chess_rts.Render.Round.Drain.{undisturbed, EachDefined, render_thread_loop-Drained}

-- After the loop the Lua thread acquires one of the four slots of window `w`.
abbrev pub Refilled : {fl : Floats} → ℕ → Option (Rounded fl) → Type 0
Refilled {fl} w run =
    (r : Rounded fl) × (slot : ℕ) × (ring : RenderRing) × (run ≡ some r)
    × (vx_stream_acquire (pos w) r.globals.ring quiet ≡ some (pos (w * 4 + slot % 4), ring))

-- A full ring does not stay full: while the running flags are set and no other thread changes any of
-- the globals, the render thread ends any number of rounds from four on, if each acquisition answers
-- with an index within the arrays or with one of the three errors that the code tests, and
-- `vx_stream_acquire` then finds a slot of the window for a Lua thread that holds none of it and
-- whose exchange meets no other change of the mask.
pub vx_stream_acquire-render_thread_loop :
    {fl : Floats} {frames : ℕ → ℕ} {s : Windows} (w : ℕ) (rounds : List RoundAnswers)
    (t_frame : ℕ → ℕ) (g : Globals fl)
    → w < max_windows
    → s.holding w ≡ none
    → EachDefined rounds
    → 4 ≤ length rounds
    → is_stopped g ≡ false
    → AllReach frames s
    → Matches frames s t_frame g
    → Refilled w (render_thread_loop (undisturbed rounds) t_frame g)
vx_stream_acquire-render_thread_loop w rounds t_frame g lt empty defined enough run reach mt =
    let (r, after, e, reach', mt', kept, hold, taken) =
      render_thread_loop-Drained rounds t_frame g defined enough run reach mt in
    let (slot, ring, q) =
      caught_up lt (AllReach-Reach lt reach') (hold w ∙ empty) (taken w lt ∙ sym (kept w lt)) in
    (r, slot, ring, e, ap (λ x. vx_stream_acquire (pos w) x quiet) mt'.ring ∙ q)
