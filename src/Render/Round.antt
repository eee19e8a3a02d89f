-- ===== src/Render/Round.antt =====
-- render/gpu/vk_render_loop.c: a whole round of the render thread, which serves the rebuild
-- commands and then each window in turn, and the loop over the rounds. What Vulkan answers in
-- window `w` is `frames w`, and what the waits see is `busy`.
pub mod Window
pub mod Take
pub mod Drain
pub mod Acquire
use chess_rts.Base.{
  ℕ, zero, suc, ◌+◌, Bool, true, false, ◌||◌, Option, none, some, List, [], ◌∷◌, ◌++◌,
  if◌then◌else◌, ◌>>=◌, update, ◌≡◌,
}
use chess_rts.Base.Int.{ℤ, pos, eqb_ℤ}
use chess_rts.State.{max_windows, Floats, Globals}
use chess_rts.Render.Frame.{FrameAnswers, FrameCall, is_defined, Rendered, render_window}
use chess_rts.Render.Rebuild.{RebuildCall, rebuild_windows}

pub data ThreadCall : Type 0 where
  for_rebuild : RebuildCall → ThreadCall
  for_frame : FrameCall → ThreadCall
  sleep_one : ThreadCall

-- What the windows leave: the globals, the frame counters and the calls.
pub record Rounded (fl : Floats) : Type 0 where
  pub globals : Globals fl
  pub t_frame : ℕ → ℕ
  pub calls : List ThreadCall

abbrev each {ℓ} : {A B : Type ℓ} → (A → B) → List A → List B
each f [] = []
each f (a ∷ l) = f a ∷ each f l

-- The second loop from window `wid` on, with the number of windows left.
pub render_windows :
    {fl : Floats} → ℕ → (ℕ → FrameAnswers) → ℕ → (ℕ → ℕ) → Globals fl → Option (Rounded fl)
render_windows zero frames wid t_frame g =
    some (record { globals = g; t_frame = t_frame; calls = [] })
render_windows (suc left) frames wid t_frame g = do
  r ← render_window (frames wid) wid (t_frame wid) g
  rest ← render_windows left frames (wid + 1) (update t_frame wid r.t_frame) r.globals
  some (record rest { calls = each for_frame r.calls ++ rest.calls })

pub record RoundAnswers : Type 0 where
  pub busy : ℕ → ℕ → Bool
  pub frames : ℕ → FrameAnswers

-- Every acquisition answers with an index within the arrays or with an error that the code tests.
abbrev pub AllDefined : RoundAnswers → Type 0
AllDefined a = (w : ℕ) → is_defined (a.frames w).acquire ≡ true

pub render_round : {fl : Floats} → RoundAnswers → (ℕ → ℕ) → Globals fl → Option (Rounded fl)
render_round a t_frame g = do
  (g', rebuilds) ← rebuild_windows max_windows a.busy 0 g
  r ← render_windows max_windows a.frames 0 t_frame g'
  some (record r { calls = each for_rebuild rebuilds ++ (r.calls ++ sleep_one ∷ []) })

-- `L(g_render_thread_active) && L(g_engine.mailbox.is_running)`, negated
unfoldable pub is_stopped : {fl : Floats} → Globals fl → Bool
is_stopped g = eqb_ℤ g.render_thread_active (pos 0) || eqb_ℤ g.mailbox.is_running (pos 0)

-- The loop, for as many rounds as there are answers. `others` is what the other threads have
-- done to the globals when the round begins.
pub render_thread_loop :
    {fl : Floats}
    → List ((Globals fl → Globals fl) × RoundAnswers)
    → (ℕ → ℕ)
    → Globals fl
    → Option (Rounded fl)
render_thread_loop [] t_frame g = some (record { globals = g; t_frame = t_frame; calls = [] })
render_thread_loop ((others, a) ∷ rounds) t_frame g =
    if is_stopped (others g)
    then some (record { globals = others g; t_frame = t_frame; calls = [] })
    else (do
      r ← render_round a t_frame (others g)
      rest ← render_thread_loop rounds r.t_frame r.globals
      some (record rest { calls = r.calls ++ rest.calls }))
