-- ===== src/Tenant/Kill.antt =====
-- CMD_KILL_WINDOW (host/runtime/main_loop.c) among the threads that may be at work on the window:
-- the render thread (render/gpu/vk_render_loop.c) and the transfer thread
-- (render/transfer/vk_transfer_loop.c), access by access. The accesses are taken to be sequentially
-- consistent; the release stores and acquire loads of the code allow more.
pub mod Flags
pub mod Invariant
pub mod Exclude
use chess_rts.Base.{Bool, ℕ, ◌≡◌, some, List, if◌then◌else◌}
use chess_rts.Base.Int.{pos, eqb_ℤ}
use chess_rts.State.{Floats, Globals}
use chess_rts.Boot.{set_wsi}
use chess_rts.Render.Frame.{FrameAnswers, FrameCall}
use chess_rts.Render.Handshake.{RenderAt, outside, Meeting, render_step, KeepsFlags}
use chess_rts.Transfer.{CopyCall}
use chess_rts.Transfer.Handshake.{CopyAt, elsewhere, found, CopyMeeting, copy_step, KeepsCopyFlags}
use chess_rts.Tenant.Loop.{on_tenant, killed}

-- Where the main loop is: not at the command, in its wait, between the loads of the two flags, or
-- before the call that destroys the window; `forced` is the latter after the timeout.
pub data KillAt : Type 0 where
  serving : KillAt
  draining : KillAt
  render_idle : KillAt
  destroying : KillAt
  forced : KillAt

pub record Crowd (fl : Floats) : Type 0 where
  pub globals : Globals fl
  pub t_frame : ℕ
  pub render : RenderAt
  pub copy : CopyAt
  pub kill : KillAt
  pub frame_calls : List FrameCall
  pub copy_calls : List CopyCall

-- What the render thread and the transfer thread see of it; no `vx_stream_init` is under way.
abbrev pub render_view : {fl : Floats} → Crowd fl → Meeting fl
render_view s = record {
  globals = s.globals;
  t_frame = s.t_frame;
  render = s.render;
  init = outside;
  calls = s.frame_calls;
}

abbrev pub copy_view : {fl : Floats} → Crowd fl → CopyMeeting fl
copy_view s = record { globals = s.globals; copy = s.copy; init = outside; calls = s.copy_calls }

abbrev pub rendered_to : {fl : Floats} → Meeting fl → Crowd fl → Crowd fl
rendered_to t s = record s {
  globals = t.globals;
  t_frame = t.t_frame;
  render = t.render;
  frame_calls = t.calls;
}

abbrev pub copied_to : {fl : Floats} → CopyMeeting fl → Crowd fl → Crowd fl
copied_to t s = record s { globals = t.globals; copy = t.copy; copy_calls = t.calls }

-- One access of the main loop for the command; the stores after `glfwDestroyWindow` are one step.
unfoldable pub kill_step : {fl : Floats} → (id : ℕ) → KillAt → Globals fl → KillAt × Globals fl
kill_step id serving g = (draining, set_wsi id (pos 0) g)
kill_step id draining g = (if eqb_ℤ (g.render_busy id) (pos 0) then render_idle else draining, g)
kill_step id render_idle g =
    (if eqb_ℤ (g.transfer_busy id) (pos 0) then destroying else draining, g)
kill_step id destroying g = (serving, on_tenant id killed g)
kill_step id forced g = (serving, on_tenant id killed g)

-- `give_up` is the end of the timeout, and `opened` the store that ends `vx_stream_init`: the Lua thread
-- does not restart a window while its kill command is open.
pub data KillStep {fl : Floats} (w : ℕ) (s : Crowd fl) : Crowd fl → Type 0 where
  render :
      {t : Meeting fl} (a : FrameAnswers)
      → render_step a w s.render (render_view s) ≡ some t
      → KillStep w s (rendered_to t s)
  find :
      (i : ℕ)
      → s.copy ≡ elsewhere
      → (s.globals.transfer_ring i).status ≡ pos 2
      → (s.globals.transfer_ring i).target_window_id ≡ pos w
      → KillStep w s (record s { copy = found i })
  transfer :
      (timeout : Bool) → KillStep w s (copied_to (copy_step timeout w s.copy (copy_view s)) s)
  kill : KillStep w s (record s {
    globals = (kill_step w s.kill s.globals).1;
    kill = (kill_step w s.kill s.globals).0;
  })
  give_up : s.kill ≡ draining → KillStep w s (record s { kill = forced })
  opened : s.kill ≡ serving → KillStep w s (record s { globals = set_wsi w (pos 1) s.globals })
  others :
      (g : Globals fl)
      → KeepsFlags w s.globals g
      → KeepsCopyFlags w s.globals g
      → KillStep w s (record s { globals = g })

pub data KillReach {fl : Floats} (w : ℕ) (s : Crowd fl) : Crowd fl → Type 0 where
  here : KillReach w s s
  next : {t u : Crowd fl} → KillReach w s t → KillStep w t u → KillReach w s u
