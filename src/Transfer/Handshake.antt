-- ===== src/Transfer/Handshake.antt =====
-- The transfer thread and `vx_stream_init` on one window, access by access: the loop body of
-- render/transfer/vk_transfer_loop.c and the reset of host/ipc/ring_stream.c, which meet by
-- `g_wsi_state` and `g_transfer_busy`. The accesses are taken to be
-- sequentially consistent; the release stores and acquire loads of the code allow more. The copy on the
-- GPU, its waits included, is one step.
pub mod Exclude
pub mod Whole
use chess_rts.Base.{ℕ, ◌≡◌, ◌⊎◌, Bool, List, [], ◌++◌, ◌∷◌, if◌then◌else◌, update}
use chess_rts.Base.Int.{ℤ, pos}
use chess_rts.State.{RenderThreadInit, Floats, Globals}
use chess_rts.Boot.{set_wsi}
use chess_rts.Render.Handshake.{InitAt, outside, waiting, init_step}
use chess_rts.Transfer.{CopyCall, wait_for_fence, copy_calls, stopped}

-- Where the transfer thread is in its work on a ready job of the window: before which access.
pub data CopyAt : Type 0 where
  elsewhere : CopyAt
  found : (i : ℕ) → CopyAt
  marked : (i : ℕ) → CopyAt
  working : (i : ℕ) → CopyAt
  hanging : (i : ℕ) → CopyAt
  stopping : CopyAt
  releasing : (i : ℕ) → CopyAt
  closing : CopyAt

pub record CopyMeeting (fl : Floats) : Type 0 where
  pub globals : Globals fl
  pub copy : CopyAt
  pub init : InitAt
  pub calls : List CopyCall

abbrev pub set_transfer_busy : {fl : Floats} → ℕ → ℤ → Globals fl → Globals fl
set_transfer_busy wid b g = record g { transfer_busy = update g.transfer_busy wid b }

-- `S(job->status, 0)`.
abbrev pub free_job : {fl : Floats} → ℕ → Globals fl → Globals fl
free_job i g = record g {
  transfer_ring = update g.transfer_ring i (record (g.transfer_ring i) { status = pos 0 });
}

-- One access of the transfer thread in window `wid`. `timeout` is whether the first wait answers
-- VK_TIMEOUT.
unfoldable pub copy_step :
    {fl : Floats} → (timeout : Bool) → (wid : ℕ) → CopyAt → CopyMeeting fl → CopyMeeting fl
copy_step timeout wid elsewhere s = record s { copy = elsewhere }
copy_step timeout wid (found i) s = record s {
  globals = set_transfer_busy wid (pos 1) s.globals;
  copy = marked i;
}
copy_step timeout wid (marked i) s = record s {
  copy = if stopped s.globals wid then releasing i else working i;
}
copy_step timeout wid (working i) s = record s {
  copy = if timeout then hanging i else releasing i;
  calls =
      let g = s.globals in
      let wait = wait_for_fence (g.window_wsi wid).device (g.transfer_fences wid) in
      s.calls ++ (if timeout then wait ∷ [] else wait ∷ copy_calls wid (g.transfer_ring i) g);
}
copy_step timeout wid (hanging i) s = record s { globals = free_job i s.globals; copy = stopping }
copy_step timeout wid stopping s = record s {
  globals = set_wsi wid (pos 0) s.globals;
  copy = closing;
}
copy_step timeout wid (releasing i) s = record s { globals = free_job i s.globals; copy = closing }
copy_step timeout wid closing s = record s {
  globals = set_transfer_busy wid (pos 0) s.globals;
  copy = elsewhere;
}

-- What the other threads, and the jobs and calls for other windows, leave of the two flags of window
-- `w`: nobody else writes `g_transfer_busy`, and all others that write `g_wsi_state` store 0.
pub record KeepsCopyFlags {fl : Floats} (w : ℕ) (g g' : Globals fl) : Type 0 where
  pub transfer_busy : g'.transfer_busy w ≡ g.transfer_busy w
  pub wsi_state : (g'.wsi_state w ≡ g.wsi_state w) ⊎ (g'.wsi_state w ≡ pos 0)

-- `find` is the load of a status that is 2, of a job for the window; `call` and `give_up` are the
-- beginning of `vx_stream_init` and the end of its timeout.
pub data CopyMeetStep {fl : Floats} (w : ℕ) (s : CopyMeeting fl) : CopyMeeting fl → Type 0 where
  find :
      (i : ℕ)
      → s.copy ≡ elsewhere
      → (s.globals.transfer_ring i).status ≡ pos 2
      → (s.globals.transfer_ring i).target_window_id ≡ pos w
      → CopyMeetStep w s (record s { copy = found i })
  transfer : (timeout : Bool) → CopyMeetStep w s (copy_step timeout w s.copy s)
  call :
      (wsi : RenderThreadInit)
      → s.init ≡ outside
      → CopyMeetStep w s (record s { globals = set_wsi w (pos 0) s.globals; init = waiting wsi })
  init : CopyMeetStep w s (record s {
    globals = (init_step w s.init s.globals).1;
    init = (init_step w s.init s.globals).0;
  })
  give_up :
      (wsi : RenderThreadInit)
      → s.init ≡ waiting wsi
      → CopyMeetStep w s (record s { init = outside })
  others :
      (g : Globals fl) → KeepsCopyFlags w s.globals g → CopyMeetStep w s (record s { globals = g })

pub data CopyMeetReach {fl : Floats} (w : ℕ) (s : CopyMeeting fl) : CopyMeeting fl → Type 0 where
  here : CopyMeetReach w s s
  next : {t u : CopyMeeting fl} → CopyMeetReach w s t → CopyMeetStep w t u → CopyMeetReach w s u
