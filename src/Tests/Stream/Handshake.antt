-- ===== src/Tests/Stream/Handshake.antt =====
-- The render thread and a restart of window 0 that meet, with a packet waiting in slot 0.
use chess_rts.Base.{ℕ, ◌≡◌, ◌≢◌, refl, false, some, ◌*◌, ◌+◌, arith}
use chess_rts.Base.Int.{pos, minus_one}
use chess_rts.State.{RenderRing, Globals}
use chess_rts.Ring.{quiet, vx_stream_acquire}
use chess_rts.Render.{new_local_read, took, render_take}
use chess_rts.Boot.{set_wsi}
use chess_rts.Render.Handshake.{
  picked, outside, copying, Meeting, render_step, init_step, MeetReach, here, next, render, call,
  init,
}
use chess_rts.Render.Handshake.Phase.{is_drawing}
use chess_rts.Render.Handshake.Exclude.{MeetReach-exclusive}
use chess_rts.Render.Handshake.Late.{apart, late_claim}
use chess_rts.Tests.{whole, a_wsi, fresh_ring, some_globals}
use chess_rts.Tests.Stream.{answers}

-- A packet is committed in slot 0.
abbrev waiting_globals : Globals whole
waiting_globals = record some_globals { ring = record fresh_ring { ready_idx = λ _. pos 0 } }

-- The render thread has loaded both indices, and the call is about to copy the handles.
abbrev meeting : Meeting whole
meeting = record (apart (set_wsi 0 (pos 0) waiting_globals) 0) {
  render = picked (pos 0);
  init = copying a_wsi;
}

meeting_reached : MeetReach 0 (apart waiting_globals 0) meeting
unfolding render_step init_step new_local_read
meeting_reached =
    next
      (next (next (next (next here (render answers refl)) (render answers refl)) (call a_wsi refl))
        init)
      init

MeetReach-exclusive_example : is_drawing meeting.render ≡ false
MeetReach-exclusive_example =
    MeetReach-exclusive {s = apart waiting_globals 0} {t = meeting} refl refl refl meeting_reached
      refl

late_claim_example :
    (t : Meeting whole) × MeetReach 0 (apart waiting_globals 0) t
    × (t.init ≡ outside)
    × (t.globals.wsi_state 0 ≡ pos 1)
    × (t.globals.ring.ready_idx 0 ≡ minus_one)
    × ((mask : ℕ) × (vx_stream_acquire (pos 0) t.globals.ring quiet
          ≡ some (pos (0 * 4 + 0), record (t.globals.ring) { locked_mask = mask })))
    × ((max_frames k frame : ℕ) (r ring : RenderRing)
        → r.local_read 0 ≡ t.globals.ring.local_read 0
        → render_take 0 max_frames k r ≢ took (pos (0 * 4 + 0)) frame ring)
unfolding new_local_read
late_claim_example =
    late_claim 0 0 a_wsi waiting_globals 0 (omega arith) (omega arith) refl refl refl refl
