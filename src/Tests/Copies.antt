-- ===== src/Tests/Copies.antt =====
-- The transfer thread and a restart of window 0 that meet, with job 0 ready.
use chess_rts.Base.{◌≡◌, refl, false, [], update}
use chess_rts.Base.Int.{pos}
use chess_rts.State.{Globals}
use chess_rts.Boot.{set_wsi}
use chess_rts.Render.Handshake.{outside, copying, init_step}
use chess_rts.Transfer.{Copy, filled}
use chess_rts.Transfer.Handshake.{
  elsewhere, found, CopyMeeting, find, call, init, CopyMeetReach, here, next,
}
use chess_rts.Transfer.Handshake.Exclude.{is_copying, CopyMeetReach-exclusive}
use chess_rts.Tests.{whole, a_wsi, some_globals}

abbrev a_copy : Copy
a_copy = record { src = 1; dst = 2; size = 64; t_sem = 3; sig_val = 4 }

abbrev pub job_globals : Globals whole
job_globals = record some_globals {
  transfer_ring = update some_globals.transfer_ring 0 (filled 0 a_copy);
}

abbrev before : CopyMeeting whole
before = record { globals = job_globals; copy = elsewhere; init = outside; calls = [] }

-- The job is found, and the call is about to copy the handles.
abbrev copy_meeting : CopyMeeting whole
copy_meeting = record before {
  globals = set_wsi 0 (pos 0) job_globals;
  copy = found 0;
  init = copying a_wsi;
}

copy_meeting_reached : CopyMeetReach 0 before copy_meeting
unfolding init_step
copy_meeting_reached =
    next (next (next (next here (find 0 refl refl refl)) (call a_wsi refl)) init) init

CopyMeetReach-exclusive_example : is_copying copy_meeting.copy ≡ false
CopyMeetReach-exclusive_example =
    CopyMeetReach-exclusive {s = before} {t = copy_meeting} refl refl refl copy_meeting_reached refl
