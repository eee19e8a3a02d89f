-- ===== src/Tests/Kills.antt =====
-- A window that is killed while the render thread and the transfer thread turn to it.
use chess_rts.Base.{[]}
use chess_rts.Base.Int.{pos}
use chess_rts.Render.Handshake.{away, loaded}
use chess_rts.Boot.{set_wsi}
use chess_rts.Transfer.Handshake.{elsewhere, found}
use chess_rts.Tenant.Kill.{serving, destroying, Crowd, render, kill}
use chess_rts.Tests.{whole}
use chess_rts.Tests.Copies.{job_globals}

abbrev crowd : Crowd whole
crowd = record {
  globals = job_globals;
  t_frame = 0;
  render = away;
  copy = elsewhere;
  kill = serving;
  frame_calls = [];
  copy_calls = [];
}

abbrev killed_crowd : Crowd whole
killed_crowd = record crowd {
  globals = set_wsi 0 (pos 0) job_globals;
  render = loaded (job_globals.ring.ready_idx 0);
  copy = found 0;
  kill = destroying;
}
