-- ===== src/Tests/Stream/Contents.antt =====
-- A packet on its way from the Lua thread.
use chess_rts.Base.{◌≤◌, ◌≡◌, refl, none, List, [], ◌∷◌, ◌++◌, arith, length}
use chess_rts.Base.Int.{pos}
use chess_rts.State.{RenderPacket}
use chess_rts.Ring.{vx_stream_commit}
use chess_rts.Render.Fifo.Contents.{
  Contents, with_ring, stored, ContentReach, start, later, acquire, fill, commit,
}
use chess_rts.Render.Fifo.Contents.Drawn.{drawn-sent}
use chess_rts.Boot.Fresh.{at_rest}
use chess_rts.Tests.{fresh_ring, a_packet}
use chess_rts.Tests.Stream.{fresh, acquired, holding_one}

abbrev wide : RenderPacket
wide = record a_packet { width = 1920; height = 1080 }

abbrev filled_one : Contents
filled_one =
    with_ring (stored 0 wide holding_one.ring) (record { sys = holding_one; sent = []; drawn = [] })

-- The packet that was filled into slot 0 is committed.
abbrev sent_one : Contents
sent_one = record filled_one {
  sys = record (filled_one.sys) {
    ring = vx_stream_commit (pos 0) (pos 0) filled_one.sys.ring;
    holding = none;
    committed = pos 0 ∷ [];
  };
  sent = wide ∷ [];
}

ContentReach-sent : ContentReach 0 2 sent_one
ContentReach-sent =
    later
      (later
        (later
          (start {s = record { sys = at_rest fresh_ring 0; sent = []; drawn = [] }} fresh refl refl)
          (acquire refl acquired))
        (fill {g = 0} wide refl))
      (commit {g = 0} refl)

drawn-sent_example :
    (waiting : List RenderPacket) × (wide ∷ [] ≡ [] ++ waiting) × (length waiting ≤ 4)
drawn-sent_example = drawn-sent {w = 0} {m = 2} {s = sent_one} (omega arith) ContentReach-sent
