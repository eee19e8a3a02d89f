-- ===== src/Tests/Wire.antt =====
-- Packets of both formats on the wire.
use chess_rts.Base.{◌+◌, refl, true, arith, take}
use chess_rts.Base.Int.{pos}
use chess_rts.Net.Receive.{vx_net_recv_all}
use chess_rts.Net.Receive.Bounds.{Bounded, recv_all-Bounded}
use chess_rts.Net.Receive.Wire.{
  PlayerCommand, LockstepPacket, IcePunchPacket, put_lockstep, put_punch,
}
use chess_rts.Net.Receive.Wire.Accept.{Accepted, recv_one-put}
use chess_rts.Tests.Transport.{an_address, a_net, an_inbox}

abbrev a_command : PlayerCommand
a_command = record { target_pos = 70000; target_id = 12; opcode = 3; flags = 1 }

abbrev pub a_lockstep : LockstepPacket
a_lockstep = record {
  session_token = 9;
  player_id = 1;
  is_ping = 0;
  history_count = 2;
  reserved = 0;
  frame_tick = 100;
  checksum_tick = 90;
  state_checksum = 1234567;
  base_tick = 98;
  peer_acks = λ i. i + 90;
  commands = λ _ _. a_command;
}

abbrev pub a_punch : IcePunchPacket
a_punch = record {
  session_token = 9;
  player_id = 2;
  is_ping = 1;
  reserved16 = 0;
  frame_tick = 0;
  checksum_tick = 0;
  state_checksum = 0;
  base_tick = 0;
  padding = λ _. 0;
}

-- The lockstep packet with the commands of two ticks.
recv_one-put_example :
    Accepted a_net (put_punch a_punch) an_address 2
    × Accepted a_net (take 92 (put_lockstep a_lockstep)) an_address 1
recv_one-put_example =
    recv_one-put a_net an_address a_punch a_lockstep 92 (omega arith) refl (omega arith) refl
      (omega arith) (omega arith)

recv_all-Bounded_example : Bounded 4 an_inbox (vx_net_recv_all true (pos 4) a_net an_inbox)
recv_all-Bounded_example = recv_all-Bounded a_net an_inbox 4 5 refl
