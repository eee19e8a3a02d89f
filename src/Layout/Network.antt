-- ===== src/Layout/Network.antt =====
-- network/protocol/shared_structs.h: the packets on the wire, the receive buffer, and the frames of the
-- lockstep code, which the Lua side reads through the same declarations.
use chess_rts.Base.{ℕ, true, false}
use chess_rts.Net.Receive.{max_packet_size}
use chess_rts.Net.Receive.Wire.{max_players, history_len}
use chess_rts.Layout.{CType, array, struct, end, ◌▹◌, var, u8, u16, u32, u64, i32}

abbrev pub cfg_ring_size : ℕ
cfg_ring_size = 512

abbrev pub player_command : CType
player_command =
    struct true 1
      (var "target_pos" u32 ▹ var "target_id" u16 ▹ var "opcode" u8 ▹ var "flags" u8 ▹ end)

abbrev pub lockstep_packet : CType
lockstep_packet = struct true 1 (
    var "session_token" u64
    ▹ var "player_id" u8
    ▹ var "is_ping" u8
    ▹ var "history_count" u8
    ▹ var "_reserved" u8
    ▹ var "frame_tick" u32
    ▹ var "checksum_tick" u32
    ▹ var "state_checksum" u32
    ▹ var "base_tick" u32
    ▹ var "peer_acks" (array max_players u32)
    ▹ var "commands" (array history_len (array 2 player_command))
    ▹ end)

abbrev pub ice_punch_packet : CType
ice_punch_packet = struct true 1 (
    var "session_token" u64
    ▹ var "player_id" u8
    ▹ var "is_ping" u8
    ▹ var "_reserved16" u16
    ▹ var "frame_tick" u32
    ▹ var "checksum_tick" u32
    ▹ var "state_checksum" u32
    ▹ var "base_tick" u32
    ▹ var "padding" (array 3 u32)
    ▹ end)

abbrev pub rx_packet : CType
rx_packet = struct false 1 (var "len" u16 ▹ var "data" (array max_packet_size u8) ▹ end)

abbrev pub network_frame : CType
network_frame = struct false 4 (
    var "tick" u32
    ▹ var "state_checksum" u32
    ▹ var "remote_checksum" u32
    ▹ var "state" u8
    ▹ var "remote_peer_id" u8
    ▹ var "_pad" u16
    ▹ var "commands" (array max_players (array 2 player_command))
    ▹ end)

abbrev pub rollback_buffer : CType
rollback_buffer = struct false 64 (
    var "head_tick" u32
    ▹ var "confirmed_tick" u32
    ▹ var "rollback_target" u32
    ▹ var "is_rollback_active" u8
    ▹ var "_pad" (array 3 u8)
    ▹ var "frames" (array cfg_ring_size network_frame)
    ▹ end)

abbrev pub lab_player_entity : CType
lab_player_entity = struct false 1 (var "x" i32 ▹ var "y" i32 ▹ var "status" u32 ▹ end)

abbrev pub lab_world_state : CType
lab_world_state =
    struct false 1
      (var "global_tick" u32 ▹ var "players" (array max_players lab_player_entity) ▹ end)
