-- ===== src/Tests/Layout.antt =====
-- The layouts at work: the sizes that the declarations are padded to, and the theorems at one packet and
-- one place in memory.
use chess_rts.Base.{ℕ, ◌<◌, ◌≡◌, refl, some, length}
use chess_rts.Net.Receive.{ice_punch_size, lockstep_header}
use chess_rts.Net.Receive.Wire.{history_len, put_lockstep, put_punch}
use chess_rts.Layout.{size_of, align_of, offset_of}
use chess_rts.Layout.Network.{
  player_command, lockstep_packet, rx_packet, network_frame, rollback_buffer, lab_world_state,
  ice_punch_packet,
}
use chess_rts.Layout.Shared.{
  mat4_t, render_thread_init, rts_tile_instance, push_constants, draw_command, render_packet,
  engine_state, tenant_mailbox,
}
use chess_rts.Layout.Packets.{
  LockstepFields, PunchFields, CommandAt, CommandFields, packets_laid_out,
}
use chess_rts.Layout.Lines.{TenantsApart, PacketsApart, IndicesApart, JobsApart, lines_apart}
use chess_rts.Tests.Wire.{a_lockstep, a_punch}

-- The block of `push_constants` in a draw command holds the push constants.
padded :
    (size_of mat4_t ≡ 64)
    × (size_of push_constants ≡ 96)
    × (size_of rts_tile_instance ≡ 16)
    × (size_of draw_command ≡ 184)
    × (size_of render_packet ≡ 128)
    × (size_of render_thread_init ≡ 544)
unfolding size_of
padded = (refl, refl, refl, refl, refl, refl)

frames :
    (size_of rx_packet ≡ 4098)
    × (size_of network_frame ≡ 144)
    × (size_of rollback_buffer ≡ 73792)
    × (offset_of "frames" rollback_buffer ≡ some 16)
    × (size_of lab_world_state ≡ 100)
    × (size_of engine_state ≡ 640)
unfolding size_of offset_of
frames = (refl, refl, refl, refl, refl, refl)

packets_laid_out_example :
    LockstepFields a_lockstep
    × ((i j : ℕ)
        → i < history_len
        → j < 2
        → CommandAt a_lockstep i j × CommandFields (a_lockstep.commands i j))
    × PunchFields a_punch
    × (length (put_lockstep a_lockstep) ≡ size_of lockstep_packet)
    × (length (put_punch a_punch) ≡ size_of ice_punch_packet)
    × ((size_of player_command ≡ 8) × (size_of ice_punch_packet ≡ 40))
    × ((size_of ice_punch_packet ≡ ice_punch_size)
        × (offset_of "commands" lockstep_packet ≡ some lockstep_header))
packets_laid_out_example = packets_laid_out a_lockstep a_punch

lines_apart_example :
    TenantsApart 4096
    × (size_of tenant_mailbox ≡ 128)
    × PacketsApart 8192
    × IndicesApart 8192
    × JobsApart 64
unfolding align_of
lines_apart_example = lines_apart 4096 8192 64 refl refl refl
