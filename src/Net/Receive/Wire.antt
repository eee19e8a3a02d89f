-- ===== src/Net/Receive/Wire.antt =====
-- network/protocol/shared_structs.h: the packed packets, byte by byte, with the low byte of a word
-- first. An array is a function of the index.
pub mod Header
pub mod Accept
use chess_rts.Base.{ℕ, zero, suc, ◌+◌, ◌*◌, ◌/◌, ◌%◌, List, [], ◌∷◌, ◌++◌}
use chess_rts.Net.{max_peers}

abbrev pub max_players : ℕ
max_players = 8

abbrev pub history_len : ℕ
history_len = 60

pub record PlayerCommand : Type 0 where
  pub target_pos : ℕ
  pub target_id : ℕ
  pub opcode : ℕ
  pub flags : ℕ

pub record LockstepPacket : Type 0 where
  pub session_token : ℕ
  pub player_id : ℕ
  pub is_ping : ℕ
  pub history_count : ℕ
  pub reserved : ℕ
  pub frame_tick : ℕ
  pub checksum_tick : ℕ
  pub state_checksum : ℕ
  pub base_tick : ℕ
  pub peer_acks : ℕ → ℕ
  pub commands : ℕ → ℕ → PlayerCommand

pub record IcePunchPacket : Type 0 where
  pub session_token : ℕ
  pub player_id : ℕ
  pub is_ping : ℕ
  pub reserved16 : ℕ
  pub frame_tick : ℕ
  pub checksum_tick : ℕ
  pub state_checksum : ℕ
  pub base_tick : ℕ
  pub padding : ℕ → ℕ

-- The bytes of a word.
abbrev pub put_word : (bytes value : ℕ) → List ℕ
put_word zero value = []
put_word (suc n) value = value % 256 ∷ put_word n (value / 256)

-- `left` elements of an array from `i` on, each put by `put`.
abbrev pub put_array : (ℕ → List ℕ) → (left i : ℕ) → List ℕ
put_array put zero i = []
put_array put (suc left) i = put i ++ put_array put left (i + 1)

abbrev pub put_command : PlayerCommand → List ℕ
put_command c =
    put_word 4 c.target_pos
    ++ (put_word 2 c.target_id ++ (put_word 1 c.opcode ++ put_word 1 c.flags))

-- The two commands of one tick.
abbrev pub put_tick : LockstepPacket → ℕ → List ℕ
put_tick p tick = put_command (p.commands tick 0) ++ put_command (p.commands tick 1)

-- All up to `commands`.
abbrev pub put_lockstep_header : LockstepPacket → List ℕ
put_lockstep_header p =
    put_word 8 p.session_token
    ++ (put_word 1 p.player_id
        ++ (put_word 1 p.is_ping
            ++ (put_word 1 p.history_count
                ++ (put_word 1 p.reserved
                    ++ (put_word 4 p.frame_tick
                        ++ (put_word 4 p.checksum_tick
                            ++ (put_word 4 p.state_checksum
                                ++ (put_word 4 p.base_tick
                                    ++ put_array (λ i. put_word 4 (p.peer_acks i)) max_players
                                        0))))))))

unfoldable pub put_lockstep : LockstepPacket → List ℕ
put_lockstep p = put_lockstep_header p ++ put_array (put_tick p) history_len 0

unfoldable pub put_punch : IcePunchPacket → List ℕ
put_punch p =
    put_word 8 p.session_token
    ++ (put_word 1 p.player_id
        ++ (put_word 1 p.is_ping
            ++ (put_word 2 p.reserved16
                ++ (put_word 4 p.frame_tick
                    ++ (put_word 4 p.checksum_tick
                        ++ (put_word 4 p.state_checksum
                            ++ (put_word 4 p.base_tick
                                ++ put_array (λ i. put_word 4 (p.padding i)) 3 0)))))))
