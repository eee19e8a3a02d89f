-- ===== src/Layout/Packets.antt =====
-- The packed packets of network/protocol/shared_structs.h: the bytes that are put on the wire are those
-- of the structures as C lays them out.
use chess_rts.Base.{
  ℕ, zero, suc, ◌+◌, ◌-◌, ◌*◌, ◌<◌, ◌≡◌, refl, ap, sym, ◌∙◌, some, List, [], ◌∷◌, ◌++◌, arith,
  length, take, drop,
}
use Prim.Native.String.{String}
use chess_rts.Net.Receive.{ice_punch_size, lockstep_header}
use chess_rts.Net.Receive.Wire.{
  max_players, history_len, PlayerCommand, LockstepPacket, IcePunchPacket, put_word, put_array,
  put_command, put_tick, put_lockstep_header, put_lockstep, put_punch,
}
use chess_rts.Net.Receive.Wire.Header.{sizes_lem}
use chess_rts.Layout.{CType, size_of, offset_of}
use chess_rts.Layout.Network.{player_command, lockstep_packet, ice_punch_packet}

drop-append : {A : Type 0} (xs ys : List A) (k : ℕ) → drop (length xs + k) (xs ++ ys) ≡ drop k ys
drop-append [] ys k = ap (λ n. drop n ys) {x = 0 + k} {y = k} (omega arith)
drop-append (x ∷ xs) ys k =
    ap (λ n. drop n (x ∷ xs ++ ys)) {x = suc (length xs) + k} {y = suc (length xs + k)}
      (omega arith)
    ∙ drop-append xs ys k

three : {a a' b b' c c' : ℕ} → a ≡ a' → b ≡ b' → c ≡ c' → ◌≡◌ {A = ℕ × ℕ × ℕ} (a, b, c) (a', b', c')
three e f g = rw (e, f, g) refl

-- Behind `j` elements of an array.
drop-put_array :
    (put : ℕ → List ℕ) (w : ℕ)
    → ((i : ℕ) → length (put i) ≡ w)
    → (j left i : ℕ) → j < left
    → drop (j * w) (put_array put left i) ≡ put (i + j) ++ put_array put (left - j - 1) (i + j + 1)
drop-put_array put w each j zero i lt = absurd (omega arith)
drop-put_array put w each zero (suc left) i lt =
    ap (λ n. drop n (put_array put (suc left) i)) {x = 0 * w} {y = 0} (omega arith)
    ∙ ap (λ (s : ℕ × ℕ × ℕ). put s.0 ++ put_array put s.1 s.2) {x = (i, left, i + 1)}
        {y = (i + 0, suc left - 0 - 1, i + 0 + 1)} (three (omega arith) (omega arith) (omega arith))
drop-put_array put w each (suc j) (suc left) i lt =
    ap (λ n. drop n (put i ++ put_array put left (i + 1))) {x = suc j * w}
      {y = length (put i) + j * w} (omega (arith, each i))
    ∙ drop-append (put i) (put_array put left (i + 1)) (j * w)
    ∙ drop-put_array put w each j left (i + 1) (omega arith)
    ∙ ap (λ (s : ℕ × ℕ × ℕ). put s.0 ++ put_array put s.1 s.2)
        {x = (i + 1 + j, left - j - 1, i + 1 + j + 1)}
        {y = (i + suc j, suc left - suc j - 1, i + suc j + 1)}
        (three (omega arith) (omega arith) (omega arith))

-- The field of that name has these bytes.
abbrev pub FieldAt : CType → String → (field bytes : List ℕ) → Type 0
FieldAt t name field bytes =
    (k : ℕ) × (offset_of name t ≡ some k) × (take (length field) (drop k bytes) ≡ field)

-- The fields of a lockstep packet.
abbrev pub LockstepFields : LockstepPacket → Type 0
LockstepFields p =
    FieldAt lockstep_packet "session_token" (put_word 8 p.session_token) (put_lockstep p)
    × FieldAt lockstep_packet "player_id" (put_word 1 p.player_id) (put_lockstep p)
    × FieldAt lockstep_packet "is_ping" (put_word 1 p.is_ping) (put_lockstep p)
    × FieldAt lockstep_packet "history_count" (put_word 1 p.history_count) (put_lockstep p)
    × FieldAt lockstep_packet "_reserved" (put_word 1 p.reserved) (put_lockstep p)
    × FieldAt lockstep_packet "frame_tick" (put_word 4 p.frame_tick) (put_lockstep p)
    × FieldAt lockstep_packet "checksum_tick" (put_word 4 p.checksum_tick) (put_lockstep p)
    × FieldAt lockstep_packet "state_checksum" (put_word 4 p.state_checksum) (put_lockstep p)
    × FieldAt lockstep_packet "base_tick" (put_word 4 p.base_tick) (put_lockstep p)
    × FieldAt lockstep_packet "peer_acks"
        (put_array (λ i. put_word 4 (p.peer_acks i)) max_players 0) (put_lockstep p)

lockstep_fields : (p : LockstepPacket) → LockstepFields p
unfolding put_lockstep offset_of
lockstep_fields p = (
  (0, refl, refl),
  (8, refl, refl),
  (9, refl, refl),
  (10, refl, refl),
  (11, refl, refl),
  (12, refl, refl),
  (16, refl, refl),
  (20, refl, refl),
  (24, refl, refl),
  (28, refl, refl),
)

abbrev pub PunchFields : IcePunchPacket → Type 0
PunchFields p =
    FieldAt ice_punch_packet "session_token" (put_word 8 p.session_token) (put_punch p)
    × FieldAt ice_punch_packet "player_id" (put_word 1 p.player_id) (put_punch p)
    × FieldAt ice_punch_packet "is_ping" (put_word 1 p.is_ping) (put_punch p)
    × FieldAt ice_punch_packet "_reserved16" (put_word 2 p.reserved16) (put_punch p)
    × FieldAt ice_punch_packet "frame_tick" (put_word 4 p.frame_tick) (put_punch p)
    × FieldAt ice_punch_packet "checksum_tick" (put_word 4 p.checksum_tick) (put_punch p)
    × FieldAt ice_punch_packet "state_checksum" (put_word 4 p.state_checksum) (put_punch p)
    × FieldAt ice_punch_packet "base_tick" (put_word 4 p.base_tick) (put_punch p)
    × FieldAt ice_punch_packet "padding" (put_array (λ i. put_word 4 (p.padding i)) 3 0)
        (put_punch p)

punch_fields : (p : IcePunchPacket) → PunchFields p
unfolding put_punch offset_of
punch_fields p = (
  (0, refl, refl),
  (8, refl, refl),
  (9, refl, refl),
  (10, refl, refl),
  (12, refl, refl),
  (16, refl, refl),
  (20, refl, refl),
  (24, refl, refl),
  (28, refl, refl),
)

abbrev pub CommandFields : PlayerCommand → Type 0
CommandFields c =
    FieldAt player_command "target_pos" (put_word 4 c.target_pos) (put_command c)
    × FieldAt player_command "target_id" (put_word 2 c.target_id) (put_command c)
    × FieldAt player_command "opcode" (put_word 1 c.opcode) (put_command c)
    × FieldAt player_command "flags" (put_word 1 c.flags) (put_command c)

command_fields : (c : PlayerCommand) → CommandFields c
unfolding offset_of
command_fields c = ((0, refl, refl), (4, refl, refl), (6, refl, refl), (7, refl, refl))

-- The command `j` of tick `i`, in an array of ticks with two commands each.
abbrev pub CommandAt : LockstepPacket → (i j : ℕ) → Type 0
CommandAt p i j =
    (k : ℕ) × (offset_of "commands" lockstep_packet ≡ some k)
    × (take 8 (drop (k + (i * 16 + j * 8)) (put_lockstep p)) ≡ put_command (p.commands i j))

drop_nil : {A : Type 0} (n : ℕ) → drop {A = A} n [] ≡ []
drop_nil zero = refl
drop_nil (suc n) = refl

drop-add : {A : Type 0} (a b : ℕ) (xs : List A) → drop (a + b) xs ≡ drop b (drop a xs)
drop-add zero b xs = ap (λ n. drop n xs) {x = 0 + b} {y = b} (omega arith)
drop-add (suc a) b [] = drop_nil (suc a + b) ∙ sym (drop_nil b)
drop-add (suc a) b (x ∷ xs) =
    ap (λ n. drop n (x ∷ xs)) {x = suc a + b} {y = suc (a + b)} (omega arith) ∙ drop-add a b xs

in_tick :
    (p : LockstepPacket) (i j : ℕ) (rest : List ℕ)
    → j < 2
    → take 8 (drop (j * 8) (put_tick p i ++ rest)) ≡ put_command (p.commands i j)
in_tick p i zero rest lt = refl
in_tick p i (suc zero) rest lt = refl
in_tick p i (suc (suc j)) rest lt = absurd (omega arith)

command_lem : (p : LockstepPacket) (i j : ℕ) → i < history_len → j < 2 → CommandAt p i j
unfolding put_lockstep offset_of
command_lem p i j lt lt' = (
  60,
  refl,
  ap (take 8) (
        drop-append (put_lockstep_header p) (put_array (put_tick p) history_len 0) (i * 16 + j * 8)
        ∙ drop-add (i * 16) (j * 8) (put_array (put_tick p) history_len 0)
        ∙ ap (drop (j * 8)) (drop-put_array (put_tick p) 16 (λ i. refl) i history_len 0 lt))
      ∙ in_tick p (0 + i) j _ lt'
      ∙ ap (λ k. put_command (p.commands k j)) {x = 0 + i} {y = i} (omega arith),
)

-- What C makes of the declarations is what is put on the wire, for every packet: each field of
-- a lockstep packet, of a command in it and of a punch has its bytes at the offset that C gives it, and
-- the sizes are C's. They are the sizes that the header asserts (8 for a command, 40 for a punch), and
-- `sizeof` and `offsetof` in the receive loop are the numbers that it goes by.
pub packets_laid_out :
    (p : LockstepPacket) (q : IcePunchPacket)
    → LockstepFields p
      × ((i j : ℕ) → i < history_len → j < 2 → CommandAt p i j × CommandFields (p.commands i j))
      × PunchFields q
      × (length (put_lockstep p) ≡ size_of lockstep_packet)
      × (length (put_punch q) ≡ size_of ice_punch_packet)
      × ((size_of player_command ≡ 8) × (size_of ice_punch_packet ≡ 40))
      × ((size_of ice_punch_packet ≡ ice_punch_size)
          × (offset_of "commands" lockstep_packet ≡ some lockstep_header))
unfolding size_of offset_of
packets_laid_out p q = (
  lockstep_fields p,
  λ i j lt lt'. (command_lem p i j lt lt', command_fields (p.commands i j)),
  punch_fields q,
  (sizes_lem q p (p.commands 0 0)).3,
  (sizes_lem q p (p.commands 0 0)).0,
  (refl, refl),
  (refl, refl),
)
