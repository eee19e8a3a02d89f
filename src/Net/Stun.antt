-- ===== src/Net/Stun.antt =====
-- `vx_net_stun_punch`: ask a STUN server for the public address of the socket.
pub mod Safe
pub mod Encode
pub mod Answer
use chess_rts.Base.{
  ℕ, zero, suc, ◌+◌, ◌*◌, ◌%◌, ◌/◌, ◌^◌, bit_and, bit_or, bit_xor, Bool, true, false, ◌&&◌, Option,
  none, some, List, [], ◌∷◌, if◌then◌else◌, ltb, leb, ◌==◌, length, get_elem?,
}
use chess_rts.Base.Bits.{bit_not}

-- What the search for the XOR-MAPPED-ADDRESS attribute ends with. `overrun` is a read past the
-- bytes that were received, `stuck` that the fuel ran out.
pub data Parsed : Type 0 where
  mapped : (ip port : ℕ) → Parsed
  absent : Parsed
  overrun : Parsed
  stuck : Parsed

-- `(hi << width) | lo`, cut to twice the width, if both could be read.
abbrev pub join : ℕ → Option ℕ → Option ℕ → Option ℕ
join width (some hi) (some lo) = some (bit_or (hi * 2 ^ width) lo % 2 ^ (2 * width))
join width (some hi) none = none
join width none lo = none

-- `(resp[i] << 8) | resp[i + 1]` in a uint16_t
pub read_u16 : List ℕ → ℕ → Option ℕ
read_u16 resp i = join 8 (get_elem? resp i) (get_elem? resp (i + 1))

-- `(resp[i] << 24) | … | resp[i + 3]` in a uint32_t
pub read_u32 : List ℕ → ℕ → Option ℕ
read_u32 resp i = join 16 (read_u16 resp i) (read_u16 resp (i + 2))

abbrev pub magic_cookie : ℕ
magic_cookie = 0x2112A442

-- The body of the attribute at `offset`, once its type is known to be 0x0020: `none` goes on to
-- the next attribute.
pub mapped_address : List ℕ → (offset attr_len : ℕ) → Option Parsed
mapped_address resp offset attr_len =
    if leb 8 attr_len && leb (offset + 12) (length resp)
    then elim (get_elem? resp (offset + 5)) [
      | none ↦ some overrun
      | some family ↦
          if family == 0x01
          then elim (read_u16 resp (offset + 6)) [
            | none ↦ some overrun
            | some xport ↦ elim (read_u32 resp (offset + 8)) [
              | none ↦ some overrun
              | some xip ↦ some (mapped (bit_xor xip magic_cookie) (bit_xor xport 0x2112))
            ]
          ]
          else none
    ]
    else none

-- `(attr_len + 3) & ~3`
abbrev pub padded_len : ℕ → ℕ
padded_len attr_len = bit_and (attr_len + 3) (bit_not 32 3)

-- `while (offset < 20 + msg_len && offset + 4 <= recvd)`, with `recvd` the length of `resp`.
pub find_mapped : ℕ → List ℕ → (msg_len offset : ℕ) → Parsed
find_mapped zero resp msg_len offset = stuck
find_mapped (suc fuel) resp msg_len offset =
    elim (ltb offset (20 + msg_len) && leb (offset + 4) (length resp)) [
      | false ↦ absent
      | true ↦ elim (read_u16 resp offset) [
        | none ↦ overrun
        | some attr_type ↦ elim (read_u16 resp (offset + 2)) [
          | none ↦ overrun
          | some attr_len ↦
              elim (if attr_type == 0x0020 then mapped_address resp offset attr_len else none) [
                | some result ↦ result
                | none ↦ find_mapped fuel resp msg_len (offset + (4 + padded_len attr_len))
              ]
        ]
      ]
    ]

-- One response: the attributes stand behind a header of 20 bytes.
pub parse_response : List ℕ → Parsed
parse_response resp =
    if leb 20 (length resp)
    then elim (read_u16 resp 2) [
      | none ↦ overrun
      | some msg_len ↦ find_mapped (length resp) resp msg_len 20
    ]
    else absent

-- The 20 bytes of the request.
abbrev pub stun_request : List ℕ
stun_request =
    0x00 ∷ 0x01 ∷ 0 ∷ 0 ∷ 0x21 ∷ 0x12 ∷ 0xA4 ∷ 0x42 ∷ 8 ∷ 9 ∷ 10 ∷ 11 ∷ 12 ∷ 13 ∷ 14 ∷ 15 ∷ 16 ∷ 17
    ∷ 18 ∷ 19 ∷ []

-- What `recvfrom` gives in each round of the wait: nothing, or a datagram of at most 1024 bytes.
abbrev pub Inbox : Type 0
Inbox = List (Option (List ℕ))

-- The 50 rounds of the wait. `resp` is read only below `recvd`, so the bytes that an earlier
-- datagram has left behind it play no part.
pub stun_wait : ℕ → Inbox → Parsed
stun_wait zero inbox = absent
stun_wait (suc rounds) [] = absent
stun_wait (suc rounds) (none ∷ inbox) = stun_wait rounds inbox
stun_wait (suc rounds) (some resp ∷ inbox) = elim (parse_response resp) [
  | mapped ip port ↦ mapped ip port
  | absent ↦ stun_wait rounds inbox
  | overrun ↦ overrun
  | stuck ↦ stuck
]

-- The datagram that is sent, if any, and the outcome: `mapped` is the return of 1.
pub vx_net_stun_punch : Option ℕ → Inbox → Option (List ℕ) × Parsed
vx_net_stun_punch none inbox = (none, absent)
vx_net_stun_punch (some sock) inbox = (some stun_request, stun_wait 50 inbox)
