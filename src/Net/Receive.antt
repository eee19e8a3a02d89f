-- ===== src/Net/Receive.antt =====
-- `vx_net_recv_all`, the one way in for datagrams, `vx_net_send_to`, and the setters of the session.
-- The datagrams that wait in the socket are a list, oldest first; its end is the negative return
-- of `recvfrom`. The host stores words with the low byte first.
pub mod Filter
pub mod Peers
pub mod Bounds
pub mod Wire
use chess_rts.Base.{
  ℕ, zero, suc, ◌+◌, ◌*◌, ◌%◌, ◌^◌, Bool, true, false, ◌&&◌, ◌||◌, not, Option, none, some, List,
  [], ◌∷◌, if◌then◌else◌, ltb, leb, ◌==◌, length, get_or, take, drop, update,
}
use chess_rts.Base.Int.{ℤ, pos, negsuc}
use chess_rts.Net.{SockAddr, NetPeer, NetState, max_peers}

abbrev pub max_packet_size : ℕ
max_packet_size = 4096

-- `sizeof(IcePunchPacket)` and `offsetof(LockstepPacket, commands)`, both packed.
abbrev pub ice_punch_size : ℕ
ice_punch_size = 40

abbrev pub lockstep_header : ℕ
lockstep_header = 60

pub record Datagram : Type 0 where
  pub bytes : List ℕ
  pub from : SockAddr

-- `recvfrom` keeps what fits the buffer of the packet.
abbrev pub received : Datagram → List ℕ
received d = take max_packet_size d.bytes

-- `RxPacket`: its length is the number of bytes kept.
pub record RxPacket : Type 0 where
  pub len : ℕ
  pub payload : List ℕ

-- The value of a packed little-endian word.
abbrev pub word : List ℕ → ℕ
word [] = 0
word (b ∷ bytes) = b + 256 * word bytes

-- `session_token` and `player_id` stand at bytes 0 and 8 of both packet formats.
pub record Header : Type 0 where
  pub token : ℕ
  pub pid : ℕ

abbrev pub header_of : List ℕ → Header
header_of payload = record { token = word (take 8 payload); pid = get_or payload 8 0 }

-- The discriminator on the length: a punch, a lockstep packet, or a malformed one (`none`).
pub discriminate : List ℕ → Option Header
discriminate payload =
    if length payload == ice_punch_size
    then some (header_of payload)
    else if leb lockstep_header (length payload)
    then some (header_of payload)
    else none

-- The sender's address becomes the peer's, unless it is the relay's.
pub learn : NetState → ℕ → SockAddr → NetState
learn net pid from =
    if ltb pid max_peers && not (from.s_addr == net.relay_ip_addr)
    then record net { peers = update net.peers pid (record { addr = from; active = 1 }) }
    else net

-- One datagram: the packet, if it is kept, and the state.
pub recv_one : NetState → Datagram → Option RxPacket × NetState
recv_one net d = elim (discriminate (received d)) [
  | none ↦ (none, net)
  | some h ↦
      if h.token == net.session_token
      then (
        some (record { len = length (received d) % 2 ^ 16; payload = received d }),
        learn net h.pid d.from,
      )
      else (none, net)
]

-- What a call returns: the packets in `out_buffer`, the state, and the datagrams still waiting.
pub record Received : Type 0 where
  pub packets : List RxPacket
  pub net : NetState
  pub waiting : List Datagram

abbrev pub keep : Option RxPacket → Received → Received
keep none r = r
keep (some p) r = record r { packets = p ∷ r.packets }

-- `while (count < max_count)`, with `left` the room that is left.
pub recv_loop : ℕ → NetState → List Datagram → Received
recv_loop zero net inbox = record { packets = []; net = net; waiting = inbox }
recv_loop (suc left) net [] = record { packets = []; net = net; waiting = [] }
recv_loop (suc left) net (d ∷ inbox) =
    let (packet, net') = recv_one net d in
    elim packet [
      | none ↦ recv_loop (suc left) net' inbox
      | some p ↦ keep (some p) (recv_loop left net' inbox)
    ]

-- `out_buffer` is whether the caller gives a buffer, which is to have room for `max_count` packets.
pub vx_net_recv_all : (out_buffer : Bool) → ℤ → NetState → List Datagram → Received
vx_net_recv_all false max_count net inbox = record { packets = []; net = net; waiting = inbox }
vx_net_recv_all true (negsuc _) net inbox = record { packets = []; net = net; waiting = inbox }
vx_net_recv_all true (pos max_count) net inbox = elim net.sock [
  | none ↦ record { packets = []; net = net; waiting = inbox }
  | some _ ↦ recv_loop max_count net inbox
]

-- Where the bytes go, if they are sent at all; `data` is `none` for NULL.
unfoldable pub vx_net_send_to : NetState → Option (List ℕ) → ℕ → Option (SockAddr × List ℕ)
vx_net_send_to net none target_peer = none
vx_net_send_to net (some bytes) target_peer = elim net.sock [
  | none ↦ none
  | some _ ↦
      if leb max_peers target_peer
      then none
      else if (net.peers target_peer).active == 0
      then none
      else some ((net.peers target_peer).addr, bytes)
]

pub vx_net_set_session : ℕ → NetState → NetState
vx_net_set_session token net = record net { session_token = token }

pub vx_net_set_player_id : ℕ → NetState → NetState
vx_net_set_player_id id net = record net { local_id = id }
