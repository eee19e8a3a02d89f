-- ===== src/Net/Socket.antt =====
-- Opening and closing the socket, and the addresses that are set by hand: `vx_net_host`,
-- `vx_net_shutdown`, `vx_net_connect`, `vx_net_set_relay_ip`. What the system calls answer is an
-- argument, and the sockets that are opened and closed are recorded in order.
pub mod Ledger
pub mod Host
pub mod Connect
use chess_rts.Base.{
  ℕ, ◌%◌, ◌^◌, Bool, true, false, Option, none, some, List, [], ◌∷◌, ◌++◌, if◌then◌else◌, leb, ◌==◌,
  update,
}
use chess_rts.Base.Int.{ℤ, pos, minus_one}
use chess_rts.Net.{SockAddr, NetPeer, NetState, Platform, posix, windows, max_peers}

pub data SocketOption : Type 0 where
  reuse_addr receive_buffer send_buffer no_conn_reset : SocketOption

-- `configured` is a `setsockopt`, or the `WSAIoctl` of Windows; the code does not look at what they
-- return.
pub data SocketEvent : Type 0 where
  opened : (sock : ℕ) → SocketEvent
  closed : (sock : ℕ) → SocketEvent
  configured : (sock : ℕ) → SocketOption → SocketEvent
  wsa_startup : SocketEvent
  wsa_cleanup : SocketEvent

-- The answers of `fcntl` to F_GETFL and F_SETFL, and of `ioctlsocket`: whether each succeeds.
pub record NonblockingAnswers : Type 0 where
  pub get_flags_ok : Bool
  pub set_flags_ok : Bool
  pub ioctl_ok : Bool

-- Whether `net_set_nonblocking` returns 0.
pub net_set_nonblocking : Platform → NonblockingAnswers → Bool
net_set_nonblocking posix a = if a.get_flags_ok then a.set_flags_ok else false
net_set_nonblocking windows a = a.ioctl_ok

-- The answers of `WSAStartup` (whether it succeeds), of `socket` (`none` is NET_INVALID), of
-- the calls in `net_set_nonblocking`, of `bind` and `getsockname` (whether they succeed), and the port
-- that the system bound.
pub record HostAnswers : Type 0 where
  pub wsa_startup_ok : Bool
  pub socket : Option ℕ
  pub nonblocking : NonblockingAnswers
  pub bind_ok : Bool
  pub getsockname_ok : Bool
  pub bound_port : ℕ

-- The return value, the state, and the socket events.
pub record HostResult : Type 0 where
  pub value : ℤ
  pub net : NetState
  pub events : List SocketEvent

pub net_cleanup_platform : Platform → NetState → NetState × List SocketEvent
net_cleanup_platform posix net = (net, [])
net_cleanup_platform windows net =
    if net.wsa_initialized
    then (record net { wsa_initialized = false }, wsa_cleanup ∷ [])
    else (net, [])

-- Whether `net_init_platform` returns 0, with the state and the events.
pub net_init_platform : Platform → Bool → NetState → Bool × NetState × List SocketEvent
net_init_platform posix startup_ok net = (true, net, [])
net_init_platform windows startup_ok net =
    if net.wsa_initialized
    then (true, net, [])
    else if startup_ok
    then (true, record net { wsa_initialized = true }, wsa_startup ∷ [])
    else (false, net, [])

-- The socket's part of `vx_net_shutdown`.
pub close_socket : NetState → NetState × List SocketEvent
close_socket net = elim net.sock [
  | none ↦ (net, [])
  | some sock ↦ (record net { sock = none }, closed sock ∷ [])
]

pub vx_net_shutdown : Platform → NetState → NetState × List SocketEvent
vx_net_shutdown platform net =
    let (net', shut) = close_socket net in
    let (net'', cleaned) = net_cleanup_platform platform net' in (net'', shut ++ cleaned)

-- The first line of `vx_net_host`.
pub shut_old : Platform → NetState → NetState × List SocketEvent
shut_old platform net = elim net.sock [ none ↦ (net, []) | some _ ↦ vx_net_shutdown platform net ]

abbrev pub set_options : ℕ → List SocketEvent
set_options sock =
    configured sock reuse_addr ∷ configured sock receive_buffer ∷ configured sock send_buffer ∷ []

-- Only Windows has the last option.
abbrev pub last_option : Platform → ℕ → List SocketEvent
last_option posix sock = []
last_option windows sock = configured sock no_conn_reset ∷ []

-- The calls on the new socket.
pub host_on : Platform → HostAnswers → ℕ → NetState → HostResult
host_on platform a sock net =
    if net_set_nonblocking platform a.nonblocking
    then if a.bind_ok
      then if a.getsockname_ok
        then record {
          value = pos (a.bound_port % 2 ^ 16);
          net = record net { sock = some sock };
          events = opened sock ∷ set_options sock ++ last_option platform sock;
        }
        else failed
      else failed
    else failed
  where
    failed : HostResult
    failed = record {
      value = minus_one;
      net = net;
      events = opened sock ∷ set_options sock ++ closed sock ∷ [];
    }

-- The rest of the call, with the answer of `socket`.
pub host_from : Platform → HostAnswers → Option ℕ → NetState → HostResult
host_from platform a none net = record { value = minus_one; net = net; events = [] }
host_from platform a (some sock) net = host_on platform a sock net

pub vx_net_host : Platform → HostAnswers → NetState → HostResult
vx_net_host platform a net =
    let (old, shut) = shut_old platform net in
    let (ready, up, started) = net_init_platform platform a.wsa_startup_ok old in
    let r = host_from platform a a.socket up in
    if ready
    then record r { events = shut ++ (started ++ r.events) }
    else record { value = minus_one; net = up; events = shut ++ started }

-- What `inet_pton` makes of the text (`none` if it is no dotted address), and `gethostbyname` if
-- that is asked (`none` if it fails or finds no IPv4 address).
pub record Lookup : Type 0 where
  pub inet_pton : Option ℕ
  pub gethostbyname : Option ℕ

-- The peer with the port that is stored before the address is looked up.
abbrev pub with_port : NetPeer → ℕ → NetPeer
with_port p port = record p { addr = record { port = port % 2 ^ 16; s_addr = p.addr.s_addr } }

abbrev pub connected : ℕ → ℕ → NetPeer
connected port s_addr = record {
  addr = record { port = port % 2 ^ 16; s_addr = s_addr };
  active = 1;
}

-- The address: `inet_pton` first, then `gethostbyname`.
abbrev pub resolve : Lookup → Option ℕ
resolve ip = elim ip.inet_pton [ some s_addr ↦ some s_addr | none ↦ ip.gethostbyname ]

-- The peer's address once the lookup has answered. The port is stored in either case.
pub store_peer : (peer_id port : ℕ) → Option ℕ → NetState → ℤ × NetState
store_peer peer_id port (some s_addr) net =
    (pos 0, record net { peers = update net.peers peer_id (connected port s_addr) })
store_peer peer_id port none net = (
  minus_one,
  record net { peers = update net.peers peer_id (with_port (net.peers peer_id) port) },
)

-- The guards of the call, with the socket: `none` is NET_INVALID.
pub connect_on : Option ℕ → (peer_id : ℕ) → Option Lookup → (port : ℕ) → NetState → ℤ × NetState
connect_on none peer_id ip port net = (minus_one, net)
connect_on (some _) peer_id none port net = (minus_one, net)
connect_on (some _) peer_id (some text) port net =
    if leb max_peers peer_id then (minus_one, net) else store_peer peer_id port (resolve text) net

-- `ip` is `none` for a NULL pointer. The port is the low half of the `int`.
pub vx_net_connect : (peer_id : ℕ) (ip : Option Lookup) (port : ℕ) → NetState → ℤ × NetState
vx_net_connect peer_id ip port net = connect_on net.sock peer_id ip port net

-- `inet_addr` gives the word; a NULL pointer (`none`) changes nothing.
pub vx_net_set_relay_ip : Option ℕ → NetState → NetState
vx_net_set_relay_ip none net = net
vx_net_set_relay_ip (some word) net = record net { relay_ip_addr = word }
