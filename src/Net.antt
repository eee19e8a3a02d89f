-- ===== src/Net.antt =====
-- network/transport/vx_net.c, the UDP transport: the state `g_net` and its peers.
-- The children model the checksum, the sockets, the receive loop and the STUN request. A host and
-- network byte order are told apart only where bytes are read.
pub mod Hash
pub mod Receive
pub mod Socket
pub mod Stun
use chess_rts.Base.{ℕ, Bool, Option}

-- `struct sockaddr_in`: the family is AF_INET throughout; `s_addr` is the address word.
pub record SockAddr : Type 0 where
  pub port : ℕ
  pub s_addr : ℕ

pub record NetPeer : Type 0 where
  pub addr : SockAddr
  pub active : ℕ

-- What the code is built for: the branches of `defined(_WIN32)`.
pub data Platform : Type 0 where
  posix windows : Platform

-- `g_net`, `g_relay_ip_addr` and `net_wsa_initialized`, which only Windows has and which stays false
-- elsewhere; a socket that is NET_INVALID is `none`.
pub record NetState : Type 0 where
  pub sock : Option ℕ
  pub session_token : ℕ
  pub local_id : ℕ
  pub peers : ℕ → NetPeer
  pub relay_ip_addr : ℕ
  pub wsa_initialized : Bool

abbrev pub max_peers : ℕ
max_peers = 8
