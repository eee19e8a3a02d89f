-- ===== src/Tests/Transport.antt =====
-- The transport at work: a punch received, a checksum, a STUN answer, a socket opened.
use chess_rts.Base.{
  inr, ◌≡◌, ◌≢◌, refl, true, false, none, some, List, [], ◌∷◌, ◌++◌, arith, take, map, replicate,
}
use chess_rts.Base.Int.{pos}
use chess_rts.Net.{SockAddr, NetState}
use chess_rts.Net.Hash.{vx_net_hash_state}
use chess_rts.Net.Hash.Detect.{hash_state_detects}
use chess_rts.Net.Receive.{Datagram, vx_net_recv_all}
use chess_rts.Net.Receive.Filter.{packet_of, only_authentic, recv_all_lem}
use chess_rts.Net.Receive.Peers.{SameSession, OnlyIntroduced, recv_all-OnlyIntroduced}
use chess_rts.Net.Stun.{mapped, parse_response, Inbox, vx_net_stun_punch}
use chess_rts.Net.Stun.Safe.{IsDefined, stun_punch-IsDefined}
use chess_rts.Net.Stun.Encode.{put_mapped}
use chess_rts.Net.Stun.Answer.{put_header, put_all, parse-put_response}
use chess_rts.Net.{windows}
use chess_rts.Net.Socket.Ledger.{Down}
use chess_rts.Net.Socket.{HostAnswers, Lookup, vx_net_shutdown, vx_net_host, vx_net_connect}
use chess_rts.Net.Socket.Host.{Hosted, host_no_leak}
use chess_rts.Net.Socket.Connect.{Outcome, connect_outcome}

abbrev pub an_address : SockAddr
an_address = record { port = 4000; s_addr = 77 }

-- An open socket, a session token of 9, and no peers.
abbrev pub a_net : NetState
a_net = record {
  sock = some 5;
  session_token = 9;
  local_id = 0;
  peers = λ _. record { addr = record { port = 0; s_addr = 0 }; active = 0 };
  relay_ip_addr = 0;
  wsa_initialized = false;
}

-- A punch of 40 bytes by peer 2, and one with another token.
abbrev pub punch : Datagram
punch = record { bytes = 9 ∷ replicate 7 0 ++ 2 ∷ replicate 31 0; from = an_address }

abbrev pub forged : Datagram
forged = record { bytes = 8 ∷ replicate 7 0 ++ 2 ∷ replicate 31 0; from = an_address }

abbrev pub an_inbox : List Datagram
an_inbox = forged ∷ punch ∷ []

recv_all_lem_example :
    let kept = only_authentic 9 an_inbox in
    let r = vx_net_recv_all true (pos 4) a_net an_inbox in
    let q = vx_net_recv_all true (pos 4) a_net kept in
    (r.packets ≡ take 4 (map packet_of kept)) × (r.packets ≡ q.packets) × (r.net ≡ q.net)
recv_all_lem_example = recv_all_lem 4 5 a_net an_inbox refl

recv_all-OnlyIntroduced_example :
    let net' = (vx_net_recv_all true (pos 4) a_net an_inbox).net in
    SameSession a_net net' × OnlyIntroduced a_net an_inbox net'
recv_all-OnlyIntroduced_example = recv_all-OnlyIntroduced (pos 4) a_net an_inbox

hash_state_detects_example :
    vx_net_hash_state (1 ∷ 2 ∷ 3 ∷ []) 0 ≢ vx_net_hash_state (1 ∷ 7 ∷ 3 ∷ []) 0
hash_state_detects_example =
    hash_state_detects (1 ∷ []) 0 2 7 (3 ∷ []) (omega arith) (omega arith) (omega arith)
      (omega arith, tt) (λ e. ground (arith, e))

-- A datagram that ends inside an attribute.
abbrev cut_short : Inbox
cut_short = none ∷ some (1 ∷ 1 ∷ 0 ∷ 12 ∷ replicate 16 0 ++ 0 ∷ 0x20 ∷ 0 ∷ 8 ∷ []) ∷ []

stun_punch-IsDefined_example : IsDefined (vx_net_stun_punch (some 5) cut_short).1
stun_punch-IsDefined_example = stun_punch-IsDefined (some 5) cut_short

parse-put_response_example :
    parse_response (put_header 12 (replicate 16 0) ++ (put_all [] ++ (put_mapped 77 4000 ++ [])))
    ≡ mapped 77 4000
parse-put_response_example =
    parse-put_response 77 4000 12 (replicate 16 0) [] [] (omega arith) (omega arith) (omega arith)
      refl tt (omega arith)

-- A bind that fails, under Windows.
abbrev refused : HostAnswers
refused = record {
  wsa_startup_ok = true;
  socket = some 6;
  nonblocking = record { get_flags_ok = false; set_flags_ok = false; ioctl_ok = true };
  bind_ok = false;
  getsockname_ok = true;
  bound_port = 4000;
}

abbrev started : NetState
started = record a_net { wsa_initialized = true }

host_no_leak_example :
    Hosted windows refused (some 5) true (vx_net_host windows refused started)
    × Down windows started (vx_net_shutdown windows started).0 (vx_net_shutdown windows started).1
host_no_leak_example = host_no_leak windows refused started (inr refl)

-- A name that no server knows.
abbrev unknown : Lookup
unknown = record { inet_pton = none; gethostbyname = none }

connect_outcome_example :
    Outcome 2 4000 (some unknown) a_net (vx_net_connect 2 (some unknown) 4000 a_net)
connect_outcome_example = connect_outcome 2 4000 (some unknown) a_net
