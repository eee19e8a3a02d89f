-- ===== src/Net/Receive/Wire/Accept.antt =====
-- A packet put into bytes is received as it was sent, and introduces its sender.
use chess_rts.Base.{
  ℕ, ◌+◌, ◌*◌, ◌%◌, ◌^◌, ◌≤◌, ◌<◌, ◌≡◌, refl, ap, ◌∙◌, Option, some, List, ◌==◌, arith, length,
  length-take, take, if◌then◌else◌, le→leb, ne→==_false, ==_iff, none,
}
use Prim.Native.Nat.{min}
use chess_rts.Net.{SockAddr, NetState}
use chess_rts.Net.Receive.{
  max_packet_size, ice_punch_size, lockstep_header, Header, header_of, discriminate, RxPacket,
  learn, recv_one,
}
use chess_rts.Net.Receive.Wire.{
  LockstepPacket, IcePunchPacket, put_lockstep, put_punch, history_len,
}
use chess_rts.Net.Receive.Wire.Header.{
  values, sizes_lem, take_all, header_of-take, punch-header, lockstep-header,
}

discriminate_punch :
    (payload : List ℕ)
    → length payload ≡ ice_punch_size
    → discriminate payload ≡ some (header_of payload)
unfolding discriminate
discriminate_punch payload e = rw e refl

discriminate_lockstep :
    (payload : List ℕ)
    → lockstep_header ≤ length payload
    → discriminate payload ≡ some (header_of payload)
unfolding discriminate
discriminate_lockstep payload le = rw (
  ne→==_false (length payload) ice_punch_size (λ e. absurd (omega (arith, e))),
  le→leb lockstep_header (length payload) le,
)

-- What `recv_one` returns for a datagram that is kept whole.
abbrev pub Accepted : NetState → List ℕ → SockAddr → ℕ → Type 0
Accepted net payload from pid =
    recv_one net (record { bytes = payload; from = from })
    ≡ (some (record { len = length payload; payload = payload }), learn net pid from)

-- The outcome by what the discriminator makes of the bytes that were kept.
unfoldable pub by_header : NetState → SockAddr → List ℕ → Option Header → Option RxPacket × NetState
by_header net from payload none = (none, net)
by_header net from payload (some h) =
    if h.token == net.session_token
    then (some (record { len = length payload % 2 ^ 16; payload = payload }), learn net h.pid from)
    else (none, net)

pub recv_one-by_header :
    (net : NetState) (payload : List ℕ) (from : SockAddr) (o : Option Header)
    → discriminate (take max_packet_size payload) ≡ o
    → recv_one net (record { bytes = payload; from = from })
      ≡ by_header net from (take max_packet_size payload) o
unfolding recv_one by_header
recv_one-by_header net payload from none e = rw (e, recv_one) refl
recv_one-by_header net payload from (some h) e = rw (e, recv_one) refl

-- A payload with a good header and the session's token.
accepted :
    (net : NetState) (payload : List ℕ) (from : SockAddr) (pid : ℕ)
    → length payload ≤ max_packet_size
    → discriminate payload ≡ some (record { token = net.session_token; pid = pid })
    → Accepted net payload from pid
unfolding by_header
accepted net payload from pid le e =
    let all = take_all max_packet_size payload le in
    let h : Header = record { token = net.session_token; pid = pid } in
    recv_one-by_header net payload from (some h) (ap discriminate all ∙ e)
    ∙ ap (λ xs. by_header net from xs (some h)) all
    ∙ rw ((==_iff net.session_token net.session_token).1 refl, short) refl
  where
    short : length payload % 2 ^ 16 ≡ length payload
    short = omega (arith, le)

-- A punch, and a lockstep packet cut off at any length from its header on, that carry the session's
-- token are received as they were sent by anyone, and their sender is introduced under the player
-- id in them.
pub recv_one-put :
    (net : NetState) (from : SockAddr) (p : IcePunchPacket) (q : LockstepPacket) (n : ℕ)
    → net.session_token < values 8
    → p.session_token ≡ net.session_token
    → p.player_id < values 1
    → q.session_token ≡ net.session_token
    → q.player_id < values 1
    → lockstep_header ≤ n
    → Accepted net (put_punch p) from p.player_id
      × Accepted net (take n (put_lockstep q)) from q.player_id
recv_one-put net from p q n lt e pid_lt e' pid_lt' le = (
  accepted net (put_punch p) from p.player_id (omega (arith, punch_size)) (
      discriminate_punch (put_punch p) punch_size
      ∙ ap some (punch-header net.session_token p.player_id lt pid_lt p e refl)),
  accepted net (take n (put_lockstep q)) from q.player_id (omega (arith, cut_size, lockstep_size)) (
      discriminate_lockstep (take n (put_lockstep q)) (omega (arith, cut_size, lockstep_size, le))
      ∙ ap some (
          header_of-take n (put_lockstep q) (omega (arith, le))
          ∙ lockstep-header net.session_token q.player_id lt pid_lt' q e' refl)),
)
  where
    punch_size : length (put_punch p) ≡ ice_punch_size
    punch_size = (sizes_lem p q (q.commands 0 0)).0

    lockstep_size : length (put_lockstep q) ≡ lockstep_header + history_len * (2 * 8)
    lockstep_size = (sizes_lem p q (q.commands 0 0)).3

    cut_size : length (take n (put_lockstep q)) ≡ min n (length (put_lockstep q))
    cut_size = length-take n (put_lockstep q)
