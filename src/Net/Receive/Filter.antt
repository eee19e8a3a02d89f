-- ===== src/Net/Receive/Filter.antt =====
-- What gets through the receive loop: the datagrams with a plausible length and the session's token,
-- in order, and nothing else has an effect.
use chess_rts.Base.{
  ℕ, zero, suc, ◌^◌, ◌≤◌, ◌≡◌, refl, ap, ◌∙◌, Bool, true, false, ◌&&◌, ◌||◌, Option, none, some,
  List, [], ◌∷◌, if◌then◌else◌, leb, ◌==◌, length, get_or, take, map, arith, Bool-cases,
  length-take, inl, inr,
}
use native.Mathlib.Nat.{mod-eq_of_lt}
use chess_rts.Base.Int.{pos}
use chess_rts.Net.{SockAddr, NetState}
use chess_rts.Net.Receive.{
  Datagram, received, RxPacket, word, header_of, discriminate, learn, recv_one, Received, keep,
  recv_loop, vx_net_recv_all, max_packet_size,
}

-- A punch of exactly 40 bytes or at least a lockstep header, under the session's token.
abbrev pub authentic : ℕ → Datagram → Bool
authentic token d =
    (length (received d) == 40 || leb 60 (length (received d)))
    && word (take 8 (received d)) == token

-- The packet that a datagram becomes, with its true length.
abbrev pub packet_of : Datagram → RxPacket
packet_of d = record { len = length (received d); payload = received d }

abbrev pub sender : Datagram → ℕ
sender d = get_or (received d) 8 0

abbrev pub only_authentic : ℕ → List Datagram → List Datagram
only_authentic token [] = []
only_authentic token (d ∷ inbox) =
    let rest = only_authentic token inbox in if authentic token d then d ∷ rest else rest

received-le : (d : Datagram) → length (received d) ≤ 4096
received-le d = omega (arith, length-take {0} max_packet_size d.bytes)

discriminate_lem :
    (payload : List ℕ)
    → discriminate payload
      ≡ (if length payload == 40 || leb 60 (length payload) then some (header_of payload) else none)
unfolding discriminate
discriminate_lem payload = ground arith

and_true : (a b : Bool) → (a && b) ≡ true → (a ≡ true) × (b ≡ true)
and_true true true h = (refl, refl)
and_true true false h = cc
and_true false b h = cc

pub recv_one_kept :
    (net : NetState) (d : Datagram)
    → authentic net.session_token d ≡ true
    → recv_one net d ≡ (some (packet_of d), learn net (sender d) d.from)
unfolding recv_one
recv_one_kept net d h =
    let (fits, token) =
      and_true (length (received d) == 40 || leb 60 (length (received d)))
        (word (take 8 (received d)) == net.session_token) h in
    rw (
      discriminate_lem (received d),
      fits,
      token,
      mod-eq_of_lt {n = length (received d)} {m = 2 ^ 16} (omega (arith, received-le d)),
      recv_one,
    )

pub recv_one_dropped :
    (net : NetState) (d : Datagram)
    → authentic net.session_token d ≡ false
    → recv_one net d ≡ (none, net)
unfolding recv_one
recv_one_dropped net d h =
    elim (Bool-cases (length (received d) == 40 || leb 60 (length (received d)))) [
      | inl fits ↦
          let token : (word (take 8 (received d)) == net.session_token) ≡ false = rw fits at h in
          rw (discriminate_lem (received d), fits, token, recv_one)
      | inr unfit ↦ rw (discriminate_lem (received d), unfit, recv_one)
    ]

pub learn-session_token :
    (net : NetState) (pid : ℕ) (from : SockAddr)
    → (learn net pid from).session_token ≡ net.session_token
unfolding learn
learn-session_token net pid from = ground arith

abbrev Agrees : ℕ → List Datagram → Received → Received → Type 0
Agrees left inbox r q =
    (r.packets ≡ take left (map packet_of inbox)) × (r.packets ≡ q.packets) × (r.net ≡ q.net)

Agrees-keep :
    (left : ℕ) (d : Datagram) (inbox : List Datagram) (r q : Received)
    → Agrees left inbox r q
    → Agrees (suc left) (d ∷ inbox) (keep (some (packet_of d)) r) (keep (some (packet_of d)) q)
Agrees-keep left d inbox r q (a, b, c) =
    (ap (λ l. packet_of d ∷ l) a, ap (λ l. packet_of d ∷ l) b, c)

pub recv_loop_step :
    (left : ℕ) (net : NetState) (d : Datagram) (inbox : List Datagram)
    (one : Option RxPacket × NetState)
    → recv_one net d ≡ one
    → recv_loop (suc left) net (d ∷ inbox) ≡ elim one.0 [
      | none ↦ recv_loop (suc left) one.1 inbox
      | some p ↦ keep (some p) (recv_loop left one.1 inbox)
    ]
unfolding recv_loop
recv_loop_step left net d inbox one e =
    ap
      (λ (x : Option RxPacket × NetState).
        let r : Received = elim x.0 [
          | none ↦ recv_loop (suc left) x.1 inbox
          | some p ↦ keep (some p) (recv_loop left x.1 inbox)
        ] in
        r)
      e

-- The loop against the same loop over the authentic datagrams alone.
recv_loop_lem :
    (left : ℕ) (net : NetState) (token : ℕ) (inbox : List Datagram)
    → net.session_token ≡ token
    → let kept = only_authentic token inbox in
      Agrees left kept (recv_loop left net inbox) (recv_loop left net kept)
recv_loop_lem zero net token inbox e = unfold recv_loop in (refl, refl, refl)
recv_loop_lem (suc left) net token [] e = unfold recv_loop in (refl, refl, refl)
recv_loop_lem (suc left) net token (d ∷ inbox) e = elim (Bool-cases (authentic token d)) [
  | inl good ↦
      let net' : NetState = learn net (sender d) d.from in
      let one : recv_one net d ≡ (some (packet_of d), net') = recv_one_kept net d (rw e good) in
      rw
        (
          good,
          recv_loop_step left net d inbox (some (packet_of d), net') one,
          recv_loop_step left net d (only_authentic token inbox) (some (packet_of d), net') one,
        )
        (Agrees-keep left d (only_authentic token inbox) (recv_loop left net' inbox)
          (recv_loop left net' (only_authentic token inbox))
          (recv_loop_lem left net' token inbox (learn-session_token net (sender d) d.from ∙ e)))
  | inr bad ↦
      let one : recv_one net d ≡ (none, net) = recv_one_dropped net d (rw e bad) in
      rw (bad, recv_loop_step left net d inbox (none, net) one)
        (recv_loop_lem (suc left) net token inbox e)
]

pub recv_all_open :
    (max_count sock : ℕ) (net : NetState) (inbox : List Datagram)
    → net.sock ≡ some sock
    → vx_net_recv_all true (pos max_count) net inbox ≡ recv_loop max_count net inbox
unfolding vx_net_recv_all
recv_all_open max_count sock net inbox e =
    ap
      (λ (o : Option ℕ).
        let r : Received = elim o [
          | none ↦ record { packets = []; net = net; waiting = inbox }
          | some _ ↦ recv_loop max_count net inbox
        ] in
        r)
      e

pub recv_all_closed :
    (max_count : ℕ) (net : NetState) (inbox : List Datagram)
    → net.sock ≡ none
    → vx_net_recv_all true (pos max_count) net inbox
      ≡ record { packets = []; net = net; waiting = inbox }
unfolding vx_net_recv_all
recv_all_closed max_count net inbox e =
    ap
      (λ (o : Option ℕ).
        let r : Received = elim o [
          | none ↦ record { packets = []; net = net; waiting = inbox }
          | some _ ↦ recv_loop max_count net inbox
        ] in
        r)
      e

-- On an open socket the call returns the first `max_count` datagrams that have a plausible length
-- and carry the session's token, in order, whole and with their true length. A datagram without
-- them has no effect: packets and peers are what they would be had it never come.
pub recv_all_lem :
    (max_count sock : ℕ) (net : NetState) (inbox : List Datagram)
    → net.sock ≡ some sock
    → let kept = only_authentic net.session_token inbox in
      let r = vx_net_recv_all true (pos max_count) net inbox in
      let q = vx_net_recv_all true (pos max_count) net kept in
      (r.packets ≡ take max_count (map packet_of kept)) × (r.packets ≡ q.packets) × (r.net ≡ q.net)
recv_all_lem max_count sock net inbox e =
    rw
      (
        recv_all_open max_count sock net inbox e,
        recv_all_open max_count sock net (only_authentic net.session_token inbox) e,
      )
      (recv_loop_lem max_count net net.session_token inbox refl)
