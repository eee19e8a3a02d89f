-- ===== src/Net/Receive/Bounds.antt =====
-- How much a call of `vx_net_recv_all` returns.
use chess_rts.Base.{
  ℕ, zero, suc, ◌+◌, ◌%◌, ◌^◌, ◌≤◌, ◌≡◌, ◌⊎◌, refl, inl, inr, true, Option, none, some, List, [],
  ◌∷◌, ◌==◌, ==_iff, arith, length, length-take, leb, leb→le, Bool-cases,
}
use chess_rts.Base.Int.{pos}
use chess_rts.Net.{SockAddr, NetState}
use chess_rts.Net.Receive.{
  max_packet_size, ice_punch_size, lockstep_header, Datagram, received, Header, discriminate,
  RxPacket, recv_one, Received, keep, recv_loop, vx_net_recv_all,
}
use chess_rts.Net.Receive.Filter.{recv_all_open}
use chess_rts.Net.Receive.Wire.Accept.{by_header, recv_one-by_header}

-- A packet has the size of a punch or at least that of a lockstep header, fits its buffer, and its
-- length field has not wrapped around.
abbrev pub Fits : RxPacket → Type 0
Fits p =
    ((p.len ≡ ice_punch_size) ⊎ (lockstep_header ≤ p.len))
    × (p.len ≤ max_packet_size)
    × (p.len ≡ length p.payload)

abbrev pub AllFit : List RxPacket → Type 0
AllFit [] = Unit
AllFit (p ∷ packets) = Fits p × AllFit packets

abbrev FitsIf : Option RxPacket → Type 0
FitsIf none = Unit
FitsIf (some p) = Fits p

discriminate_size :
    (payload : List ℕ) (h : Header)
    → discriminate payload ≡ some h
    → (length payload ≡ ice_punch_size) ⊎ (lockstep_header ≤ length payload)
unfolding discriminate
discriminate_size payload h e = elim (Bool-cases (length payload == ice_punch_size)) [
  | inl punch ↦ inl ((==_iff _ _).0 punch)
  | inr other ↦ elim (Bool-cases (leb lockstep_header (length payload))) [
    | inl long ↦ inr (leb→le _ _ long)
    | inr short ↦ absurd (ground arith)
  ]
]

by_header-FitsIf :
    (net : NetState) (from : SockAddr) (payload : List ℕ) (o : Option Header)
    → discriminate payload ≡ o
    → length payload ≤ max_packet_size
    → FitsIf (by_header net from payload o).0
unfolding by_header
by_header-FitsIf net from payload none e le = tt
by_header-FitsIf net from payload (some h) e le = elim (Bool-cases (h.token == net.session_token)) [
  | inl ours ↦ rw (ours, short) (discriminate_size payload h e, le, refl)
  | inr other ↦ rw other tt
]
  where
    short : length payload % 2 ^ 16 ≡ length payload
    short = omega (arith, le)

recv_one-FitsIf : (net : NetState) (d : Datagram) → FitsIf (recv_one net d).0
recv_one-FitsIf net d =
    let o = discriminate (received d) in
    rw (recv_one-by_header net d.bytes d.from o refl) (
      by_header-FitsIf net d.from (received d) o refl
        (omega (arith, length-take max_packet_size d.bytes)))

-- What a call returns, given the room and what was waiting.
abbrev pub Bounded : ℕ → List Datagram → Received → Type 0
Bounded room inbox r =
    AllFit r.packets
    × (length r.packets ≤ room)
    × (length r.packets + length r.waiting ≤ length inbox)
    × ((length r.packets ≡ room) ⊎ (r.waiting ≡ []))

-- One datagram more, kept or not.
next-Bounded :
    (left : ℕ) (d : Datagram) (inbox : List Datagram) (o : Option RxPacket)
    (dropped kept : Received)
    → FitsIf o
    → Bounded (suc left) inbox dropped
    → Bounded left inbox kept
    → Bounded (suc left) (d ∷ inbox) (elim o [ none ↦ dropped | some p ↦ keep (some p) kept ])
next-Bounded left d inbox none dropped kept fits (all, few, size, ends) after =
    (all, few, omega (arith, size), ends)
next-Bounded left d inbox (some p) dropped kept fits before (all, few, size, ends) =
    ((fits, all), omega (arith, few), omega (arith, size), ground (arith, ends))

recv_loop-Bounded :
    (left : ℕ) (net : NetState) (inbox : List Datagram)
    → Bounded left inbox (recv_loop left net inbox)
unfolding recv_loop
recv_loop-Bounded zero net inbox = (tt, omega arith, omega arith, inl refl)
recv_loop-Bounded (suc left) net [] = (tt, omega arith, omega arith, inr refl)
recv_loop-Bounded (suc left) net (d ∷ inbox) =
    next-Bounded left d inbox (recv_one net d).0 (recv_loop (suc left) (recv_one net d).1 inbox)
      (recv_loop left (recv_one net d).1 inbox) (recv_one-FitsIf net d)
      (recv_loop-Bounded (suc left) (recv_one net d).1 inbox)
      (recv_loop-Bounded left (recv_one net d).1 inbox)

-- On an open socket a call with a buffer returns at most `max_count` packets, each of a size that
-- the receiver asks for, whole in its buffer and with its true length, and no more packets than
-- datagrams were waiting. It stops before `max_count` only when none is left.
pub recv_all-Bounded :
    (net : NetState) (inbox : List Datagram) (max_count sock : ℕ)
    → net.sock ≡ some sock
    → Bounded max_count inbox (vx_net_recv_all true (pos max_count) net inbox)
recv_all-Bounded net inbox max_count sock e =
    rw (recv_all_open max_count sock net inbox e) (recv_loop-Bounded max_count net inbox)
