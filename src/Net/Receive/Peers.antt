-- ===== src/Net/Receive/Peers.antt =====
-- How the receive loop learns the addresses of the peers.
use chess_rts.Base.{
  ℕ, zero, suc, ◌<◌, ◌≡◌, ◌≢◌, refl, ap, sym, ◌∙◌, true, ◌&&◌, not, Option, none, some, List, [],
  ◌∷◌, ltb, ◌==◌, arith, Bool-cases, Option-cases, ◌⊎◌, inl, inr,
}
use mathlib.Core.Path.{subst, subst₂}
use native.Mathlib.Decide.{ℕ_discrete}
use chess_rts.Base.Int.{ℤ, pos, negsuc}
use chess_rts.Net.{SockAddr, NetPeer, NetState, max_peers}
use chess_rts.Net.Receive.{
  Datagram, RxPacket, learn, recv_one, Received, keep, recv_loop, vx_net_recv_all, vx_net_send_to,
}
use chess_rts.Net.Receive.Filter.{
  authentic, sender, packet_of, recv_one_kept, recv_one_dropped, recv_loop_step, recv_all_open,
  recv_all_closed,
}

-- `d` names peer `i` under the token, and does not come from the relay.
abbrev pub Introduces : (token relay i : ℕ) → Datagram → Type 0
Introduces token relay i d =
    (authentic token d ≡ true) × (sender d ≡ i) × (i < 8) × (d.from.s_addr ≢ relay)

-- Some datagram of the list introduces the peer, with this record.
abbrev pub IntroducedBy : (token relay i : ℕ) → NetPeer → List Datagram → Type 0
IntroducedBy token relay i peer [] = ⊥
IntroducedBy token relay i peer (d ∷ inbox) =
    (Introduces token relay i d × (peer ≡ record { addr = d.from; active = 1 }))
    ⊎ IntroducedBy token relay i peer inbox

-- What else is in the state stays as it is.
abbrev pub SameSession : NetState → NetState → Type 0
SameSession net net' =
    (net'.sock ≡ net.sock)
    × (net'.session_token ≡ net.session_token)
    × (net'.local_id ≡ net.local_id)
    × (net'.relay_ip_addr ≡ net.relay_ip_addr)

abbrev pub OnlyIntroduced : NetState → List Datagram → NetState → Type 0
OnlyIntroduced net inbox net' =
    (i : ℕ)
    → (net'.peers i ≡ net.peers i)
      ⊎ IntroducedBy net.session_token net.relay_ip_addr i (net'.peers i) inbox

learn_peer :
    (net : NetState) (pid : ℕ) (from : SockAddr) (i : ℕ)
    → ((learn net pid from).peers i ≡ net.peers i)
      ⊎ ((pid ≡ i)
          × (i < 8)
          × (from.s_addr ≢ net.relay_ip_addr)
          × ((learn net pid from).peers i ≡ record { addr = from; active = 1 }))
unfolding learn
learn_peer net pid from i =
    elim (Bool-cases (ltb pid max_peers && not (from.s_addr == net.relay_ip_addr))) [
      | inr other ↦ inl (rw other)
      | inl direct ↦ elim (ℕ_discrete pid i) [
        | no ne ↦ inl (rw direct (ground arith))
        | yes e ↦ inr (e, ground arith, ground arith, rw direct (ground arith))
      ]
    ]

learn-SameSession :
    (net : NetState) (pid : ℕ) (from : SockAddr) → SameSession net (learn net pid from)
unfolding learn
learn-SameSession net pid from = ground arith

module _ (net : NetState) (d : Datagram) where
  recv_one-SameSession : SameSession net (recv_one net d).1
  recv_one-SameSession = elim (Bool-cases (authentic net.session_token d)) [
    | inl good ↦ rw (recv_one_kept net d good) (learn-SameSession net (sender d) d.from)
    | inr bad ↦ rw (recv_one_dropped net d bad) (refl, refl, refl, refl)
  ]

  abbrev Introduced : ℕ → NetPeer → Type 0
  Introduced i peer =
      (peer ≡ net.peers i)
      ⊎ (Introduces net.session_token net.relay_ip_addr i d
          × (peer ≡ record { addr = d.from; active = 1 }))

  learned :
      (i : ℕ) (peer : NetPeer)
      → authentic net.session_token d ≡ true
      → (peer ≡ net.peers i)
        ⊎ ((sender d ≡ i)
            × (i < 8)
            × (d.from.s_addr ≢ net.relay_ip_addr)
            × (peer ≡ record { addr = d.from; active = 1 }))
      → Introduced i peer
  learned i peer good (inl e) = inl e
  learned i peer good (inr (a, b, c, e)) = inr ((good, a, b, c), e)

  recv_one_peer : (i : ℕ) → Introduced i ((recv_one net d).1.peers i)
  recv_one_peer i = elim (Bool-cases (authentic net.session_token d)) [
    | inr bad ↦ rw (recv_one_dropped net d bad) (inl refl)
    | inl good ↦
        rw (recv_one_kept net d good) (learned i _ good (learn_peer net (sender d) d.from i))
  ]

  -- What the rest of the list introduces, the whole list does.
  later_peer :
      (i : ℕ) (inbox : List Datagram) (peer : NetPeer)
      → (peer ≡ (recv_one net d).1.peers i)
        ⊎ IntroducedBy
            (recv_one net d).1.session_token
            (recv_one net d).1.relay_ip_addr
            i
            peer
            inbox
      → (peer ≡ net.peers i) ⊎ IntroducedBy net.session_token net.relay_ip_addr i peer (d ∷ inbox)
  later_peer i inbox peer (inr by) = inr (
      inr (
        subst₂ (λ token relay. IntroducedBy token relay i peer inbox) (recv_one-SameSession.1)
          (recv_one-SameSession.3) by))
  later_peer i inbox peer (inl e) = first (recv_one_peer i)
    where
      first :
          Introduced i ((recv_one net d).1.peers i)
          → (peer ≡ net.peers i)
            ⊎ IntroducedBy net.session_token net.relay_ip_addr i peer (d ∷ inbox)
      first (inl same) = inl (e ∙ same)
      first (inr (intro, as_sent)) = inr (inl (intro, e ∙ as_sent))

after_step :
    (Q : NetState → Type 0) (o : Option RxPacket) (a b : Received)
    → Q a.net
    → Q b.net
    → Q (elim o as (λ _. Received) [ none ↦ a | some p ↦ keep (some p) b ]).net
after_step Q none a b p q = p
after_step Q (some x) a b p q = q

recv_loop-OnlyIntroduced :
    (left : ℕ) (net : NetState) (inbox : List Datagram)
    → OnlyIntroduced net inbox (recv_loop left net inbox).net
recv_loop-OnlyIntroduced zero net inbox i = unfold recv_loop in inl refl
recv_loop-OnlyIntroduced (suc left) net [] i = unfold recv_loop in inl refl
recv_loop-OnlyIntroduced (suc left) net (d ∷ inbox) i =
    subst
      (λ (r : Received).
        (r.net.peers i ≡ net.peers i)
        ⊎ IntroducedBy net.session_token net.relay_ip_addr i (r.net.peers i) (d ∷ inbox))
      (sym (recv_loop_step left net d inbox (recv_one net d) refl))
      (after_step
        (λ n.
          (n.peers i ≡ net.peers i)
          ⊎ IntroducedBy net.session_token net.relay_ip_addr i (n.peers i) (d ∷ inbox))
        (recv_one net d).0 (recv_loop (suc left) (recv_one net d).1 inbox)
        (recv_loop left (recv_one net d).1 inbox)
        (later_peer net d i inbox _
          (recv_loop-OnlyIntroduced (suc left) (recv_one net d).1 inbox i))
        (later_peer net d i inbox _ (recv_loop-OnlyIntroduced left (recv_one net d).1 inbox i)))

SameSession-trans : (a b c : NetState) → SameSession a b → SameSession b c → SameSession a c
SameSession-trans a b c (p, q, r, s) (t, u, v, w) = (t ∙ p, u ∙ q, v ∙ r, w ∙ s)

recv_loop-SameSession :
    (left : ℕ) (net : NetState) (inbox : List Datagram)
    → SameSession net (recv_loop left net inbox).net
recv_loop-SameSession zero net inbox = unfold recv_loop in (refl, refl, refl, refl)
recv_loop-SameSession (suc left) net [] = unfold recv_loop in (refl, refl, refl, refl)
recv_loop-SameSession (suc left) net (d ∷ inbox) =
    subst (λ (r : Received). SameSession net r.net)
      (sym (recv_loop_step left net d inbox (recv_one net d) refl))
      (after_step (SameSession net) (recv_one net d).0
        (recv_loop (suc left) (recv_one net d).1 inbox) (recv_loop left (recv_one net d).1 inbox)
        (SameSession-trans net (recv_one net d).1
          (recv_loop (suc left) (recv_one net d).1 inbox).net (recv_one-SameSession net d)
          (recv_loop-SameSession (suc left) (recv_one net d).1 inbox))
        (SameSession-trans net (recv_one net d).1 (recv_loop left (recv_one net d).1 inbox).net
          (recv_one-SameSession net d) (recv_loop-SameSession left (recv_one net d).1 inbox)))

-- Receiving changes nothing of the state but the addresses of peers, and a peer's record only to
-- the address of a datagram that carries the session's token, names the peer with an id below 8
-- and does not come from the relay.
pub recv_all-OnlyIntroduced :
    (max_count : ℤ) (net : NetState) (inbox : List Datagram)
    → let net' = (vx_net_recv_all true max_count net inbox).net in
      SameSession net net' × OnlyIntroduced net inbox net'
unfolding vx_net_recv_all
recv_all-OnlyIntroduced (negsuc _) net inbox = ((refl, refl, refl, refl), λ i. inl refl)
recv_all-OnlyIntroduced (pos n) net inbox = elim (Option-cases net.sock) [
  | inl e ↦ rw (recv_all_closed n net inbox e) ((refl, refl, refl, refl), λ i. inl refl)
  | inr (s, e) ↦
      rw (recv_all_open n s net inbox e)
        (recv_loop-SameSession n net inbox, recv_loop-OnlyIntroduced n net inbox)
]

recv_loop_nil : (n : ℕ) (net : NetState) → (recv_loop n net []).net ≡ net
unfolding recv_loop
recv_loop_nil zero net = refl
recv_loop_nil (suc n) net = refl

send_to-learn :
    (net : NetState) (sock pid : ℕ) (from : SockAddr) (bytes : List ℕ)
    → net.sock ≡ some sock
    → pid < 8
    → from.s_addr ≢ net.relay_ip_addr
    → vx_net_send_to (learn net pid from) (some bytes) pid ≡ some (from, bytes)
unfolding learn vx_net_send_to
send_to-learn net sock pid from bytes e below direct = ground arith

-- On an open socket and with room for a packet, a peer with an id below 8 that introduces itself
-- under the session's token, and not by the relay, is answered at the address that it used.
pub send_to-recv_all :
    (max_count sock : ℕ) (net : NetState) (d : Datagram) (bytes : List ℕ)
    → net.sock ≡ some sock
    → 0 < max_count
    → Introduces net.session_token net.relay_ip_addr (sender d) d
    → vx_net_send_to (vx_net_recv_all true (pos max_count) net (d ∷ [])).net (some bytes) (sender d)
      ≡ some (d.from, bytes)
send_to-recv_all zero sock net d bytes e lt h = absurd (omega arith)
send_to-recv_all (suc n) sock net d bytes e lt (good, _, below, direct) =
    let net' : NetState = learn net (sender d) d.from in
    ap (λ (r : Received). vx_net_send_to r.net (some bytes) (sender d))
      (recv_all_open (suc n) sock net (d ∷ []) e
        ∙ recv_loop_step n net d [] (some (packet_of d), net') (recv_one_kept net d good))
    ∙ ap (λ k. vx_net_send_to k (some bytes) (sender d)) (recv_loop_nil n net')
    ∙ send_to-learn net sock (sender d) d.from bytes e below direct
