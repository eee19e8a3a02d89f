-- ===== src/Net/Socket/Connect.antt =====
-- What `vx_net_connect` leaves behind, in success and failure.
use chess_rts.Base.{
  ◌≤◌, ◌<◌, ◌≢◌, ◌∙◌, arith, ℕ, ◌%◌, ◌^◌, ◌≡◌, refl, Bool, true, false, if◌then◌else◌, Option, none,
  some, List, ◌⊎◌, inl, inr, update, update_self, leb,
}
use chess_rts.Base.Int.{ℤ, pos, minus_one}
use chess_rts.Net.{SockAddr, NetState, max_peers}
use chess_rts.Net.Receive.{vx_net_send_to}
use chess_rts.Net.Socket.{Lookup, connected, resolve, store_peer, connect_on, vx_net_connect}

-- The address that is found: that of `inet_pton`, or else that of `gethostbyname`.
abbrev pub Found : Lookup → ℕ → Type 0
Found ip s_addr =
    (ip.inet_pton ≡ some s_addr) ⊎ ((ip.inet_pton ≡ none) × (ip.gethostbyname ≡ some s_addr))

-- Refused at once: there is no socket, the address is NULL or the peer is out of range.
abbrev pub Refused : ℕ → Option Lookup → NetState → ℤ × NetState → Type 0
Refused peer_id ip net r =
    ((net.sock ≡ none) ⊎ (ip ≡ none) ⊎ (max_peers ≤ peer_id)) × (r.0 ≡ minus_one) × (r.1 ≡ net)

-- The call is not refused, and the text is looked up.
abbrev pub Asked : ℕ → Option Lookup → NetState → Lookup → Type 0
Asked peer_id ip net text = (net.sock ≢ none) × (ip ≡ some text) × (peer_id < max_peers)

abbrev pub Reached : (peer_id port : ℕ) → Option Lookup → NetState → ℤ × NetState → Type 0
Reached peer_id port ip net r =
    (text : Lookup) × (s_addr : ℕ) × Asked peer_id ip net text
    × Found text s_addr
    × (r.0 ≡ pos 0)
    × (r.1 ≡ record net {
      peers =
          update net.peers peer_id
            (record { addr = record { port = port % 2 ^ 16; s_addr = s_addr }; active = 1 });
    })
    × ((bytes : List ℕ)
        → vx_net_send_to r.1 (some bytes) peer_id
          ≡ some (record { port = port % 2 ^ 16; s_addr = s_addr }, bytes))

abbrev pub NotFound : (peer_id port : ℕ) → Option Lookup → NetState → ℤ × NetState → Type 0
NotFound peer_id port ip net r =
    (text : Lookup) × Asked peer_id ip net text
    × (text.inet_pton ≡ none)
    × (text.gethostbyname ≡ none)
    × (r.0 ≡ minus_one)
    × (r.1 ≡ record net {
      peers = update net.peers peer_id (record {
        addr = record { port = port % 2 ^ 16; s_addr = (net.peers peer_id).addr.s_addr };
        active = (net.peers peer_id).active;
      });
    })

abbrev pub Outcome : (peer_id port : ℕ) → Option Lookup → NetState → ℤ × NetState → Type 0
Outcome peer_id port ip net r =
    Refused peer_id ip net r ⊎ Reached peer_id port ip net r ⊎ NotFound peer_id port ip net r

send_to_active :
    (net : NetState) (x peer_id : ℕ) (to : SockAddr) (bytes : List ℕ)
    → net.sock ≡ some x
    → leb max_peers peer_id ≡ false
    → net.peers peer_id ≡ record { addr = to; active = 1 }
    → vx_net_send_to net (some bytes) peer_id ≡ some (to, bytes)
unfolding vx_net_send_to
send_to_active net x peer_id to bytes e below p = rw (e, below, p) refl

found :
    (text : Lookup) (n g : Option ℕ) (s_addr : ℕ)
    → text.inet_pton ≡ n
    → text.gethostbyname ≡ g
    → resolve (record { inet_pton = n; gethostbyname = g }) ≡ some s_addr
    → Found text s_addr
found text (some x) g s_addr p q e = inl (p ∙ e)
found text none g s_addr p q e = inr (p, q ∙ e)

not_found :
    (text : Lookup) (n g : Option ℕ)
    → text.inet_pton ≡ n
    → text.gethostbyname ≡ g
    → resolve (record { inet_pton = n; gethostbyname = g }) ≡ none
    → (text.inet_pton ≡ none) × (text.gethostbyname ≡ none)
not_found text (some x) g p q e = absurd (cc e)
not_found text none g p q e = (p, q ∙ e)

store_peer-Outcome :
    (peer_id port : ℕ) (ip : Option Lookup) (text : Lookup) (answer : Option ℕ) (net : NetState)
    (x : ℕ)
    → net.sock ≡ some x
    → Asked peer_id ip net text
    → leb max_peers peer_id ≡ false
    → resolve text ≡ answer
    → Outcome peer_id port ip net (store_peer peer_id port answer net)
unfolding store_peer
store_peer-Outcome peer_id port ip text none net x e asked below a =
    let (p, q) = not_found text text.inet_pton text.gethostbyname refl refl a in
    inr (inr (text, asked, p, q, refl, refl))
store_peer-Outcome peer_id port ip text (some s_addr) net x e asked below a = inr (
    inl (
      text,
      s_addr,
      asked,
      found text text.inet_pton text.gethostbyname s_addr refl refl a,
      refl,
      refl,
      λ bytes.
          send_to_active (record net { peers = update net.peers peer_id (connected port s_addr) }) x
            peer_id (record { port = port % 2 ^ 16; s_addr = s_addr }) bytes e below
            (update_self net.peers peer_id (connected port s_addr)),
    ))

guarded :
    (refused : Bool) (peer_id port : ℕ) (text : Lookup) (ip : Option Lookup) (net : NetState)
    (x : ℕ)
    → net.sock ≡ some x
    → ip ≡ some text
    → leb max_peers peer_id ≡ refused
    → Outcome peer_id port ip net
        (if refused then (minus_one, net) else store_peer peer_id port (resolve text) net)
guarded true peer_id port text ip net x e p r = inl (inr (inr (ground (arith, r))), refl, refl)
guarded false peer_id port text ip net x e p r =
    store_peer-Outcome peer_id port ip text (resolve text) net x e
      (λ no. absurd (cc (e, no)), p, ground (arith, r)) r refl

connect_on-Outcome :
    (sock : Option ℕ) (peer_id : ℕ) (ip : Option Lookup) (port : ℕ) (net : NetState)
    → net.sock ≡ sock
    → Outcome peer_id port ip net (connect_on sock peer_id ip port net)
unfolding connect_on
connect_on-Outcome none peer_id ip port net e = inl (inl e, refl, refl)
connect_on-Outcome (some _) peer_id none port net e = inl (inr (inl refl), refl, refl)
connect_on-Outcome (some x) peer_id (some text) port net e =
    guarded (leb max_peers peer_id) peer_id port text (some text) net x e refl refl

-- One of three things. Without a socket, with a NULL address or with a peer out of range a call answers
-- -1 and changes nothing. Otherwise, if `inet_pton` reads the address or else `gethostbyname` finds
-- it, the call answers 0, the peer is active at that address and the low 16 bits of the port, where
-- `vx_net_send_to` then sends, and nothing else changes. If neither does, it answers -1: the peer
-- keeps its address and whether it is active, but has the new port, and nothing else changes.
pub connect_outcome :
    (peer_id port : ℕ) (ip : Option Lookup) (net : NetState)
    → Outcome peer_id port ip net (vx_net_connect peer_id ip port net)
unfolding vx_net_connect
connect_outcome peer_id port ip net = connect_on-Outcome net.sock peer_id ip port net refl
