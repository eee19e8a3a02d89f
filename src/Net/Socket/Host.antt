-- ===== src/Net/Socket/Host.antt =====
-- `vx_net_host` and `vx_net_shutdown` leak no socket and keep the Windows sockets library up while one
-- is open, on any branch.
use chess_rts.Base.{
  ℕ, ◌%◌, ◌^◌, ◌≡◌, refl, ap, sym, ◌∙◌, Option, none, some, List, ◌++◌, ◌⊎◌, inl, inr, arith,
  if◌then◌else◌, Bool, true, false, ==_iff, Option-cases,
}
use chess_rts.Base.Int.{pos, minus_one}
use chess_rts.Net.{NetState, Platform, posix, windows}
use chess_rts.Net.Socket.{
  SocketEvent, HostAnswers, HostResult, net_cleanup_platform, net_init_platform, close_socket,
  vx_net_shutdown, shut_old, host_from, host_on, vx_net_host,
}
use chess_rts.Net.Socket.Ledger.{usable, replay, replay_both, IsUp, Down}

-- From a state with no socket.
host_on_lem :
    (p : Platform) (a : HostAnswers) (sock : ℕ) (net : NetState)
    → net.sock ≡ none
    → usable p net.wsa_initialized ≡ true
    → let r = host_on p a sock net in
      (replay p none net.wsa_initialized r.events ≡ some (r.net.sock, r.net.wsa_initialized))
      × (r.net.wsa_initialized ≡ net.wsa_initialized)
      × (((r.value ≡ minus_one) × (r.net.sock ≡ none))
          ⊎ ((r.value ≡ pos (a.bound_port % 2 ^ 16)) × (r.net.sock ≡ some sock)))
unfolding host_on
host_on_lem posix a sock net e u = ground (arith, (==_iff sock sock).1 refl)
host_on_lem windows a sock net e u = ground (arith, (==_iff sock sock).1 refl)

close_lem :
    (p : Platform) (net : NetState)
    → (replay p net.sock net.wsa_initialized (close_socket net).1
        ≡ some (none, net.wsa_initialized))
      × ((close_socket net).0.sock ≡ none)
      × ((close_socket net).0.wsa_initialized ≡ net.wsa_initialized)
unfolding close_socket
close_lem p net = elim (Option-cases net.sock) [
  | inl e ↦ rw (e, close_socket) (refl, e, refl)
  | inr (s, e) ↦ rw (e, close_socket) (rw ((==_iff s s).1 refl) refl, refl, refl)
]

cleanup_lem :
    (p : Platform) (net : NetState)
    → net.sock ≡ none
    → IsUp p net
    → Down p net (net_cleanup_platform p net).0 (net_cleanup_platform p net).1
unfolding net_cleanup_platform
cleanup_lem posix net e up = (rw e refl, e, up)
cleanup_lem windows net e up = ground arith

after_close : (p : Platform) (net : NetState) → IsUp p net → IsUp p (close_socket net).0
after_close posix net up = (close_lem posix net).2 ∙ up
after_close windows net up = inl (close_lem windows net).1

shutdown_lem :
    (p : Platform) (net : NetState)
    → IsUp p net
    → Down p net (vx_net_shutdown p net).0 (vx_net_shutdown p net).1
unfolding vx_net_shutdown
shutdown_lem p net up =
    let (closes, gone, same) = close_lem p net in
    let (cleans, none_left, down) =
      cleanup_lem p (close_socket net).0 gone (after_close p net up) in
    (
      replay_both p net.sock net.wsa_initialized (close_socket net).1 _ closes (
          ap (λ u. replay p none u (net_cleanup_platform p (close_socket net).0).1) (sym same)
          ∙ ap
              (λ h.
                replay p h (close_socket net).0.wsa_initialized
                  (net_cleanup_platform p (close_socket net).0).1)
              (sym gone)
          ∙ cleans),
      none_left,
      down,
    )

-- From a state with no socket the library is brought up, or the call fails.
init_lem :
    (p : Platform) (ok : Bool) (net : NetState)
    → net.sock ≡ none
    → IsUp p net
    → let (ready, net', events) = net_init_platform p ok net in
      (replay p none net.wsa_initialized events ≡ some (none, net'.wsa_initialized))
      × (net'.sock ≡ none)
      × IsUp p net'
      × (ready ≡ true → usable p net'.wsa_initialized ≡ true)
unfolding net_init_platform
init_lem posix ok net e up = (refl, e, up, λ _. refl)
init_lem windows ok net e up = (ground arith, ground arith, ground arith, λ q. ground arith)

down_IsUp :
    (p : Platform) (net : NetState) → net.sock ≡ none → net.wsa_initialized ≡ false → IsUp p net
down_IsUp posix net gone down = down
down_IsUp windows net gone down = inl gone

shut_old_lem :
    (p : Platform) (net : NetState)
    → IsUp p net
    → (replay p net.sock net.wsa_initialized (shut_old p net).1
        ≡ some (none, (shut_old p net).0.wsa_initialized))
      × ((shut_old p net).0.sock ≡ none)
      × IsUp p (shut_old p net).0
unfolding shut_old
shut_old_lem p net up = elim (Option-cases net.sock) [
  | inl e ↦ rw (e, shut_old) (refl, e, up)
  | inr (s, e) ↦
      let (r, gone, down) = shutdown_lem p net up in
      rw (e, shut_old)
        (
          sym (ap (λ h. replay p h net.wsa_initialized (vx_net_shutdown p net).1) e) ∙ r,
          gone,
          down_IsUp p (vx_net_shutdown p net).0 gone down,
        )
]

-- A call that has returned `r` and made the events: -1 and no socket, or the port and the new socket.
abbrev pub Hosted : Platform → HostAnswers → Option ℕ → Bool → HostResult → Type 0
Hosted p a held up r =
    (replay p held up r.events ≡ some (r.net.sock, r.net.wsa_initialized))
    × IsUp p r.net
    × (((r.value ≡ minus_one) × (r.net.sock ≡ none))
        ⊎ ((sock : ℕ) × (a.socket ≡ some sock)
            × (r.value ≡ pos (a.bound_port % 2 ^ 16))
            × (r.net.sock ≡ some sock)))

same_IsUp :
    (p : Platform) (net net' : NetState)
    → usable p net.wsa_initialized ≡ true
    → IsUp p net
    → net'.wsa_initialized ≡ net.wsa_initialized
    → IsUp p net'
same_IsUp posix net net' u up same = same ∙ up
same_IsUp windows net net' u up same = inr (same ∙ u)

host_from_lem :
    (p : Platform) (a : HostAnswers) (o : Option ℕ) (net : NetState)
    → a.socket ≡ o
    → net.sock ≡ none
    → IsUp p net
    → usable p net.wsa_initialized ≡ true
    → Hosted p a none net.wsa_initialized (host_from p a o net)
unfolding host_from
host_from_lem p a none net q e up u =
    (ap (λ h. some (h, net.wsa_initialized)) (sym e), up, inl (refl, e))
host_from_lem p a (some sock) net q e up u =
    let (runs, same, value) = host_on_lem p a sock net e u in
    (
      runs,
      same_IsUp p net (host_on p a sock net).net u up same,
      elim value [ inl failed ↦ inl failed | inr (port, kept) ↦ inr (sock, q, port, kept) ],
    )

-- The call by whether the platform is ready.
when_ready :
    (p : Platform) (a : HostAnswers) (b : Bool) (held : Option ℕ) (was old : Bool) (up : NetState)
    (shut started : List SocketEvent) (r : HostResult)
    → (b ≡ true → Hosted p a none up.wsa_initialized r)
    → replay p held was shut ≡ some (none, old)
    → replay p none old started ≡ some (none, up.wsa_initialized)
    → up.sock ≡ none
    → IsUp p up
    → Hosted p a held was (
        if b
        then record r { events = shut ++ (started ++ r.events) }
        else record { value = minus_one; net = up; events = shut ++ started })
when_ready p a true held was old up shut started r hosted shuts starts gone is_up =
    let (runs, is_up', value) = hosted refl in
    (
      replay_both p held was shut (started ++ r.events) shuts
          (replay_both p none old started r.events starts runs),
      is_up',
      value,
    )
when_ready p a false held was old up shut started r hosted shuts starts gone is_up = (
  replay_both p held was shut started shuts starts
      ∙ ap (λ h. some (h, up.wsa_initialized)) (sym gone),
  is_up,
  inl (refl, gone),
)

-- Every socket is accounted for, on both platforms and on every branch: along the calls that
-- `vx_net_host` makes, no socket is opened over another one, none is used or closed that is not open,
-- under Windows all happens while the sockets library is up, and after the call the sockets opened
-- and not closed are exactly the one in the state. A return of -1 leaves no socket, and any other
-- return is the bound port and leaves the new socket. The same goes for `vx_net_shutdown`, which
-- leaves no socket and, under Windows, the library down.
pub host_no_leak :
    (p : Platform) (a : HostAnswers) (net : NetState)
    → IsUp p net
    → Hosted p a net.sock net.wsa_initialized (vx_net_host p a net)
      × Down p net (vx_net_shutdown p net).0 (vx_net_shutdown p net).1
unfolding vx_net_host
host_no_leak p a net up =
    let (shuts, gone, up') = shut_old_lem p net up in
    let (starts, none_yet, up'', ready) = init_lem p a.wsa_startup_ok (shut_old p net).0 gone up' in
    let next = (net_init_platform p a.wsa_startup_ok (shut_old p net).0).1 in
    (
      when_ready p a _ net.sock net.wsa_initialized (shut_old p net).0.wsa_initialized next
          (shut_old p net).1 _ (host_from p a a.socket next)
          (λ is_ready. host_from_lem p a a.socket next refl none_yet up'' (ready is_ready)) shuts
          starts none_yet up'',
      shutdown_lem p net up,
    )
