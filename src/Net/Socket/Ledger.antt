-- ===== src/Net/Socket/Ledger.antt =====
-- The socket and the Windows sockets library along the calls of network/transport/vx_net.c.
use chess_rts.Base.{
  ℕ, ◌≡◌, refl, ◌∙◌, Option, none, some, List, [], ◌∷◌, ◌++◌, ◌⊎◌, if◌then◌else◌, ◌==◌, Bool, true,
  false, ◌>>=◌,
}
use chess_rts.Net.{NetState, Platform, posix, windows}
use chess_rts.Net.Socket.{SocketEvent, opened, closed, configured, wsa_startup, wsa_cleanup}

-- Whether sockets can be used.
abbrev pub usable : Platform → Bool → Bool
usable posix up = true
usable windows up = up

-- The open socket, and whether the sockets library is up, after an event: `none` if a socket is opened
-- over another that is still open or while the library is down, one is closed or configured that is
-- not open, or the library is started twice, or stopped while down or under a socket.
abbrev pub event : Platform → Option ℕ → Bool → SocketEvent → Option (Option ℕ × Bool)
event p none up (opened s) = if usable p up then some (some s, up) else none
event p (some h) up (opened s) = none
event p none up (closed s) = none
event p (some h) up (closed s) = if h == s then some (none, up) else none
event p none up (configured s _) = none
event p (some h) up (configured s _) = if h == s then some (some h, up) else none
event p held up wsa_startup = if up then none else some (held, true)
event p none up wsa_cleanup = if up then some (none, false) else none
event p (some h) up wsa_cleanup = none

abbrev pub replay : Platform → Option ℕ → Bool → List SocketEvent → Option (Option ℕ × Bool)
replay p held up [] = some (held, up)
replay p held up (e ∷ events) = event p held up e >>= λ s. replay p s.0 s.1 events

chained :
    (o : Option (Option ℕ × Bool)) (f g k : Option ℕ × Bool → Option (Option ℕ × Bool))
    → ((s : Option ℕ × Bool) → f s ≡ (g s >>= k))
    → (o >>= f) ≡ ((o >>= g) >>= k)
chained none f g k h = refl
chained (some s) f g k h = h s

replay-append :
    (es fs : List SocketEvent) (p : Platform) (held : Option ℕ) (up : Bool)
    → replay p held up (es ++ fs) ≡ (replay p held up es >>= λ s. replay p s.0 s.1 fs)
replay-append [] fs p held up = refl
replay-append (e ∷ es) fs p held up =
    chained (event p held up e) _ _ _ (λ s. replay-append es fs p s.0 s.1)

-- Two runs after one another.
pub replay_both :
    (p : Platform) (held : Option ℕ) (up : Bool) {mid end : Option ℕ} {up' up'' : Bool}
    (es fs : List SocketEvent)
    → replay p held up es ≡ some (mid, up')
    → replay p mid up' fs ≡ some (end, up'')
    → replay p held up (es ++ fs) ≡ some (end, up'')
replay_both p held up es fs e q = replay-append es fs p held up ∙ rw e q

-- Under Windows the library is up while a socket is open; elsewhere the flag is never set.
abbrev pub IsUp : Platform → NetState → Type 0
IsUp posix net = net.wsa_initialized ≡ false
IsUp windows net = (net.sock ≡ none) ⊎ (net.wsa_initialized ≡ true)

-- A shutdown leaves no socket, and under Windows the library down.
abbrev pub Down : Platform → NetState → NetState → List SocketEvent → Type 0
Down p net net' events =
    (replay p net.sock net.wsa_initialized events ≡ some (none, net'.wsa_initialized))
    × (net'.sock ≡ none)
    × (net'.wsa_initialized ≡ false)
