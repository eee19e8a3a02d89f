-- ===== src/Host/Ledger/Rounds.antt =====
-- Every window that the program makes is destroyed by it as often.
use chess_rts.Base.{◌≡◌, ◌⊎◌, true, List, [], ◌∷◌}
use chess_rts.State.{Floats, Globals}
use chess_rts.Boot.{vx_init_mailbox}
use chess_rts.Tenant.Loop.{Main}
use chess_rts.Host.{MainRound, is_down}

-- One of the rounds sees the running flag cleared.
abbrev pub Stops : {fl : Floats} → List (MainRound fl) → Type 0
Stops [] = ⊥
Stops {fl} (r ∷ rounds) = ((g : Globals fl) → is_down (r.others g) ≡ true) ⊎ Stops rounds

abbrev at_start : {fl : Floats} → Globals fl → Main fl
at_start g = record { globals = vx_init_mailbox g; windows = λ _. 0 }
