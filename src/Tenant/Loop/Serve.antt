-- ===== src/Tenant/Loop/Serve.antt =====
-- What a round of the main loop leaves of a window's command.
use chess_rts.Base.{◌≢◌, ◌⊎◌, none, false, ℕ, ◌≡◌, false, some}
use chess_rts.Base.Int.{pos}
use chess_rts.State.{cmd_boot_window, cmd_kill_window, cmd_idle, Floats, TenantMailbox}
use chess_rts.Tenant.Loop.{Answers, Main}

abbrev pub tenant : {fl : Floats} → ℕ → Main fl → TenantMailbox fl
tenant id m = m.globals.mailbox.tenants id

-- The surface after a boot: that of the instance, if there is one and the call succeeds, or the old one.
abbrev pub Surface : Answers → (instance_ new old now : ℕ) → Type 0
Surface a instance_ new old now =
    ((instance_ ≢ 0) × (a.create_surface instance_ new ≡ some now))
    ⊎ (((instance_ ≡ 0) ⊎ (a.create_surface instance_ new ≡ none)) × (now ≡ old))

-- The other windows are as they were.
abbrev pub OthersKept : {fl : Floats} → ℕ → Main fl → Main fl → Type 0
OthersKept id m m' = (v : ℕ) → id ≢ v → (m'.windows v ≡ m.windows v) × (tenant v m' ≡ tenant v m)

-- A boot command for a window that is not open.
abbrev pub AsksBoot : {fl : Floats} → ℕ → Main fl → Type 0
AsksBoot id m = ((tenant id m).glfw_cmd ≡ pos cmd_boot_window) × (m.windows id ≡ 0)

-- A kill command for a window that is open.
abbrev pub AsksKill : {fl : Floats} → ℕ → Main fl → Type 0
AsksKill id m = ((tenant id m).glfw_cmd ≡ pos cmd_kill_window) × (m.windows id ≢ 0)

abbrev pub Opened : {fl : Floats} → Answers → ℕ → Main fl → Main fl → Type 0
Opened a id m m' =
    let new = a.create_window (tenant id m).glfw_arg_w (tenant id m).glfw_arg_h in
    (m'.windows id ≡ new)
    × ((tenant id m').win_w ≡ (a.framebuffer_size new).0)
    × ((tenant id m').win_h ≡ (a.framebuffer_size new).1)
    × Surface a (tenant id m).vk_instance new (tenant id m).vk_surface (tenant id m').vk_surface
    × ((tenant id m').glfw_cmd ≡ pos cmd_idle)
    × (m'.globals.ring ≡ m.globals.ring)
    × (m'.globals.wsi_state ≡ m.globals.wsi_state)
    × OthersKept id m m'

abbrev pub Closed : {fl : Floats} → ℕ → Main fl → Main fl → Type 0
Closed id m m' =
    (m'.windows id ≡ 0)
    × (m'.globals.wsi_state id ≡ pos 0)
    × ((tenant id m').vk_surface ≡ 0)
    × ((tenant id m').glfw_cmd ≡ pos cmd_idle)
    × (m'.globals.ring ≡ m.globals.ring)
    × OthersKept id m m'

abbrev pub Outcome : {fl : Floats} → Answers → ℕ → Main fl → Main fl → Type 0
Outcome a id m m' =
    (AsksBoot id m × Opened a id m m')
    ⊎ (AsksKill id m × Closed id m m')
    ⊎ ((¬ AsksBoot id m) × (¬ AsksKill id m) × (m' ≡ m))
