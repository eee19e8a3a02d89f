-- ===== src/Render/Debug.antt =====
-- render/debug/vk_debug.c: the messenger of the validation layer. Whether the extension's function is
-- found, and the messenger that Vulkan creates, are arguments; `warning` is the value of
-- VK_DEBUG_UTILS_MESSAGE_SEVERITY_WARNING_BIT_EXT.
use chess_rts.Base.{
  ℕ, ◌≡◌, refl, ap, Bool, true, false, Option, none, some, List, [], ◌∷◌, ◌++◌, if◌then◌else◌, ltb,
}

pub data DebugCall : Type 0 where
  created : (messenger : ℕ) → DebugCall
  destroyed : (messenger : ℕ) → DebugCall

-- What the callback prints, if anything; it returns VK_FALSE in either case.
pub vulkan_debug_callback : (warning severity message : ℕ) → Option (ℕ × ℕ) × Bool
vulkan_debug_callback warning severity message =
    (if ltb severity warning then none else some (severity, message), false)

-- `g_debugMessenger` after the call, and the calls.
pub vx_sys_inject_validation : (found : Bool) → (new : ℕ) → ℕ → ℕ × List DebugCall
vx_sys_inject_validation true new messenger = (new, created new ∷ [])
vx_sys_inject_validation false new messenger = (messenger, [])

-- The handle is kept after it is destroyed.
pub vx_sys_eject_validation : (found : Bool) → ℕ → ℕ × List DebugCall
vx_sys_eject_validation true messenger = (messenger, destroyed messenger ∷ [])
vx_sys_eject_validation false messenger = (messenger, [])

-- Sessions of the layer, one after the other: each is injected and ejected, with the same answer to
-- whether the extension is there.
pub sessions : List (Bool × ℕ) → ℕ → List DebugCall
sessions [] messenger = []
sessions ((found, new) ∷ rest) messenger =
    let (after, calls) = vx_sys_inject_validation found new messenger in
    let (last, more) = vx_sys_eject_validation found after in calls ++ (more ++ sessions rest last)

-- The messengers of the sessions in which the extension is there.
abbrev expected : List (Bool × ℕ) → List DebugCall
expected [] = []
expected ((true, new) ∷ rest) = created new ∷ destroyed new ∷ expected rest
expected ((false, new) ∷ rest) = expected rest

-- Sessions that do not overlap destroy each messenger that they create, before the next is created.
sessions_lem : (l : List (Bool × ℕ)) (messenger : ℕ) → sessions l messenger ≡ expected l
unfolding sessions vx_sys_inject_validation vx_sys_eject_validation
sessions_lem [] messenger = refl
sessions_lem ((true, new) ∷ rest) messenger =
    ap (λ l. created new ∷ destroyed new ∷ l) (sessions_lem rest new)
sessions_lem ((false, new) ∷ rest) messenger = sessions_lem rest messenger
