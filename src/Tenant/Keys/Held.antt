-- ===== src/Tenant/Keys/Held.antt =====
-- The mask of held keys, after any events of the windows.
use chess_rts.Base.{
  ℕ, zero, suc, ◌^◌, ◌<◌, ◌≡◌, refl, ap, ◌∙◌, Bool, true, false, bit_and, bit_or, Option, none,
  some, List, [], ◌∷◌, if◌then◌else◌, ◌==◌, arith, ltb, ltb→lt,
}
use chess_rts.Base.Int.{ℤ}
use chess_rts.Base.Bits.{bit_at, bit_not}
use chess_rts.Ring.Mask.{bit_at-set_bit, bit_at-clear_bit}
use chess_rts.State.{Floats, TenantMailbox}
use chess_rts.Tenant.{window, update_change, ap-if}
use chess_rts.Tenant.Keys.{
  Key, key_w, key_s, key_a, key_d, key_e, key_q, key_escape, key_space, key_f11, key_f10, key_1,
  key_2, key_3, key_4, key_f5, key_enter, key_kp_enter, key_other, Action, press, release, repeat,
  Host, Glfw, key_bit, mask_after, key_tenant, key_on, glfw_key_callback,
}

-- The number of a direction key.
abbrev pub direction : Key → Option ℕ
direction key_w = some 0
direction key_s = some 1
direction key_a = some 2
direction key_d = some 3
direction key_e = some 4
direction key_q = some 5
direction _ = none

-- Whether direction `j` is held (1) or not (0) after an action on a key.
abbrev pub held_after : ℕ → Option ℕ → Action → ℕ → ℕ
held_after j none action held = held
held_after j (some i) press held = if j == i then 1 else held
held_after j (some i) release held = if j == i then 0 else held
held_after j (some i) repeat held = held

abbrev bit_of : Option ℕ → ℕ
bit_of none = 0
bit_of (some i) = 2 ^ i

abbrev few : Option ℕ → Bool
few none = true
few (some i) = ltb i 32

key_bit_lem : (key : Key) → (key_bit key ≡ bit_of (direction key)) × (few (direction key) ≡ true)
key_bit_lem key =
    elim key as (λ k. (key_bit k ≡ bit_of (direction k)) × (few (direction k) ≡ true)) [
      | key_w ↦ (refl, refl)
      | key_s ↦ (refl, refl)
      | key_a ↦ (refl, refl)
      | key_d ↦ (refl, refl)
      | key_e ↦ (refl, refl)
      | key_q ↦ (refl, refl)
      | key_escape ↦ (refl, refl)
      | key_space ↦ (refl, refl)
      | key_f11 ↦ (refl, refl)
      | key_f10 ↦ (refl, refl)
      | key_1 ↦ (refl, refl)
      | key_2 ↦ (refl, refl)
      | key_3 ↦ (refl, refl)
      | key_4 ↦ (refl, refl)
      | key_f5 ↦ (refl, refl)
      | key_enter ↦ (refl, refl)
      | key_kp_enter ↦ (refl, refl)
      | key_other _ ↦ (refl, refl)
    ]

abbrev stored : ℕ → Action → ℕ → ℕ
stored bit press mask = if bit == 0 then mask else bit_or mask bit
stored bit release mask = if bit == 0 then mask else bit_and mask (bit_not 32 bit)
stored bit repeat mask = mask

mask_after-stored :
    (key : Key) (action : Action) (mask : ℕ)
    → mask_after key action mask ≡ stored (key_bit key) action mask
unfolding mask_after
mask_after-stored key press mask = refl
mask_after-stored key release mask = refl
mask_after-stored key repeat mask = refl

two_pow-pos : (i : ℕ) → 0 < 2 ^ i
two_pow-pos zero = omega arith
two_pow-pos (suc i) = omega (arith, two_pow-pos i)

-- The mask that a bit of 0 leaves alone, and one of `2 ^ i` sets or clears.
bit_at-store :
    (o : Option ℕ) (action : Action) (j mask : ℕ)
    → j < 32
    → few o ≡ true
    → bit_at j (stored (bit_of o) action mask) ≡ held_after j o action (bit_at j mask)
bit_at-store none press j mask hj below = refl
bit_at-store none release j mask hj below = refl
bit_at-store none repeat j mask hj below = refl
bit_at-store (some i) press j mask hj below = ground (arith, bit_at-set_bit j i mask, two_pow-pos i)
bit_at-store (some i) release j mask hj below =
    ground (arith, bit_at-clear_bit j i mask hj (ltb→lt i 32 below), two_pow-pos i)
bit_at-store (some i) repeat j mask hj below = refl

mask_after-held :
    (key : Key) (action : Action) (j mask : ℕ)
    → j < 32
    → bit_at j (mask_after key action mask) ≡ held_after j (direction key) action (bit_at j mask)
mask_after-held key action j mask hj =
    ap (bit_at j) (mask_after-stored key action mask)
    ∙ ap (λ b. bit_at j (stored b action mask)) (key_bit_lem key).0
    ∙ bit_at-store (direction key) action j mask hj (key_bit_lem key).1

-- A key event: the window's user pointer, the key and the action.
abbrev pub Event : Type 0
Event = ℤ × Key × Action

pub run : {fl : Floats} → Glfw → List Event → Host fl → Host fl
run glfw [] h = h
run glfw ((id, key, action) ∷ events) h = run glfw events (glfw_key_callback glfw id key action h).0

abbrev pub is_at : ℕ → Option ℕ → Bool
is_at w none = false
is_at w (some v) = v == w

-- Whether direction `j` of window `w` is held after the events: the last press or release of its
-- key in this window decides, and before the first one the bit that was there.
pub held : (w j : ℕ) → List Event → ℕ → ℕ
held w j [] b = b
held w j ((id, key, action) ∷ events) b =
    held w j events (if is_at w (window id) then held_after j (direction key) action b else b)

key_on-mask :
    {fl : Floats} (glfw : Glfw) (o : Option ℕ) (key : Key) (action : Action) (h : Host fl) (w : ℕ)
    → ((key_on glfw o key action h).0.mailbox.tenants w).wasd_mask ≡ (
        if is_at w o
        then mask_after key action (h.mailbox.tenants w).wasd_mask
        else (h.mailbox.tenants w).wasd_mask)
unfolding key_on key_tenant
key_on-mask glfw none key action h w = refl
key_on-mask {fl} glfw (some v) key action h w =
    ap (λ (t : TenantMailbox fl). t.wasd_mask)
      (update_change h.mailbox.tenants (key_tenant glfw key action) v w)
    ∙ ap-if (λ (t : TenantMailbox fl). t.wasd_mask) (v == w)
        (key_tenant glfw key action (h.mailbox.tenants w)) (h.mailbox.tenants w)

-- After any key events, bit `j` of a window's mask, for `j` below 32, is what `held` says: 1 if the
-- last press or release of the key of direction `j` in this window was a press, 0 if it was a
-- release, and the bit from before if there was neither.
pub run-held :
    {fl : Floats} (glfw : Glfw) (events : List Event) (h : Host fl) (w j : ℕ)
    → j < 32
    → bit_at j ((run glfw events h).mailbox.tenants w).wasd_mask
      ≡ held w j events (bit_at j (h.mailbox.tenants w).wasd_mask)
unfolding run held glfw_key_callback
run-held glfw [] h w j hj = refl
run-held glfw ((id, key, action) ∷ events) h w j hj =
    run-held glfw events (glfw_key_callback glfw id key action h).0 w j hj
    ∙ ap (held w j events) (
        ap (bit_at j) (key_on-mask glfw (window id) key action h w)
        ∙ ap-if (bit_at j) (is_at w (window id)) _ _
        ∙ ap (λ x. if is_at w (window id) then x else bit_at j (h.mailbox.tenants w).wasd_mask)
            (mask_after-held key action j (h.mailbox.tenants w).wasd_mask hj))
