-- ===== src/Tenant/Mouse/Motion.antt =====
-- The motion that the Lua thread reads: the sum of the steps of the cursor since it last read it.
use chess_rts.Base.{
  ℕ, ◌<◌, ◌≡◌, refl, ap, ◌∙◌, false, some, List, [], ◌∷◌, update_self, lt→leb_false,
}
use chess_rts.Base.Int.{pos}
use chess_rts.State.{max_windows, Floats, TenantMailbox, IpcMailbox}
use chess_rts.Tenant.{window}
use chess_rts.Tenant.Keys.{Host}
use chess_rts.Tenant.Mouse.{last_position, cursor_tenant, cursor_on, glfw_cursor_callback}
use chess_rts.Tenant.Input.{vx_input_mouse_dx}

module _ (fl : Floats) where
  -- The cursor's places, in order.
  abbrev pub Places : Type 0
  Places = List (fl.Double × fl.Double)

  pub moved : (w : ℕ) → Places → Host fl → Host fl
  moved w [] h = h
  moved w ((x, y) ∷ places) h = moved w places (glfw_cursor_callback (pos w) x y h)

  -- The sum so far, and the steps from the last place on, added one after the other.
  pub steps_x : fl.Float → fl.Double → Places → fl.Float
  steps_x sum last [] = sum
  steps_x sum last ((x, _) ∷ places) = steps_x (fl.add sum (fl.narrow (fl.sub x last))) x places

  cursor_callback_lem :
      (w : ℕ) (x y : fl.Double) (h : Host fl)
      → w < max_windows
      → glfw_cursor_callback (pos w) x y h ≡ cursor_on (some w) x y h
  unfolding glfw_cursor_callback window
  cursor_callback_lem w x y h lt = rw (lt→leb_false w max_windows lt) refl

  dx-cursor_on :
      (w : ℕ) (x y : fl.Double) (h : Host fl) (last : fl.Double)
      → h.callbacks.first_mouse w ≡ false
      → h.callbacks.last_mx w ≡ last
      → ((cursor_on (some w) x y h).mailbox.tenants w).mouse_dx
        ≡ fl.add (h.mailbox.tenants w).mouse_dx (fl.narrow (fl.sub x last))
  unfolding cursor_on cursor_tenant
  dx-cursor_on w x y h last first at =
      ap (λ (t : TenantMailbox fl). t.mouse_dx) (update_self h.mailbox.tenants w _)
      ∙ ap (λ f. stepped (last_position f x (h.callbacks.last_mx w))) first
      ∙ ap stepped at
    where
      stepped : fl.Double → fl.Float
      stepped l = fl.add (h.mailbox.tenants w).mouse_dx (fl.narrow (fl.sub x l))

  moved-steps :
      (w : ℕ) (places : Places) (h : Host fl) (last : fl.Double)
      → w < max_windows
      → h.callbacks.first_mouse w ≡ false
      → h.callbacks.last_mx w ≡ last
      → ((moved w places h).mailbox.tenants w).mouse_dx
        ≡ steps_x (h.mailbox.tenants w).mouse_dx last places
  unfolding moved steps_x cursor_on cursor_tenant
  moved-steps w [] h last lt first at = refl
  moved-steps w ((x, y) ∷ places) h last lt first at =
      ap (λ (k : Host fl). ((moved w places k).mailbox.tenants w).mouse_dx)
        (cursor_callback_lem w x y h lt)
      ∙ moved-steps w places (cursor_on (some w) x y h) x lt
          (update_self h.callbacks.first_mouse w false) (update_self h.callbacks.last_mx w x)
      ∙ ap (λ s. steps_x s x places) (dx-cursor_on w x y h last first at)

  mouse_dx_lem :
      (w : ℕ) (m : IpcMailbox fl)
      → w < max_windows
      → (vx_input_mouse_dx (pos w) m).0 ≡ (m.tenants w).mouse_dx
  unfolding vx_input_mouse_dx window
  mouse_dx_lem w m lt = rw (lt→leb_false w max_windows lt, vx_input_mouse_dx) refl

  mouse_dx_emptied :
      (w : ℕ) (m : IpcMailbox fl)
      → w < max_windows
      → ((vx_input_mouse_dx (pos w) m).1.tenants w).mouse_dx ≡ fl.float_zero
  unfolding vx_input_mouse_dx window
  mouse_dx_emptied w m lt =
      rw (lt→leb_false w max_windows lt, vx_input_mouse_dx)
        (ap (λ (t : TenantMailbox fl). t.mouse_dx) (update_self m.tenants w _))

  -- After any cursor events of a window in range that has had one before, `vx_input_mouse_dx` returns what
  -- was left there plus the steps of the cursor, added in order, and leaves nothing: each step is
  -- reported once.
  pub motion-reported :
      (w : ℕ) (places : Places) (h : Host fl)
      → w < max_windows
      → h.callbacks.first_mouse w ≡ false
      → let r = vx_input_mouse_dx (pos w) (moved w places h).mailbox in
        (r.0 ≡ steps_x (h.mailbox.tenants w).mouse_dx (h.callbacks.last_mx w) places)
        × ((r.1.tenants w).mouse_dx ≡ fl.float_zero)
  motion-reported w places h lt first = (
    mouse_dx_lem w (moved w places h).mailbox lt
        ∙ moved-steps w places h (h.callbacks.last_mx w) lt first refl,
    mouse_dx_emptied w (moved w places h).mailbox lt,
  )
