-- ===== src/Render/Handshake/Late.antt =====
-- A reset that comes between the loads of the render thread and its store of `local_read`.
use chess_rts.Base.{
  ℕ, zero, suc, ◌+◌, ◌*◌, ◌≡◌, refl, inl, inr, true, false, some, [], arith, ◌∙◌, ap, sym,
  if◌then◌else◌, Bool-cases, Option-cases, ◌%◌, ◌^◌, bit_or, ◌≢◌, update, update_self, ◌<◌,
}
use mathlib.Core.Path.{subst}
use chess_rts.Base.Int.{ℤ, pos, minus_one, eqb_ℤ}
use chess_rts.State.{max_windows, RenderThreadInit, RenderRing, Floats, Globals}
use chess_rts.Ring.{reset_ring, quiet, vx_stream_acquire}
use chess_rts.Ring.Quiet.{acquire_free}
use chess_rts.Ring.Reset.{bits-reset_ring}
use chess_rts.Render.{
  take_oldest, finish_slot, frame_slots, new_local_read, is_read, render_take, took,
}
use chess_rts.Render.Frame.{FrameAnswers, no_image}
use chess_rts.Boot.{restart, set_wsi}
use chess_rts.Render.Handshake.{
  RenderAt, away, picked, claimed, InitAt, outside, waiting, render_clear, copying, Meeting,
  set_local, render_step, init_step, MeetReach, here, next, render, call, init,
}
use chess_rts.Render.Handshake.Reset.{init_steps, init_steps-restart}

abbrev with_init : {fl : Floats} → Meeting fl → InitAt × Globals fl → Meeting fl
with_init s (i, g) = record s { globals = g; init = i }

init_steps-MeetReach :
    {fl : Floats} {w : ℕ} (left : ℕ) {s : Meeting fl} (t : Meeting fl)
    → MeetReach w s t
    → MeetReach w s (with_init t (init_steps left w (t.init, t.globals)))
unfolding init_steps
init_steps-MeetReach zero t r = r
init_steps-MeetReach {w = w} (suc left) t r =
    init_steps-MeetReach left (with_init t (init_step w t.init t.globals)) (next r init)

abbrev any_answers : FrameAnswers
any_answers = record { wait_times_out = true; acquire = no_image; submit_ok = true }

-- The render thread away from the window, and no call under way.
abbrev pub apart : {fl : Floats} → Globals fl → ℕ → Meeting fl
apart g t_frame = record {
  globals = g;
  t_frame = t_frame;
  render = away;
  init = outside;
  calls = [];
}

abbrev wanted : {fl : Floats} → ℕ → Globals fl → ℤ
wanted w g = new_local_read (g.ring.local_read w) (w * 4)

abbrev stopped : {fl : Floats} → ℕ → Globals fl → Globals fl
stopped w g = set_wsi w (pos 0) g

-- The globals that are left: reset, but for `local_read`.
abbrev late_globals : {fl : Floats} → ℕ → RenderThreadInit → Globals fl → Globals fl
late_globals w wsi g = set_local w (wanted w g) (restart w wsi (stopped w g))

module _ {fl : Floats} (w : ℕ) (wsi : RenderThreadInit) (g : Globals fl) (t_frame : ℕ) where
  abbrev between : Globals fl → RenderAt → InitAt → Meeting fl
  between g' r i = record (apart g' t_frame) { render = r; init = i }

  module _ (new : is_read (g.ring.ready_idx w) (g.ring.local_read w) ≡ false)
      (idle_render : g.render_busy w ≡ pos 0) (idle_transfer : g.transfer_busy w ≡ pos 0) where
    to_picked :
        MeetReach w (apart g t_frame) (between (stopped w g) (picked (wanted w g)) (waiting wsi))
    unfolding render_step
    to_picked =
        next
          (next (next here (render any_answers refl)) (
            render any_answers
              (ap (λ b. some (between g (if b then away else picked (wanted w g)) outside)) new)))
          (call wsi refl)

    to_copying :
        MeetReach w (apart g t_frame) (between (stopped w g) (picked (wanted w g)) (copying wsi))
    unfolding init_step
    to_copying =
        subst (λ i. MeetReach w (apart g t_frame) (between (stopped w g) (picked (wanted w g)) i))
          (ap (λ (x : ℤ). if eqb_ℤ x (pos 0) then copying wsi else waiting wsi) idle_transfer)
          (next
            (subst
              (λ i. MeetReach w (apart g t_frame) (between (stopped w g) (picked (wanted w g)) i))
              (ap (λ (x : ℤ). if eqb_ℤ x (pos 0) then render_clear wsi else waiting wsi)
                idle_render)
              (next to_picked init))
            init)

    to_late :
        MeetReach w
          (apart g t_frame)
          (between (late_globals w wsi g) (claimed (wanted w g)) outside)
    unfolding render_step
    to_late =
        next
          (subst
            (λ (i : InitAt × Globals fl).
              MeetReach w (apart g t_frame)
                (with_init (between (stopped w g) (picked (wanted w g)) (copying wsi)) i))
            (init_steps-restart w wsi (stopped w g))
            (init_steps-MeetReach 15 (between (stopped w g) (picked (wanted w g)) (copying wsi))
              to_copying))
          (render any_answers refl)

-- Whatever is taken is the slot after `local_read`.
taken_slot :
    (w m t_frame : ℕ) (r : RenderRing) {i : ℤ} {frame : ℕ} {ring : RenderRing}
    → render_take w m t_frame r ≡ took i frame ring
    → new_local_read (r.local_read w) (w * 4) ≡ i
unfolding render_take take_oldest
taken_slot w m t_frame r q = elim (Bool-cases (is_read (r.ready_idx w) (r.local_read w))) [
  | inl read ↦ absurd (cc (rw read at q))
  | inr new ↦
      elim (Option-cases (
        finish_slot (r.active_ring_slots w (t_frame % frame_slots m))
          (new_local_read (r.local_read w) (w * 4)) r.locked_mask)) [
            | inl bad ↦ absurd (cc (rw (new, bad, take_oldest) at q))
            | inr (mask, ok) ↦ cc (rw (new, ok, take_oldest) at q)
          ]
]

next_slot : (w j : ℕ) → j < 3 → new_local_read (pos (w * 4 + j)) (w * 4) ≡ pos (w * 4 + (j + 1))
unfolding new_local_read
next_slot w j few = ground arith

pos_ne : (w j : ℕ) → pos (w * 4 + (j + 1)) ≢ pos (w * 4 + 0)
pos_ne w j e = ground arith

not_taken :
    (w j m t_frame : ℕ) (r : RenderRing)
    → j < 3
    → r.local_read w ≡ pos (w * 4 + j)
    → (frame : ℕ) (ring : RenderRing)
    → render_take w m t_frame r ≢ took (pos (w * 4 + 0)) frame ring
not_taken w j m t_frame r few e frame ring q = pos_ne w j (
    sym (next_slot w j few)
    ∙ sym (ap (λ i. new_local_read i (w * 4)) e)
    ∙ taken_slot w m t_frame r q)

late_mask :
    {fl : Floats} (w : ℕ) (wsi : RenderThreadInit) (g : Globals fl)
    → w < max_windows
    → vx_stream_acquire (pos w) (late_globals w wsi g).ring quiet
      ≡ some (
        pos (w * 4 + 0),
        record (late_globals w wsi g).ring {
          locked_mask = bit_or (late_globals w wsi g).ring.locked_mask (2 ^ (w * 4 + 0));
        },
      )
unfolding restart reset_ring
late_mask w wsi g lt =
    acquire_free w 0 (late_globals w wsi g).ring lt
      (inl (update_self g.ring.ready_idx w minus_one, refl)) (omega arith)
      (ground (arith, bits-reset_ring w w 0 g.ring lt lt (omega arith)))

-- Between the two loads of the render thread and its store of `local_read`, a call of
-- `vx_stream_init` finds the busy flags clear and resets the window, and the store then undoes part
-- of the reset. The call has succeeded and `ready_idx` is -1, but `local_read` is the slot that the
-- render thread wanted before. `vx_stream_acquire` gives the first slot of the window, and once
-- that is committed, the render thread does not take it next, unless the wanted slot was the last
-- of the window.
pub late_claim :
    {fl : Floats} (w j : ℕ) (wsi : RenderThreadInit) (g : Globals fl) (t_frame : ℕ)
    → w < max_windows
    → j < 3
    → is_read (g.ring.ready_idx w) (g.ring.local_read w) ≡ false
    → new_local_read (g.ring.local_read w) (w * 4) ≡ pos (w * 4 + j)
    → g.render_busy w ≡ pos 0
    → g.transfer_busy w ≡ pos 0
    → (t : Meeting fl) × MeetReach w (apart g t_frame) t
      × (t.init ≡ outside)
      × (t.globals.wsi_state w ≡ pos 1)
      × (t.globals.ring.ready_idx w ≡ minus_one)
      × ((mask : ℕ) × (vx_stream_acquire (pos w) t.globals.ring quiet
            ≡ some (pos (w * 4 + 0), record (t.globals.ring) { locked_mask = mask })))
      × ((max_frames k frame : ℕ) (r ring : RenderRing)
          → r.local_read w ≡ t.globals.ring.local_read w
          → render_take w max_frames k r ≢ took (pos (w * 4 + 0)) frame ring)
unfolding restart reset_ring
late_claim w j wsi g t_frame lt few new e idle_render idle_transfer = (
  _,
  to_late w wsi g t_frame new idle_render idle_transfer,
  refl,
  update_self (stopped w g).wsi_state w (pos 1),
  update_self g.ring.ready_idx w minus_one,
  (_, late_mask w wsi g lt),
  λ m k frame r ring same.
      not_taken w j m k r few
        (same ∙ update_self (update g.ring.local_read w minus_one) w (wanted w g) ∙ e) frame ring,
)
