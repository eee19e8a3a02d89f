-- ===== src/Render/Handshake/Reset.antt =====
-- host/ipc/ring_stream.c: the stores of `vx_stream_init` in one go are the reset of the window.
use chess_rts.Base.{
  ℕ, zero, suc, ◌+◌, ◌*◌, ◌≡◌, refl, arith, ◌∙◌, ap, if◌then◌else◌, ltb, lt→ltb, update, bit_and,
}
use mathlib.Core.Path.{fun_ext}
use chess_rts.Base.Bits.{bit_not}
use chess_rts.Base.Int.{ℤ, pos, minus_one}
use mathlib.Core.Option
use chess_rts.Render.Frame.{FrameAnswers, render_window}
use chess_rts.Render.Handshake.Whole.{whole_round, rendered, whole_round-render_window}
use chess_rts.State.{RenderThreadInit, Floats, Globals}
use chess_rts.Ring.{tenant_mask, reset_ring}
use chess_rts.Boot.{restart, set_wsi}
use chess_rts.Render.Handshake.{
  InitAt, Meeting, outside, copying, clearing_active, opening, store_ring, init_step,
}

-- `left` accesses of `vx_stream_init`.
unfoldable pub init_steps :
    {fl : Floats} → (left win_id : ℕ) → InitAt × Globals fl → InitAt × Globals fl
init_steps zero win_id s = s
init_steps (suc left) win_id (i, g) = init_steps left win_id (init_step win_id i g)

-- The first `f` frame slots of the window are cleared.
abbrev cleared : ℕ → ℕ → (ℕ → ℕ → ℤ) → ℕ → ℕ → ℤ
cleared w f slots_of = update slots_of w (λ k. if ltb k f then minus_one else slots_of w k)

clear_next :
    (w f : ℕ) (slots_of : ℕ → ℕ → ℤ)
    → update (cleared w f slots_of) w (update (cleared w f slots_of w) f minus_one)
      ≡ cleared w (f + 1) slots_of
clear_next w f slots_of = fun_ext λ v. fun_ext λ k. ground arith

clear_none : (w : ℕ) (slots_of : ℕ → ℕ → ℤ) → slots_of ≡ cleared w 0 slots_of
clear_none w slots_of = fun_ext λ v. fun_ext λ k. ground arith

module _ {fl : Floats} (w : ℕ) (g : Globals fl) where
  abbrev with_active : (ℕ → ℕ → ℤ) → Globals fl
  with_active slots_of = store_ring (record g.ring { active_ring_slots = slots_of }) g

  abbrev with_cleared : ℕ → Globals fl
  with_cleared f = with_active (cleared w f g.ring.active_ring_slots)

  clear_step :
      (f : ℕ)
      → init_step w (clearing_active f) (with_cleared f)
        ≡ (if ltb f 9 then clearing_active (f + 1) else opening, with_cleared (f + 1))
  unfolding init_step
  clear_step f =
      ap (λ slots_of. (if ltb f 9 then clearing_active (f + 1) else opening, with_active slots_of))
        (clear_next w f g.ring.active_ring_slots)

  clearing :
      (left f : ℕ)
      → f + left ≡ 9
      → init_steps (suc (suc left)) w (clearing_active f, with_cleared f)
        ≡ (outside, set_wsi w (pos 1) (with_cleared 10))
  unfolding init_steps init_step
  clearing zero f e = ap (init_steps 1 w) (
      clear_step f
      ∙ ap (λ x. (if ltb x 9 then clearing_active (x + 1) else opening, with_cleared (x + 1)))
          {x = f} {y = 9} (omega arith))
  clearing (suc left) f e =
      ap (init_steps (suc (suc left)) w) (
        clear_step f
        ∙ ap (λ b. (if b then clearing_active (f + 1) else opening, with_cleared (f + 1)))
            (lt→ltb f 9 (omega arith)))
      ∙ clearing left (f + 1) (omega arith)

-- All but the frame slots.
abbrev opened : {fl : Floats} → ℕ → RenderThreadInit → Globals fl → Globals fl
opened w wsi g = record g {
  window_wsi = update g.window_wsi w wsi;
  ring = record g.ring {
    locked_mask = bit_and g.ring.locked_mask (bit_not 32 (tenant_mask (w * 4)));
    ready_idx = update g.ring.ready_idx w minus_one;
    local_read = update g.ring.local_read w minus_one;
  };
}

pub init_steps-restart :
    {fl : Floats} (w : ℕ) (wsi : RenderThreadInit) (g : Globals fl)
    → init_steps 15 w (copying wsi, g) ≡ (outside, restart w wsi g)
unfolding init_steps init_step restart reset_ring
init_steps-restart w wsi g =
    ap (λ slots_of. init_steps 11 w (clearing_active 0, with_active w (opened w wsi g) slots_of))
      (clear_none w g.ring.active_ring_slots)
    ∙ clearing w (opened w wsi g) 9 0 refl

-- If nothing comes between them, the accesses of the render thread are the round of the window in
-- one step: the same globals, frame counter and Vulkan calls, and undefined behaviour where that
-- has it. And the fifteen accesses of `vx_stream_init` after its wait are its reset in one step.
in_one_go :
    {fl : Floats} (a : FrameAnswers) (w : ℕ) (s : Meeting fl) (wsi : RenderThreadInit)
    (g : Globals fl)
    → (whole_round a w s ≡ Option.map (rendered s) (render_window a w s.t_frame s.globals))
      × (init_steps 15 w (copying wsi, g) ≡ (outside, restart w wsi g))
in_one_go a w s wsi g = (whole_round-render_window a w s, init_steps-restart w wsi g)
