-- ===== src/Render/Fifo/Refill.antt =====
-- A window whose committed packets are all taken has a free slot.
use chess_rts.Base.{
  ℕ, zero, suc, ◌+◌, ◌*◌, ◌%◌, ◌<◌, ◌≡◌, refl, none, some, [], ◌∷◌, arith, ◌∙◌, ap, sym, length,
  length-append,
}
use chess_rts.Base.Int.{pos}
use chess_rts.State.{max_windows, RenderRing}
use chess_rts.Ring.{quiet, vx_stream_acquire}
use chess_rts.Render.Fifo.System.{System, Reach}
use chess_rts.Render.Fifo.Inv.{last_slot, slots}
use chess_rts.Render.Fifo.Producer.{acquire_next}
use chess_rts.Render.Fifo.Steps.{Reach-Counted}

length-slots : (w k : ℕ) → length (slots w k) ≡ k
length-slots w zero = refl
length-slots w (suc k) =
    omega (arith, length-append (slots w k) (last_slot w (suc k) ∷ []), length-slots w k)

pub caught_up :
    {w m : ℕ} {s : System}
    → w < max_windows
    → Reach w m s
    → s.holding ≡ none
    → s.taken ≡ s.committed
    → (slot : ℕ) × (ring : RenderRing) × (vx_stream_acquire (pos w) s.ring quiet
        ≡ some (pos (w * 4 + slot % 4), ring))
caught_up {w} lt reach empty same =
    let (done, read, v) = Reach-Counted lt reach in
    let level : read ≡ done =
      sym (length-slots w read)
      ∙ ap length (sym v.taken ∙ same ∙ v.committed)
      ∙ length-slots w done in
    (done, _, acquire_next v empty (omega (arith, level, v.few)))
