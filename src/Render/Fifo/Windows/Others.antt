-- ===== src/Render/Fifo/Windows/Others.antt =====
-- What one window's steps leave alone: the other windows' parts of the shared ring.
use chess_rts.Base.{
  ℕ, zero, suc, ◌+◌, ◌-◌, ◌*◌, ◌%◌, ◌^◌, ◌<◌, ◌≡◌, ◌≢◌, refl, none, some, bit_or, arith, sym, ◌∙◌,
  update, update_ne,
}
use native.Mathlib.Decide.{dec_lt}
use chess_rts.Base.Int.{ℤ, pos}
use chess_rts.Base.Bits.{bit_at}
use chess_rts.State.{RenderPacket, RenderRing, max_windows}
use chess_rts.Ring.{quiet, vx_stream_acquire, vx_stream_commit}
use chess_rts.Ring.Mask.{bit_at-set_bit, bit_at-clear_bit}
use chess_rts.Render.{frame_slots, store_active, took, render_take}
use chess_rts.Render.Fifo.System.{System, SameWindow, Step, Reach, IsFresh}
use chess_rts.Render.Fifo.System
use chess_rts.Render.Fifo.Inv.{Inv}
use chess_rts.Render.Fifo.Producer.{acquire_next, acquire_none, commit_lem}
use chess_rts.Render.Fifo.Consumer.{finished_mask, take_nothing, take_next}
use chess_rts.Render.Fifo.Steps.{some_pair_inj, took_inj}
use chess_rts.Render.Fifo.Windows.{IsOwn}

same_ring : (w : ℕ) (r : RenderRing) → SameWindow w r r
same_ring w r = record { ready = refl; read = refl; active = λ f. refl; bits = λ j below. refl }

pub write-SameWindow :
    (w slot : ℕ) (p : RenderPacket) (r : RenderRing)
    → SameWindow w r (record r { packets = update r.packets slot p })
write-SameWindow w slot p r = record {
  ready = refl;
  read = refl;
  active = λ f. refl;
  bits = λ j below. refl;
}

module _ {v w : ℕ} (other : v ≢ w) (hv : v < max_windows) (hw : w < max_windows) where
  set-SameWindow :
      (r : RenderRing) (j : ℕ)
      → j < 4
      → SameWindow w r (record r { locked_mask = bit_or r.locked_mask (2 ^ (v * 4 + j)) })
  set-SameWindow r j lt = record {
    ready = refl;
    read = refl;
    active = λ f. refl;
    bits = λ i below. ground (arith, bit_at-set_bit (w * 4 + i) (v * 4 + j) r.locked_mask);
  }

  finished_bits :
      (old mask i : ℕ)
      → i < 4
      → bit_at (w * 4 + i) (finished_mask v old mask) ≡ bit_at (w * 4 + i) mask
  finished_bits zero mask i lt = refl
  finished_bits (suc k) mask i lt =
      ground (arith, bit_at-clear_bit (w * 4 + i) (v * 4 + k % 4) mask (omega arith) (omega arith))

  take-SameWindow :
      (r : RenderRing) (f old : ℕ) (i : ℤ)
      → SameWindow w r (store_active v f i r (finished_mask v old r.locked_mask))
  unfolding store_active
  take-SameWindow r f old i = record {
    ready = refl;
    read = update_ne r.local_read v w i other;
    active = λ k. ground arith;
    bits = λ j lt. finished_bits old r.locked_mask j lt;
  }

  commit-SameWindow : (r : RenderRing) (i : ℤ) → SameWindow w r (vx_stream_commit (pos v) i r)
  commit-SameWindow r i = rw (commit_lem v i r hv) (record {
    ready = update_ne r.ready_idx v w i other;
    read = refl;
    active = λ f. refl;
    bits = λ j lt. refl;
  })

  module _ {done read : ℕ} {s : System} (m : ℕ) (inv : Inv v (frame_slots m) done read s) where
    acquired-SameWindow :
        {i : ℤ} {r : RenderRing}
        → s.holding ≡ none
        → vx_stream_acquire (pos v) s.ring quiet ≡ some (i, r)
        → SameWindow w s.ring r
    acquired-SameWindow {i} {r} e q = elim (dec_lt done (read - frame_slots m + 4)) [
      | yes below ↦
          let (slot, ring) = some_pair_inj (sym q ∙ acquire_next inv e below) in
          rw ring (set-SameWindow s.ring (done % 4) (omega arith))
      | no full ↦
          let (slot, ring) =
            some_pair_inj (sym q ∙ acquire_none inv e (ground (arith, inv.room, full, e))) in
          rw ring (same_ring w s.ring)
    ]

    taken-SameWindow :
        {i : ℤ} {f : ℕ} {r : RenderRing}
        → render_take v m s.t_frame s.ring ≡ took i f r
        → SameWindow w s.ring r
    taken-SameWindow e = elim (dec_lt read done) [
      | yes lt ↦
          let (slot, frame, ring) = took_inj (sym e ∙ take_next m inv lt) in
          rw ring (take-SameWindow s.ring s.t_frame (read - (frame_slots m - 1)) _)
      | no le ↦ absurd (cc (take_nothing m inv (omega (arith, inv.order))))
    ]

    pub own-SameWindow : {t : System} (st : Step v m s t) → IsOwn st → SameWindow w s.ring t.ring
    own-SameWindow (System.acquire e q) yes_own = acquired-SameWindow e q
    own-SameWindow (System.refuse e q) yes_own = acquired-SameWindow e q
    own-SameWindow (System.commit {g} e) yes_own = commit-SameWindow s.ring (pos g)
    own-SameWindow (System.skip e) yes_own = same_ring w s.ring
    own-SameWindow (System.take e) yes_own = taken-SameWindow e
    own-SameWindow (System.elsewhere same) not_own = absurd not_own
