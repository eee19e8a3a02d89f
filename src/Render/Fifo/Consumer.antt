-- ===== src/Render/Fifo/Consumer.antt =====
-- The bookkeeping of the render thread keeps the invariant, and is never undefined.
use chess_rts.Base.{
  ℕ, zero, suc, ◌+◌, ◌-◌, ◌*◌, ◌%◌, ◌^◌, ◌≤◌, ◌<◌, ◌≡◌, ◌≢◌, refl, ◌⊎◌, some, [], ◌∷◌, ◌++◌, arith,
  ◌∙◌, ap, bit_and, ◌==◌, if◌then◌else◌, true, false, ◌||◌, update_self,
}
use mathlib.Core.Path.{subst}
use native.Mathlib.Nat.{mod-eq_of_lt}
use chess_rts.Base.Int.{ℤ, minus_one, eqb_ℤ}
use chess_rts.Base.Bits.{bit_at, bit_not}
use chess_rts.State.{RenderRing, max_windows}
use chess_rts.Ring.Mask.{bit_at-clear_bit}
use chess_rts.Render.{
  frame_slots, new_local_read, unlock, finish_slot, idle, took, store_active, render_take,
  take_oldest,
}
use chess_rts.Render.Fifo.System.{System}
use chess_rts.Render.Fifo.Inv.{last_slot, Inv}

new_local_read_lem :
    (w read : ℕ) → new_local_read (last_slot w read) (w * 4) ≡ last_slot w (suc read)
unfolding new_local_read
new_local_read_lem w zero = ground arith
new_local_read_lem w (suc k) = ground arith

-- The mask after the frame slot that held packet `old - 1` (none at 0) is given to packet `read`.
abbrev pub finished_mask : ℕ → ℕ → ℕ → ℕ
finished_mask w zero mask = mask
finished_mask w (suc k) mask = bit_and mask (bit_not 32 (2 ^ (w * 4 + k % 4)))

finish_slot_lem :
    (w old read mask : ℕ)
    → w < max_windows
    → (old ≡ 0) ⊎ ((old ≤ read) × (read < old + 3))
    → finish_slot (last_slot w old) (last_slot w (suc read)) mask ≡ some (finished_mask w old mask)
unfolding finish_slot unlock
finish_slot_lem w zero read mask lt h = refl
finish_slot_lem w (suc k) read mask lt h = ground arith

-- The packets still in a frame slot stay locked, and the finished one is unlocked.
finished_locked :
    (w old k mask : ℕ)
    → w < max_windows
    → old ≤ k
    → k < old - 1 + 4
    → bit_at (w * 4 + k % 4) mask ≡ 1
    → bit_at (w * 4 + k % 4) (finished_mask w old mask) ≡ 1
finished_locked w zero k mask lt lo hi h = h
finished_locked w (suc o) k mask lt lo hi h =
    ground
      (arith, bit_at-clear_bit (w * 4 + k % 4) (w * 4 + o % 4) mask (omega arith) (omega arith))

finished_free :
    (w old k mask : ℕ)
    → w < max_windows
    → k < old + 4
    → (k < old - 1 + 4 → bit_at (w * 4 + k % 4) mask ≡ 0)
    → bit_at (w * 4 + k % 4) (finished_mask w old mask) ≡ 0
finished_free w zero k mask lt hi h = h (omega arith)
finished_free w (suc o) k mask lt hi h =
    ground
      (arith, bit_at-clear_bit (w * 4 + k % 4) (w * 4 + o % 4) mask (omega arith) (omega arith), h)

-- The frame slots, counted back from the one just filled.
back_zero : (n t : ℕ) → 0 < n → n < 4 → t < n → ((t + 1) % n + n - 1 - 0) % n ≡ t
back_zero zero t a b c = absurd (omega arith)
back_zero (suc zero) t a b c = omega arith
back_zero (suc (suc zero)) t a b c = omega arith
back_zero (suc (suc (suc zero))) t a b c = omega arith
back_zero (suc (suc (suc (suc n)))) t a b c = absurd (omega arith)

back_suc :
    (n t i : ℕ)
    → 0 < n
    → n < 4
    → t < n
    → suc i < n
    → (((t + 1) % n + n - 1 - suc i) % n ≡ (t + n - 1 - i) % n) × ((t + n - 1 - i) % n ≢ t)
back_suc zero t i a b c d = absurd (omega arith)
back_suc (suc zero) t i a b c d = absurd (omega arith)
back_suc (suc (suc zero)) t i a b c d = (omega arith, omega arith)
back_suc (suc (suc (suc zero))) t i a b c d = (omega arith, omega arith)
back_suc (suc (suc (suc (suc n)))) t i a b c d = absurd (omega arith)

-- A window with nothing new is skipped.
render_take_idle :
    (w m t : ℕ) (r : RenderRing)
    → (eqb_ℤ (r.ready_idx w) minus_one || eqb_ℤ (r.ready_idx w) (r.local_read w)) ≡ true
    → render_take w m t r ≡ idle
unfolding render_take
render_take_idle w m t r e = rw e

render_take_took :
    (w m t : ℕ) (r : RenderRing) (read_idx : ℤ) (mask : ℕ)
    → (eqb_ℤ (r.ready_idx w) minus_one || eqb_ℤ (r.ready_idx w) (r.local_read w)) ≡ false
    → new_local_read (r.local_read w) (w * 4) ≡ read_idx
    → finish_slot (r.active_ring_slots w (t % frame_slots m)) read_idx r.locked_mask ≡ some mask
    → render_take w m t r
      ≡ took read_idx (t % frame_slots m) (store_active w (t % frame_slots m) read_idx r mask)
unfolding render_take take_oldest
render_take_took w m t r read_idx mask e q f =
    let f' : finish_slot (r.active_ring_slots w (t % frame_slots m))
          (new_local_read (r.local_read w) (w * 4)) r.locked_mask
        ≡ some mask =
      rw q f in
    rw (e, f', take_oldest) (rw q)

-- Whether the window has something new, by the counts.
pub nothing_new :
    (w done read : ℕ)
    → read ≤ done
    → done < read + 4 + (if read == 0 then 1 else 0)
    → (eqb_ℤ (last_slot w done) minus_one || eqb_ℤ (last_slot w done) (last_slot w read))
      ≡ (done == read)
nothing_new w zero zero le lt = refl
nothing_new w zero (suc read) le lt = absurd (omega arith)
nothing_new w (suc done) zero le lt = ground arith
nothing_new w (suc done) (suc read) le lt = ground arith

module _ {w done read : ℕ} {s : System} (m : ℕ) (v : Inv w (frame_slots m) done read s) where
  abbrev n : ℕ
  n = frame_slots m

  frame_mod : s.t_frame % frame_slots m ≡ s.t_frame
  frame_mod = mod-eq_of_lt v.frame

  test_lem :
      (eqb_ℤ (s.ring.ready_idx w) minus_one || eqb_ℤ (s.ring.ready_idx w) (s.ring.local_read w))
      ≡ (done == read)
  test_lem = rw (v.ready, v.local) (nothing_new w done read v.order (ground (arith, v.room, v.few)))

  pub take_nothing : done ≡ read → render_take w m s.t_frame s.ring ≡ idle
  take_nothing e = render_take_idle w m s.t_frame s.ring (test_lem ∙ ground arith)

  oldest : s.ring.active_ring_slots w s.t_frame ≡ last_slot w (read - (n - 1))
  oldest =
      subst (λ x. s.ring.active_ring_slots w x ≡ last_slot w (read - (n - 1)))
        (ap (λ k. k % n) (omega (arith, v.few)) ∙ frame_mod)
        (v.active (n - 1) (omega (arith, v.few)))

  abbrev next_mask : ℕ
  next_mask = finished_mask w (read - (n - 1)) s.ring.locked_mask

  finishes :
      finish_slot (s.ring.active_ring_slots w s.t_frame) (last_slot w (suc read)) s.ring.locked_mask
      ≡ some next_mask
  finishes = rw oldest (
      finish_slot_lem w (read - (n - 1)) read s.ring.locked_mask v.in_range (ground (arith, v.few)))

  pub take_next :
      read < done
      → render_take w m s.t_frame s.ring
        ≡ took
            (last_slot w (suc read))
            s.t_frame
            (store_active w s.t_frame (last_slot w (suc read)) s.ring next_mask)
  take_next lt = rw frame_mod at (
      render_take_took w m s.t_frame s.ring (last_slot w (suc read)) next_mask
        (test_lem ∙ ground arith) (rw v.local (new_local_read_lem w read)) (rw frame_mod finishes))

  abbrev pub next_ring : RenderRing
  next_ring = store_active w s.t_frame (last_slot w (suc read)) s.ring next_mask

  cell_self : next_ring.active_ring_slots w s.t_frame ≡ last_slot w (suc read)
  unfolding store_active
  cell_self = ground arith

  cell_ne : (f : ℕ) → f ≢ s.t_frame → next_ring.active_ring_slots w f ≡ s.ring.active_ring_slots w f
  unfolding store_active
  cell_ne f h = ground arith

  next_active :
      (j : ℕ)
      → j < n
      → next_ring.active_ring_slots w (((s.t_frame + 1) % n + n - 1 - j) % n)
        ≡ last_slot w (suc read - j)
  next_active zero h =
      ap (next_ring.active_ring_slots w) (back_zero n s.t_frame h v.few.1 v.frame)
      ∙ cell_self
      ∙ ap (last_slot w) {x = suc read} (omega arith)
  next_active (suc i) h =
      let (same, other) = back_suc n s.t_frame i v.few.0 v.few.1 v.frame h in
      ap (next_ring.active_ring_slots w) same
      ∙ cell_ne _ other
      ∙ v.active i (omega arith)
      ∙ ap (last_slot w) (omega arith)

  pub take-Inv :
      read < done
      → Inv w n done (suc read) (record s {
        ring = next_ring;
        t_frame = (s.t_frame + 1) % n;
        taken = s.taken ++ last_slot w (suc read) ∷ [];
      })
  unfolding store_active
  take-Inv lt = record {
    in_range = v.in_range;
    few = v.few;
    ready = v.ready;
    local = update_self s.ring.local_read w (last_slot w (suc read));
    order = lt;
    room = omega (arith, v.room, v.few);
    hold = v.hold;
    locked = λ k lo hi.
        finished_locked w (read - (n - 1)) k s.ring.locked_mask v.in_range (omega (arith, v.few))
          (omega (arith, v.few, v.room)) (v.locked k (omega (arith, v.few)) hi);
    free = λ k lo hi.
        finished_free w (read - (n - 1)) k s.ring.locked_mask v.in_range (omega (arith, v.few))
          (λ below. v.free k lo (omega (arith, v.few)));
    frame = omega (arith, v.few);
    active = next_active;
    committed = v.committed;
    taken = ap (λ l. l ++ last_slot w (suc read) ∷ []) v.taken;
  }
