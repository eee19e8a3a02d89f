-- ===== src/Render/Fifo/Order.antt =====
-- What holds of a window's ring after any sequence of steps.
use chess_rts.Base.{
  ℕ, zero, suc, ◌+◌, ◌-◌, ◌*◌, ◌%◌, ◌≤◌, ◌<◌, ◌≡◌, ◌≢◌, refl, ◌⊎◌, inl, inr, some, List, [], ◌∷◌,
  ◌++◌, arith, ◌∙◌, ap, sym, length,
}
use mathlib.Core.List.{append-nil, append_assoc}
use native.Mathlib.Decide.{dec_lt}
use chess_rts.Base.Int.{ℤ, pos}
use chess_rts.Base.Bits.{bit_at}
use chess_rts.State.{max_windows}
use chess_rts.Render.{frame_slots, idle, took, store_active, render_take}
use chess_rts.Render.Fifo.System.{System, Reach}
use chess_rts.Render.Fifo.Inv.{last_slot, slots, Inv}
use chess_rts.Render.Fifo.Consumer.{take_nothing, take_next}
use chess_rts.Render.Fifo.Steps.{Reach-Counted}

-- The slots of the packets from number `k` on.
abbrev pub slots_from : ℕ → ℕ → ℕ → List ℤ
slots_from w k zero = []
slots_from w k (suc n) = last_slot w (suc k) ∷ slots_from w (suc k) n

length-slots_from : (w k n : ℕ) → length (slots_from w k n) ≡ n
length-slots_from w k zero = refl
length-slots_from w k (suc n) = ap suc (length-slots_from w (suc k) n)

slots-append : (w k n : ℕ) → slots w (k + n) ≡ slots w k ++ slots_from w k n
slots-append w k zero =
    ap (slots w) {x = k + 0} {y = k} (omega arith) ∙ sym (append-nil (slots w k))
slots-append w k (suc n) =
    ap (slots w) {x = k + suc n} {y = suc k + n} (omega arith)
    ∙ slots-append w (suc k) n
    ∙ append_assoc (slots w k) (last_slot w (suc k) ∷ []) (slots_from w (suc k) n)

-- The packets committed and not yet taken.
module _ {w n done read : ℕ} {s : System} (v : Inv w n done read s) where
  waiting : List ℤ
  waiting = slots_from w read (done - read)

  committed_split : s.committed ≡ s.taken ++ waiting
  unfolding waiting
  committed_split =
      v.committed
      ∙ ap (slots w) {x = done} {y = read + (done - read)} (omega (arith, v.order))
      ∙ slots-append w read (done - read)
      ∙ ap (λ l. l ++ slots_from w read (done - read)) (sym v.taken)

  length-waiting : length waiting ≤ 4
  unfolding waiting
  length-waiting = rw length-slots_from (ground (arith, v.room))

  committed_none : done ≡ read → s.committed ≡ s.taken
  committed_none e = v.committed ∙ ap (slots w) e ∙ sym v.taken

  committed_more :
      read < done
      → s.committed ≡ s.taken ++ last_slot w (suc read) ∷ slots_from w (suc read) (done - suc read)
  unfolding waiting
  committed_more lt =
      committed_split
      ∙ ap (λ k. s.taken ++ slots_from w read k) {x = done - read} {y = suc (done - suc read)}
          (omega arith)

-- In every state that the steps of a window in range reach from a fresh ring, the render thread has
-- taken the packets in the order of their commits and none twice: what it has taken is the start
-- of what was committed, and at most four packets are waiting.
pub taken-IsPrefix :
    {w m : ℕ} {s : System}
    → w < max_windows
    → Reach w m s
    → (waiting : List ℤ) × (s.committed ≡ s.taken ++ waiting) × (length waiting ≤ 4)
taken-IsPrefix lt r =
    let v = (Reach-Counted lt r).2 in (waiting v, committed_split v, length-waiting v)

-- The bookkeeping with the ring that it leaves.
pub render_take_stored :
    {w m : ℕ} {s : System}
    → w < max_windows
    → Reach w m s
    → ((render_take w m s.t_frame s.ring ≡ idle) × (s.committed ≡ s.taken))
      ⊎ ((slot : ℕ) × (f : ℕ) × (mask : ℕ) × (rest : List ℤ) × (render_take w m s.t_frame s.ring
            ≡ took (pos slot) f (store_active w f (pos slot) s.ring mask))
          × (s.committed ≡ s.taken ++ pos slot ∷ rest))
render_take_stored {w} {m} lt r =
    let (done, read, v) = Reach-Counted lt r in
    elim (dec_lt read done) [
      | yes more ↦ inr (_, _, _, _, take_next m v more, committed_more v more)
      | no none_left ↦
          inl (take_nothing m v (omega (arith, v.order)), committed_none v (omega (arith, v.order)))
    ]

-- `index` is the frame slot that was filled `back` frames ago.
frame_back :
    (n t f : ℕ) → 0 < n → n < 4 → t < n → f < n → (j : ℕ) × (j < n) × ((t + n - 1 - j) % n ≡ f)
frame_back zero t f a b c d = absurd (omega arith)
frame_back (suc zero) t f a b c d = (0, omega arith, omega arith)
frame_back (suc (suc zero)) t f a b c d = ((t + 1 + 2 - f) % 2, omega arith, omega arith)
frame_back (suc (suc (suc zero))) t f a b c d = ((t + 2 + 3 - f) % 3, omega arith, omega arith)
frame_back (suc (suc (suc (suc n)))) t f a b c d = absurd (omega arith)

last_slot-ne : (w k d : ℕ) → k ≤ d → (k ≢ 0 → d < k + 3) → last_slot w k ≢ pos (w * 4 + d % 4)
last_slot-ne w zero d lo hi e = cc
last_slot-ne w (suc k) d lo hi e = absurd (ground (arith, hi))

abbrev pub NotIn : ℤ → List ℤ → Type 0
NotIn x [] = Unit
NotIn x (y ∷ l) = (x ≢ y) × NotIn x l

slots_from-NotIn :
    (w k n d : ℕ) → k + n ≤ d → d < k + 4 → NotIn (pos (w * 4 + d % 4)) (slots_from w k n)
slots_from-NotIn w k zero d lo hi = tt
slots_from-NotIn w k (suc n) d lo hi =
    (λ e. ground arith, slots_from-NotIn w (suc k) n d (omega arith) (omega arith))

module _ {w n done read : ℕ} {s : System} (v : Inv w n done read s)
    (h : s.holding ≡ some (w * 4 + done % 4)) where
  active-ne : (f : ℕ) → f < n → s.ring.active_ring_slots w f ≢ pos (w * 4 + done % 4)
  active-ne f hf e =
      let (j, lt, at) = frame_back n s.t_frame f v.few.0 v.few.1 v.frame hf in
      last_slot-ne w (read - j) done (omega (arith, v.order)) (λ nz. ground (arith, v.room, h))
        (sym (v.active j lt) ∙ ap (s.ring.active_ring_slots w) at ∙ e)

  waiting-NotIn : NotIn (pos (w * 4 + done % 4)) (slots_from w read (done - read))
  waiting-NotIn =
      slots_from-NotIn w read (done - read) done (omega (arith, v.order))
        (ground (arith, v.room, h, v.few))

-- In every state that the steps of a window in range reach from a fresh ring, the slot that the Lua
-- thread holds is locked, it is in none of the frame slots, whose frames the GPU may still read,
-- and it is the slot of no packet that waits.
pub holding_exclusive :
    {w m g : ℕ} {s : System}
    → w < max_windows
    → Reach w m s
    → s.holding ≡ some g
    → (bit_at g s.ring.locked_mask ≡ 1)
      × ((f : ℕ) → f < frame_slots m → s.ring.active_ring_slots w f ≢ pos g)
      × ((waiting : List ℤ) × (s.committed ≡ s.taken ++ waiting) × NotIn (pos g) waiting)
unfolding waiting
holding_exclusive {w} {m} {g} {s} lt r h =
    let (done, read, v) = Reach-Counted lt r in
    let slot : g ≡ w * 4 + done % 4 = ground (arith, v.hold) in
    let h' : s.holding ≡ some (w * 4 + done % 4) = h ∙ ap some slot in
    rw slot (
      v.locked done (omega (arith, v.order)) (ground (arith, h')),
      active-ne v h',
      (slots_from w read (done - read), committed_split v, waiting-NotIn v h'),
    )
