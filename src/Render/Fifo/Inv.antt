-- ===== src/Render/Fifo/Inv.antt =====
-- The invariant of one window's ring. Slots are used in turn: the packet number `k`, counted from
-- 0, is in slot `k % 4` of the window.
use chess_rts.Base.{
  ℕ, zero, suc, ◌+◌, ◌-◌, ◌*◌, ◌%◌, ◌≤◌, ◌<◌, ◌≡◌, refl, ◌⊎◌, inl, inr, Option, none, some, List,
  [], ◌∷◌, ◌++◌, arith, ◌∙◌, ap, sym,
}
use chess_rts.Base.Int.{ℤ, pos, minus_one}
use chess_rts.Base.Bits.{bit_at}
use chess_rts.State.{max_windows}
use chess_rts.Ring.Acquire.{ReadyAt}
use chess_rts.Render.{frame_slots}
use chess_rts.Render.Fifo.System.{System, IsFresh}

-- The slot of the last of the first `k` packets, -1 if there is none.
abbrev pub last_slot : ℕ → ℕ → ℤ
last_slot w zero = minus_one
last_slot w (suc k) = pos (w * 4 + k % 4)

-- The slots of the first `k` packets, in order.
abbrev pub slots : ℕ → ℕ → List ℤ
slots w zero = []
slots w (suc k) = slots w k ++ last_slot w (suc k) ∷ []

abbrev pub held : Option ℕ → ℕ
held none = 0
held (some _) = 1

-- `done` packets are committed and `read` are taken; `n` is the number of frame slots. The slots
-- of the packets from `read - n` on are locked, up to the one that the Lua thread holds.
pub record Inv (w n done read : ℕ) (s : System) : Type 0 where
  pub in_range : w < max_windows
  pub few : (0 < n) × (n < 4)
  pub ready : s.ring.ready_idx w ≡ last_slot w done
  pub local : s.ring.local_read w ≡ last_slot w read
  pub order : read ≤ done
  pub room : done + held s.holding ≤ read - n + 4
  pub hold : (s.holding ≡ none) ⊎ (s.holding ≡ some (w * 4 + done % 4))
  pub locked :
      (k : ℕ)
      → read - n ≤ k
      → k < done + held s.holding
      → bit_at (w * 4 + k % 4) s.ring.locked_mask ≡ 1
  pub free :
      (k : ℕ)
      → done + held s.holding ≤ k
      → k < read - n + 4
      → bit_at (w * 4 + k % 4) s.ring.locked_mask ≡ 0
  pub frame : s.t_frame < n
  pub active :
      (j : ℕ)
      → j < n
      → s.ring.active_ring_slots w ((s.t_frame + n - 1 - j) % n) ≡ last_slot w (read - j)
  pub committed : s.committed ≡ slots w done
  pub taken : s.taken ≡ slots w read

pub frame_slots_few : (m : ℕ) → (0 < frame_slots m) × (frame_slots m < 4)
unfolding frame_slots
frame_slots_few m = ground arith

pub last_slot-ReadyAt : (w k : ℕ) → ReadyAt (last_slot w k) (w * 4) (k % 4)
last_slot-ReadyAt w zero = inl (refl, refl)
last_slot-ReadyAt w (suc k) = inr (k % 4, omega arith, refl, omega arith)

zero_sub : (j : ℕ) → 0 - j ≡ 0
zero_sub j = omega arith

pub fresh-Inv :
    {w m : ℕ} {s : System} → w < max_windows → IsFresh w m s → Inv w (frame_slots m) 0 0 s
fresh-Inv {w} {m} {s} lt f = record {
  in_range = lt;
  few = frame_slots_few m;
  ready = f.ready;
  local = f.read;
  order = omega arith;
  room = ground (arith, f.holding);
  hold = inl f.holding;
  locked = λ k lo hi. ground (arith, f.holding);
  free = λ k lo hi. f.bits (k % 4) (omega arith);
  frame = f.frame;
  active =
      λ j h. f.active _ (omega (arith, frame_slots_few m)) ∙ ap (last_slot w) (sym (zero_sub j));
  committed = f.committed;
  taken = f.taken;
}
