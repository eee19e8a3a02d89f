-- ===== src/Render/Fifo/Producer.antt =====
-- The steps of the Lua thread and of the other windows keep the invariant.
use chess_rts.Base.{
  ℕ, suc, ◌+◌, ◌-◌, ◌*◌, ◌%◌, ◌^◌, ◌<◌, ◌≡◌, refl, inl, inr, none, some, [], ◌∷◌, ◌++◌, arith, ◌∙◌,
  ap, sym, bit_or, ◌==◌, if◌then◌else◌, lt→leb_false, update, update_self,
}
use mathlib.Core.Path.{subst}
use chess_rts.Base.Int.{ℤ, pos, minus_one}
use chess_rts.Base.Bits.{bit_at}
use chess_rts.State.{RenderRing, max_windows}
use chess_rts.Ring.{quiet, vx_stream_acquire, vx_stream_commit}
use chess_rts.Ring.Mask.{bit_at-set_bit}
use chess_rts.Ring.Acquire.{ReadyAt}
use chess_rts.Ring.Quiet.{acquire_free, acquire_full}
use chess_rts.Render.Fifo.System.{System, SameWindow}
use chess_rts.Render.Fifo.Inv.{Inv, last_slot-ReadyAt}

module _ {w n done read : ℕ} {s : System} (v : Inv w n done read s) (empty : s.holding ≡ none) where
  ready_at : ReadyAt (s.ring.ready_idx w) (w * 4) (done % 4)
  ready_at = subst (λ x. ReadyAt x (w * 4) (done % 4)) (sym v.ready) (last_slot-ReadyAt w done)

  -- The slot that `vx_stream_acquire` looks at first is locked only if all four are.
  pub acquire_next :
      done < read - n + 4
      → vx_stream_acquire (pos w) s.ring quiet
        ≡ some (
          pos (w * 4 + done % 4),
          record s.ring { locked_mask = bit_or s.ring.locked_mask (2 ^ (w * 4 + done % 4)) },
        )
  acquire_next below =
      acquire_free w (done % 4) s.ring v.in_range ready_at (omega arith)
        (v.free done (ground (arith, empty)) below)

  pub acquire_none :
      done ≡ read - n + 4 → vx_stream_acquire (pos w) s.ring quiet ≡ some (minus_one, s.ring)
  acquire_none e = acquire_full w (done % 4) s.ring v.in_range ready_at λ j lt.
      let k = read - n + (j + 4 - (read - n) % 4) % 4 in
      subst (λ x. bit_at (w * 4 + x) s.ring.locked_mask ≡ 1) (omega arith)
        (v.locked k (omega arith) (ground (arith, empty)))

  set_next :
      (j : ℕ)
      → bit_at (w * 4 + j) (bit_or s.ring.locked_mask (2 ^ (w * 4 + done % 4)))
        ≡ (if w * 4 + j == w * 4 + done % 4 then 1 else bit_at (w * 4 + j) s.ring.locked_mask)
  set_next j = bit_at-set_bit (w * 4 + j) (w * 4 + done % 4) s.ring.locked_mask

  pub acquire-Inv :
      done < read - n + 4
      → Inv w n done read (record s {
        ring = record (s.ring) { locked_mask = bit_or s.ring.locked_mask (2 ^ (w * 4 + done % 4)) };
        holding = some (w * 4 + done % 4);
      })
  acquire-Inv below = record {
    in_range = v.in_range;
    few = v.few;
    ready = v.ready;
    local = v.local;
    order = v.order;
    room = omega arith;
    hold = inr refl;
    locked = λ k lo hi. ground (arith, set_next (k % 4), v.locked k);
    free = λ k lo hi. ground (arith, set_next (k % 4), v.free k);
    frame = v.frame;
    active = v.active;
    committed = v.committed;
    taken = v.taken;
  }

pub commit_lem :
    (w : ℕ) (x : ℤ) (r : RenderRing)
    → w < max_windows
    → vx_stream_commit (pos w) x r ≡ record r { ready_idx = update r.ready_idx w x }
unfolding vx_stream_commit
commit_lem w x r lt = rw (lt→leb_false w max_windows lt)

module _ {w n done read : ℕ} {s : System} (v : Inv w n done read s)
    (h : s.holding ≡ some (w * 4 + done % 4)) where
  abbrev committed_ring : RenderRing
  committed_ring = record (s.ring) {
    ready_idx = update s.ring.ready_idx w (pos (w * 4 + done % 4));
  }

  commit_next-Inv : Inv w n (suc done) read (record s {
    ring = committed_ring;
    holding = none;
    committed = s.committed ++ pos (w * 4 + done % 4) ∷ [];
  })
  commit_next-Inv = record {
    in_range = v.in_range;
    few = v.few;
    ready = update_self s.ring.ready_idx w (pos (w * 4 + done % 4));
    local = v.local;
    order = omega (arith, v.order);
    room = ground (arith, v.room, h);
    hold = inl refl;
    locked = λ k lo hi. ground (arith, v.locked k, h);
    free = λ k lo hi. ground (arith, v.free k, h);
    frame = v.frame;
    active = v.active;
    committed = ap (λ l. l ++ pos (w * 4 + done % 4) ∷ []) v.committed;
    taken = v.taken;
  }

pub commit-Inv :
    {w n done read g : ℕ} {s : System}
    → Inv w n done read s
    → s.holding ≡ some g
    → Inv w n (suc done) read (record s {
      ring = vx_stream_commit (pos w) (pos g) s.ring;
      holding = none;
      committed = s.committed ++ pos g ∷ [];
    })
commit-Inv {w} {n} {done} {read} {g} {s} v h =
    rw (commit_lem w (pos g) s.ring v.in_range, slot) (commit_next-Inv v (h ∙ ap some slot))
  where
    slot : g ≡ w * 4 + done % 4
    slot = ground (arith, v.hold)

pub elsewhere-Inv :
    {w n done read : ℕ} {s : System} {r : RenderRing}
    → SameWindow w s.ring r
    → Inv w n done read s
    → Inv w n done read (record s { ring = r })
elsewhere-Inv same v = record {
  in_range = v.in_range;
  few = v.few;
  ready = same.ready ∙ v.ready;
  local = same.read ∙ v.local;
  order = v.order;
  room = v.room;
  hold = v.hold;
  locked = λ k lo hi. same.bits (k % 4) (omega arith) ∙ v.locked k lo hi;
  free = λ k lo hi. same.bits (k % 4) (omega arith) ∙ v.free k lo hi;
  frame = v.frame;
  active = λ j h. same.active _ ∙ v.active j h;
  committed = v.committed;
  taken = v.taken;
}
