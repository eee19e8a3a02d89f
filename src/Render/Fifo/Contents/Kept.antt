-- ===== src/Render/Fifo/Contents/Kept.antt =====
-- What each step does to the packets that wait.
use chess_rts.Base.{
  ℕ, zero, suc, ◌+◌, ◌-◌, ◌*◌, ◌%◌, ◌≤◌, ◌<◌, ◌≡◌, ◌⊎◌, inl, inr, none, some, [], ◌∷◌, ◌++◌, arith,
  sym, ◌∙◌, ap, update,
}
use mathlib.Core.List.{append_assoc}
use native.Mathlib.Decide.{dec_lt}
use chess_rts.Base.Int.{ℤ, pos}
use chess_rts.State.{RenderPacket, RenderRing}
use chess_rts.Ring.{quiet, vx_stream_acquire, vx_stream_commit}
use chess_rts.Render.{frame_slots, store_active, took, render_take}
use chess_rts.Render.Fifo.System.{System}
use chess_rts.Render.Fifo.Inv.{Inv, last_slot}
use chess_rts.Render.Fifo.Producer.{
  acquire_next, acquire_none, commit-Inv, commit_lem, elsewhere-Inv,
}
use chess_rts.Render.Fifo.Consumer.{take_nothing, take_next}
use chess_rts.Render.Fifo.Windows.Others.{write-SameWindow}
use chess_rts.Render.Fifo.Steps.{take_step, some_pair_inj, took_inj}
use chess_rts.Render.Fifo.Contents.{Contents, with_ring, stored}
use chess_rts.Render.Fifo.Contents.Slots.{contents_from, contents_snoc, contents_stored}

-- What holds of the packets: those sent are those drawn and then those in the waiting slots.
pub record Kept (w m : ℕ) (s : Contents) : Type 0 where
  pub done : ℕ
  pub read : ℕ
  pub inv : Inv w (frame_slots m) done read s.sys
  pub kept : s.sent ≡ s.drawn ++ contents_from s.sys.ring.packets w read (done - read)

module _ {w done read : ℕ} {s : System} (m : ℕ) (v : Inv w (frame_slots m) done read s) where
  pub acquired_packets :
      {i : ℤ} {r : RenderRing}
      → s.holding ≡ none
      → vx_stream_acquire (pos w) s.ring quiet ≡ some (i, r)
      → r.packets ≡ s.ring.packets
  acquired_packets e q = elim (dec_lt done (read - frame_slots m + 4)) [
    | yes below ↦
        ap (λ (r : RenderRing). r.packets) (some_pair_inj (sym q ∙ acquire_next v e below)).1
    | no full ↦
        ap (λ (r : RenderRing). r.packets)
          (some_pair_inj (sym q ∙ acquire_none v e (ground (arith, v.room, full, e)))).1
  ]

  taken_slot :
      {slot f : ℕ} {r : RenderRing}
      → render_take w m s.t_frame s.ring ≡ took (pos slot) f r
      → (read < done) × (slot ≡ w * 4 + read % 4) × (r.packets ≡ s.ring.packets)
  unfolding store_active
  taken_slot e = elim (dec_lt read done) [
    | yes lt ↦
        let (slot, frame, ring) = took_inj (sym e ∙ take_next m v lt) in
        (lt, cc, ap (λ (r : RenderRing). r.packets) ring)
    | no le ↦ absurd (cc (take_nothing m v (omega (arith, v.order))))
  ]

local_slot :
    (w read slot : ℕ)
    → last_slot w read ≡ pos slot
    → (k : ℕ) × (k + 1 ≡ read) × (slot ≡ w * 4 + k % 4)
local_slot w zero slot e = absurd (cc)
local_slot w (suc k) slot e = (k, omega arith, cc)

module _ {w m : ℕ} (s : Contents) (b : Kept w m s) where
  abbrev packets : ℕ → RenderPacket
  packets = s.sys.ring.packets

  -- Other packets that agree on the waiting slots.
  pub kept_by :
      (f : ℕ → RenderPacket)
      → contents_from f w b.read (b.done - b.read)
        ≡ contents_from packets w b.read (b.done - b.read)
      → s.sent ≡ s.drawn ++ contents_from f w b.read (b.done - b.read)
  kept_by f same = b.kept ∙ ap (λ l. s.drawn ++ l) (sym same)

  pub same_packets-Kept :
      (t : System)
      → t.ring.packets ≡ packets
      → Inv w (frame_slots m) b.done b.read t
      → Kept w m (record s { sys = t })
  same_packets-Kept t same inv = record {
    done = b.done;
    read = b.read;
    inv = inv;
    kept =
        kept_by t.ring.packets
          (ap (λ (f : ℕ → RenderPacket). contents_from f w b.read (b.done - b.read)) same);
  }

  -- A store into a slot that does not wait.
  stored-Kept :
      (slot d : ℕ) (p : RenderPacket)
      → slot ≡ w * 4 + d % 4
      → ((b.done ≤ d) × (d < b.read + 4)) ⊎ ((d + 1 ≡ b.read) × (b.done < b.read + 4))
      → Kept w m (with_ring (stored slot p s.sys.ring) s)
  stored-Kept slot d p at out = record {
    done = b.done;
    read = b.read;
    inv = elsewhere-Inv (write-SameWindow w slot p s.sys.ring) b.inv;
    kept = kept_by (update packets slot p) (
        ap (λ x. contents_from (update packets x p) w b.read (b.done - b.read)) at
        ∙ contents_stored packets p w b.read (b.done - b.read) d
            (ground (arith, out, b.inv.order)));
  }

  pub fill-Kept :
      (g : ℕ) (p : RenderPacket)
      → s.sys.holding ≡ some g
      → Kept w m (with_ring (stored g p s.sys.ring) s)
  fill-Kept g p h =
      stored-Kept g b.done p (ground (arith, b.inv.hold))
        (inl (omega arith, ground (arith, b.inv.room, h, b.inv.few)))

  pub show-Kept :
      (slot : ℕ) (p : RenderPacket)
      → s.sys.ring.local_read w ≡ pos slot
      → Kept w m (with_ring (stored slot p s.sys.ring) s)
  show-Kept slot p h =
      let (k, before, at) = local_slot w b.read slot (sym b.inv.local ∙ h) in
      stored-Kept slot k p at (inr (before, ground (arith, b.inv.room, before, b.inv.few)))

  committed_contents :
      (g : ℕ)
      → contents_from
          (vx_stream_commit (pos w) (pos g) s.sys.ring).packets
          w
          b.read
          (suc b.done - b.read)
        ≡ contents_from packets w b.read (b.done - b.read) ++ packets (w * 4 + b.done % 4) ∷ []
  committed_contents g =
      ap (λ (r : RenderRing). contents_from r.packets w b.read (suc b.done - b.read))
        (commit_lem w (pos g) s.sys.ring b.inv.in_range)
      ∙ ap (contents_from packets w b.read) {x = suc b.done - b.read} {y = suc (b.done - b.read)}
          (omega (arith, b.inv.order))
      ∙ contents_snoc packets w b.read (b.done - b.read)
      ∙ ap
          (λ (x : ℕ).
            contents_from packets w b.read (b.done - b.read) ++ packets (w * 4 + x % 4) ∷ [])
          {x = b.read + (b.done - b.read)} {y = b.done} (omega (arith, b.inv.order))

  pub commit-Kept :
      (g : ℕ)
      → s.sys.holding ≡ some g
      → Kept w m (record s {
        sys = record (s.sys) {
          ring = vx_stream_commit (pos w) (pos g) s.sys.ring;
          holding = none;
          committed = s.sys.committed ++ pos g ∷ [];
        };
        sent = s.sent ++ s.sys.ring.packets g ∷ [];
      })
  commit-Kept g h =
      let slot : g ≡ w * 4 + b.done % 4 = ground (arith, b.inv.hold) in
      record {
        done = suc b.done;
        read = b.read;
        inv = commit-Inv b.inv h;
        kept =
            ap (λ x. s.sent ++ packets x ∷ []) slot
            ∙ ap (λ l. l ++ packets (w * 4 + b.done % 4) ∷ []) b.kept
            ∙ append_assoc s.drawn (contents_from packets w b.read (b.done - b.read)) _
            ∙ ap (λ l. s.drawn ++ l) (sym (committed_contents g));
      }

  pub take-Kept :
      (slot f : ℕ) (r : RenderRing)
      → render_take w m s.sys.t_frame s.sys.ring ≡ took (pos slot) f r
      → Kept w m (record s {
        sys = record (s.sys) {
          ring = r;
          t_frame = (f + 1) % frame_slots m;
          taken = s.sys.taken ++ pos slot ∷ [];
        };
        drawn = s.drawn ++ r.packets slot ∷ [];
      })
  take-Kept slot f r e =
      let (lt, at, same) = taken_slot m b.inv e in
      record {
        done = b.done;
        read = suc b.read;
        inv = take_step m b.inv e;
        kept =
            kept_by r.packets
              (ap (λ (f : ℕ → RenderPacket). contents_from f w b.read (b.done - b.read)) same)
            ∙ ap (λ n. s.drawn ++ contents_from r.packets w b.read n) {x = b.done - b.read}
                {y = suc (b.done - suc b.read)} (omega arith)
            ∙ sym (append_assoc s.drawn (r.packets (w * 4 + b.read % 4) ∷ []) _)
            ∙ ap
                (λ x.
                  s.drawn
                  ++ r.packets x ∷ []
                  ++ contents_from r.packets w (suc b.read) (b.done - suc b.read))
                (sym at);
      }
