-- ===== src/Render/Fifo/Scan/Call.antt =====
-- What holds of a call of `vx_stream_acquire` on its way.
use chess_rts.Base.{
  ℕ, suc, ◌+◌, ◌-◌, ◌*◌, ◌%◌, ◌^◌, ◌≤◌, ◌<◌, ◌≡◌, ◌⊎◌, refl, inl, inr, true, false, Option, none,
  some, [], bit_or, arith, sym, ◌∙◌, ap, Bool-cases, ◌==◌, ◌≢◌,
}
use mathlib.Core.Path.{subst}
use chess_rts.Base.Int.{ℤ, pos}
use chess_rts.Base.Bits.{bit_at}
use chess_rts.State.{RenderRing}
use chess_rts.Ring.{Tried, slot_of_round, try_slot, quiet, vx_stream_acquire}
use chess_rts.Ring.Acquire.{ReadyAt, TriedOk, try_slot-TriedOk, slot_of_round_lem}
use chess_rts.Ring.Quiet.{acquire_free}
use chess_rts.Render.Fifo.System.{System}
use chess_rts.Render.Fifo.Inv.{Inv, last_slot-ReadyAt, held}
use chess_rts.Render.Fifo.Scan.{Scan, MayTake, overtaken, next_round}

-- An exchange alone: what it says of the bit.
tried_taken :
    (k m mask : ℕ)
    → try_slot (2 ^ k) m [] ≡ record { taken = true; mask = mask }
    → (bit_at k m ≡ 0) × (mask ≡ bit_or m (2 ^ k))
tried_taken k m mask e =
    let (m', same, clear, set) =
      subst (λ (t : Tried). TriedOk (λ x. x ≡ m) k t.taken t.mask) e
        (try_slot-TriedOk (λ x. x ≡ m) k m [] refl tt) in
    (subst (λ x. bit_at k x ≡ 0) same clear, subst (λ x. mask ≡ bit_or x (2 ^ k)) same set)

pub tried_failed : (k m : ℕ) → (try_slot (2 ^ k) m []).taken ≡ false → bit_at k m ≡ 1
tried_failed k m e =
    let t = try_slot (2 ^ k) m [] in
    let (same, held) =
      subst (λ b. TriedOk (λ x. x ≡ m) k b t.mask) e
        (try_slot-TriedOk (λ x. x ≡ m) k m [] refl tt) in
    subst (λ x. bit_at k x ≡ 1) same held

-- What holds of a call on its way: nothing is held, and after the first round, which has seen the
-- ring full, at most one slot has come free since.
pub record CallOk (w n done read : ℕ) (s : System) (c : Scan) : Type 0 where
  pub empty : s.holding ≡ none
  pub loaded : c.ready ≡ s.ring.ready_idx w
  pub started : 0 < c.round
  pub ends : c.round < 6
  pub late : (c.round ≡ 1) ⊎ ((c.takes < 2) × (read - n + 4 ≤ done + c.takes))

pub record ScanOk (w n done read : ℕ) (s : System) (o : Option Scan) : Type 0 where
  pub call : (c : Scan) → o ≡ some c → CallOk w n done read s c

module _ {w n done read : ℕ} {s : System} {c : Scan} {k : ℕ} (v : Inv w n done read s)
    (ok : CallOk w n done read s c) (lt : c.round < 5)
    (e : slot_of_round c.ready (w * 4) c.round ≡ some k) where
  at : ReadyAt c.ready (w * 4) (done % 4)
  at =
      subst (λ x. ReadyAt x (w * 4) (done % 4)) (sym (ok.loaded ∙ v.ready))
        (last_slot-ReadyAt w done)

  round_slot : k ≡ w * 4 + (done % 4 + c.round - 1) % 4
  round_slot =
      let q =
        slot_of_round_lem c.ready (w * 4) (done % 4) c.round at (omega (arith, v.in_range))
          ok.started lt in
      cc

  -- After the first round every slot that is looked at is locked.
  later_locked : c.round ≢ 1 → bit_at k s.ring.locked_mask ≡ 1
  later_locked after =
      subst (λ x. bit_at x s.ring.locked_mask ≡ 1) {x = w * 4 + (done + c.round - 5) % 4}
        (ground (arith, round_slot, ok.late, ok.started, after))
        (v.locked (done + c.round - 5) (ground (arith, ok.late, ok.started, after))
          (omega (arith, lt)))

  hit_first : bit_at k s.ring.locked_mask ≡ 0 → c.round ≡ 1
  hit_first clear = ground (arith, later_locked)

  first_slot : c.round ≡ 1 → k ≡ w * 4 + done % 4
  first_slot one = omega (arith, round_slot)

  -- A first round that fails has seen the ring full.
  miss_full : bit_at k s.ring.locked_mask ≡ 1 → c.round ≡ 1 → read - n + 4 ≤ done
  miss_full set one =
      let bit : bit_at (w * 4 + done % 4) s.ring.locked_mask ≡ 1 =
        subst (λ x. bit_at x s.ring.locked_mask ≡ 1) (first_slot one) set in
      ground (arith, bit, v.free done, ok.empty)

  -- A round that takes its slot is the atomic call.
  pub hit_acquires :
      {mask : ℕ}
      → try_slot (2 ^ k) s.ring.locked_mask [] ≡ record { taken = true; mask = mask }
      → vx_stream_acquire (pos w) s.ring quiet
        ≡ some (pos k, record (s.ring) { locked_mask = mask })
  hit_acquires {mask} t =
      let (clear, set) = tried_taken k s.ring.locked_mask mask t in
      let slot = first_slot (hit_first clear) in
      let at' : ReadyAt (s.ring.ready_idx w) (w * 4) (done % 4) =
        subst (λ x. ReadyAt x (w * 4) (done % 4)) ok.loaded at in
      acquire_free w (done % 4) s.ring v.in_range at' (omega arith)
        (subst (λ x. bit_at x s.ring.locked_mask ≡ 0) slot clear)
      ∙ ap {B = Option (ℤ × RenderRing)}
          (λ x. some (pos x, record (s.ring) { locked_mask = bit_or s.ring.locked_mask (2 ^ x) }))
          (sym slot)
      ∙ ap {B = Option (ℤ × RenderRing)} (λ x. some (pos k, record (s.ring) { locked_mask = x }))
          (sym set)

  pub next-CallOk : bit_at k s.ring.locked_mask ≡ 1 → CallOk w n done read s (next_round c)
  next-CallOk set = record {
    empty = ok.empty;
    loaded = ok.loaded;
    started = omega arith;
    ends = omega (arith, lt);
    late = elim (Bool-cases (c.round == 1)) [
      | inl one ↦ rw one (inr (omega arith, ground (arith, one, miss_full set)))
      | inr after ↦ rw after (ground (arith, after, ok.late))
    ];
  }

-- A call on its way only reads `ready_idx` and `holding`.
pub same_call :
    {w n done read : ℕ} {s t : System} {c : Scan}
    → t.holding ≡ s.holding
    → t.ring.ready_idx w ≡ s.ring.ready_idx w
    → CallOk w n done read s c
    → CallOk w n done read t c
same_call h r ok = record {
  empty = h ∙ ok.empty;
  loaded = ok.loaded ∙ sym r;
  started = ok.started;
  ends = ok.ends;
  late = ok.late;
}

pub no_call : {w n done read : ℕ} {s : System} → ScanOk w n done read s none
no_call = record { call = λ c e. absurd (cc) }

pub on_call :
    {w n done read : ℕ} {s : System} {c : Scan}
    → CallOk w n done read s c
    → ScanOk w n done read s (some c)
on_call {w} {n} {done} {read} {s} {c} ok = record {
  call = λ c' e. subst (CallOk w n done read s) {x = c} {y = c'} (cc) ok;
}

pub taken_call :
    {w n done read : ℕ} {s t : System} (o : Option Scan)
    → t.holding ≡ s.holding
    → t.ring.ready_idx w ≡ s.ring.ready_idx w
    → MayTake 1 o
    → ScanOk w n done read s o
    → ScanOk w n done (suc read) t (overtaken o)
taken_call none h r may ok = no_call
taken_call (some c) h r may ok =
    let before = ok.call c refl in
    on_call (record {
      empty = h ∙ before.empty;
      loaded = before.loaded ∙ sym r;
      started = before.started;
      ends = before.ends;
      late = ground (arith, before.late, may);
    })
