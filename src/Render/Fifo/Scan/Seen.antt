-- ===== src/Render/Fifo/Scan/Seen.antt =====
-- What the render thread knows from a `ready_idx` that may be out of date.
use chess_rts.Base.{
  ℕ, suc, ◌≤◌, ◌==◌, ne→==_false, ◌<◌, ◌≡◌, false, Option, none, some, arith, sym, ◌∙◌, ap,
}
use chess_rts.Base.Int.{ℤ}
use chess_rts.State.{RenderRing}
use chess_rts.Render.{frame_slots, is_read, took, take_oldest, render_take}
use chess_rts.Render.Fifo.System.{System}
use chess_rts.Render.Fifo.Inv.{Inv, last_slot}
use chess_rts.Render.Fifo.Consumer.{nothing_new}

-- What was seen is the last of the first `d` packets, for a number `d` from the packets that are
-- taken on: the Lua thread has only committed more since.
pub record SeenOk (w done read : ℕ) (o : Option ℤ) : Type 0 where
  pub at :
      (ready : ℤ) → o ≡ some ready → (d : ℕ) × (ready ≡ last_slot w d) × (read ≤ d) × (d ≤ done)

pub nothing_seen : {w done read : ℕ} → SeenOk w done read none
nothing_seen = record { at = λ ready e. absurd (cc) }

pub seen_now :
    {w n done read : ℕ} {s : System}
    → Inv w n done read s
    → SeenOk w done read (some (s.ring.ready_idx w))
seen_now {done = done} v = record { at = λ ready e. (done, cc v.ready, v.order, omega arith) }

pub seen_before :
    {w done read : ℕ} {o : Option ℤ} → SeenOk w done read o → SeenOk w (suc done) read o
seen_before ok = record {
  at = λ ready e. let (d, at, lo, hi) = ok.at ready e in (d, at, lo, omega (arith, hi));
}

module _ {w done read : ℕ} {s : System} (m : ℕ) (v : Inv w (frame_slots m) done read s) where
  -- A window that was seen with something new has something new.
  seen_waiting :
      {o : Option ℤ} {ready : ℤ}
      → SeenOk w done read o
      → o ≡ some ready
      → is_read ready (s.ring.local_read w) ≡ false
      → read < done
  seen_waiting {ready = ready} ok e new =
      let (d, at, lo, hi) = ok.at ready e in
      let test = nothing_new w d read lo (ground (arith, v.room, v.few, hi)) in
      let same : is_read (last_slot w d) (last_slot w read) ≡ false =
        ap (λ x. is_read x (last_slot w read)) (sym at) ∙ ap (is_read ready) (sym v.local) ∙ new in
      let differ : (d == read) ≡ false = sym test ∙ same in ground (arith, differ, lo, hi)

  pub seen_take :
      {o : Option ℤ} {ready i : ℤ} {f : ℕ} {r : RenderRing}
      → SeenOk w done read o
      → o ≡ some ready
      → is_read ready (s.ring.local_read w) ≡ false
      → take_oldest w m s.t_frame s.ring ≡ took i f r
      → render_take w m s.t_frame s.ring ≡ took i f r
  unfolding render_take
  seen_take ok e new t =
      let lt = seen_waiting ok e new in
      let test =
        nothing_new w done read v.order (ground (arith, v.room, v.few))
        ∙ ne→==_false done read (λ q. absurd (omega (arith, q, lt))) in
      let now : is_read (s.ring.ready_idx w) (s.ring.local_read w) ≡ false =
        ap (λ x. is_read x (s.ring.local_read w)) v.ready
        ∙ ap (is_read (last_slot w done)) v.local
        ∙ test in
      rw now t
