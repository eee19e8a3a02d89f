-- ===== src/Render/Fifo/Steps.antt =====
-- Every step keeps the invariant, so every reachable state has it.
use chess_rts.Base.{
  ℕ, suc, ◌+◌, ◌-◌, ◌*◌, ◌%◌, ◌<◌, ◌≡◌, Option, none, some, [], ◌∷◌, ◌++◌, arith, ◌∙◌, sym,
}
use native.Mathlib.Decide.{dec_lt}
use chess_rts.Base.Int.{ℤ, pos, minus_one}
use chess_rts.State.{RenderRing, max_windows}
use chess_rts.Ring.{quiet, vx_stream_acquire}
use chess_rts.Render.{frame_slots, took, render_take}
use chess_rts.Render.Fifo.System.{
  System, Step, acquire, refuse, commit, skip, take, elsewhere, Reach, start, later,
}
use chess_rts.Render.Fifo.Inv.{Inv, fresh-Inv}
use chess_rts.Render.Fifo.Producer.{
  acquire_next, acquire_none, acquire-Inv, commit-Inv, elsewhere-Inv,
}
use chess_rts.Render.Fifo.Consumer.{take_nothing, take_next, take-Inv}

abbrev pub Counted : ℕ → ℕ → System → Type 0
Counted w m s = (done read : ℕ) × Inv w (frame_slots m) done read s

pub some_pair_inj :
    {A B : Type 0} {a c : A} {b d : B}
    → ◌≡◌ {A = Option (A × B)} (some (a, b)) (some (c, d))
    → (a ≡ c) × (b ≡ d)
some_pair_inj e = (cc, cc)

pub took_inj :
    {i j : ℤ} {f g : ℕ} {r q : RenderRing} → took i f r ≡ took j g q → (i ≡ j) × (f ≡ g) × (r ≡ q)
took_inj e = (cc, cc, cc)

module _ {w done read : ℕ} {s : System} (m : ℕ) (v : Inv w (frame_slots m) done read s) where
  pub acquire_step :
      {g : ℕ} {r : RenderRing}
      → s.holding ≡ none
      → vx_stream_acquire (pos w) s.ring quiet ≡ some (pos g, r)
      → Inv w (frame_slots m) done read (record s { ring = r; holding = some g })
  acquire_step {g} e q = elim (dec_lt done (read - frame_slots m + 4)) [
    | yes below ↦
        let (slot, ring) = some_pair_inj (sym q ∙ acquire_next v e below) in
        let slot' : g ≡ w * 4 + done % 4 = cc in rw (slot', ring) (acquire-Inv v e below)
    | no full ↦ absurd (cc (acquire_none v e (ground (arith, v.room, full, e))))
  ]

  pub refuse_step :
      {r : RenderRing}
      → s.holding ≡ none
      → vx_stream_acquire (pos w) s.ring quiet ≡ some (minus_one, r)
      → Inv w (frame_slots m) done read (record s { ring = r })
  refuse_step e q = elim (dec_lt done (read - frame_slots m + 4)) [
    | yes below ↦ absurd (cc (acquire_next v e below))
    | no full ↦
        let (slot, ring) =
          some_pair_inj (sym q ∙ acquire_none v e (ground (arith, v.room, full, e))) in
        rw ring v
  ]

  pub take_step :
      {i : ℤ} {f : ℕ} {r : RenderRing}
      → render_take w m s.t_frame s.ring ≡ took i f r
      → Inv w
          (frame_slots m)
          done
          (suc read)
          (record s { ring = r; t_frame = (f + 1) % frame_slots m; taken = s.taken ++ i ∷ [] })
  take_step e = elim (dec_lt read done) [
    | yes lt ↦
        let (slot, frame, ring) = took_inj (sym e ∙ take_next m v lt) in
        rw (slot, frame, ring) (take-Inv m v lt)
    | no le ↦ absurd (cc (take_nothing m v (omega (arith, v.order))))
  ]

Step-Inv :
    {w m done read : ℕ} {s t : System}
    → Step w m s t
    → Inv w (frame_slots m) done read s
    → Counted w m t
Step-Inv {done} {read} (acquire e q) v = (done, read, acquire_step _ v e q)
Step-Inv {done} {read} (refuse e q) v = (done, read, refuse_step _ v e q)
Step-Inv {done} {read} (commit e) v = (suc done, read, commit-Inv v e)
Step-Inv {done} {read} (skip e) v = (done, read, v)
Step-Inv {done} {read} (take e) v = (done, suc read, take_step _ v e)
Step-Inv {done} {read} (elsewhere same) v = (done, read, elsewhere-Inv same v)

pub Reach-Counted : {w m : ℕ} {s : System} → w < max_windows → Reach w m s → Counted w m s
Reach-Counted lt (start f) = (0, 0, fresh-Inv lt f)
Reach-Counted lt (later r st) = Step-Inv st (Reach-Counted lt r).2
