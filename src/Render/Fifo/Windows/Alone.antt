-- ===== src/Render/Fifo/Windows/Alone.antt =====
-- The windows do not disturb one another: each window's part of the shared ring is one that its
-- own steps reach.
use chess_rts.Base.{
  ℕ, ◌<◌, ◌≡◌, ◌≢◌, inl, inr, arith, sym, Bool-cases, ◌==◌, ==_iff, update_self, update_ne,
}
use mathlib.Core.Path.{subst}
use chess_rts.State.{max_windows}
use chess_rts.Boot.Fresh.{at_rest, reset_ring-IsFresh, reset_ring-SameWindow}
use chess_rts.Ring.{reset_ring}
use chess_rts.Render.Fifo.System.{System, SameWindow, Step, Reach, IsFresh}
use chess_rts.Render.Fifo.System
use chess_rts.Render.Fifo.Steps.{Reach-Counted}
use chess_rts.Render.Fifo.Windows.{
  Windows, view, put, IsOwn, AllStep, own, write, restart, AllReach, start, later,
}
use chess_rts.Render.Fifo.Windows.Others.{write-SameWindow, own-SameWindow}

module _ (w : ℕ) where
  view-put_self : (t : System) (s : Windows) → view w (put w t s) ≡ t
  view-put_self t s = rw (
    update_self s.t_frame w t.t_frame,
    update_self s.holding w t.holding,
    update_self s.committed w t.committed,
    update_self s.taken w t.taken,
  )

  view-put_ne :
      (v : ℕ) (t : System) (s : Windows)
      → v ≢ w
      → view w (put v t s) ≡ record (view w s) { ring = t.ring }
  view-put_ne v t s other = rw (
    update_ne s.t_frame v w t.t_frame other,
    update_ne s.holding v w t.holding other,
    update_ne s.committed v w t.committed other,
    update_ne s.taken v w t.taken other,
  )

module _ (frames : ℕ → ℕ) {w : ℕ} (hw : w < max_windows) where
  -- A part of the ring that nobody touches, whatever the other window's state becomes.
  beside :
      {v : ℕ} (t : System) (s : Windows)
      → v ≢ w
      → SameWindow w s.ring t.ring
      → Reach w (frames w) (view w s)
      → Reach w (frames w) (view w (put v t s))
  beside {v} t s other same r =
      subst (Reach w (frames w)) (sym (view-put_ne w v t s other))
        (System.later r (System.elsewhere same))

  -- The window's own state, or the part of another.
  either :
      {v : ℕ} (t : System) (s : Windows)
      → Reach v (frames v) t
      → (v ≢ w → SameWindow w s.ring t.ring)
      → Reach w (frames w) (view w s)
      → Reach w (frames w) (view w (put v t s))
  either {v} t s of_t same of_w = elim (Bool-cases (v == w)) [
    | inl eq ↦
        subst (λ x. Reach x (frames x) (view x (put v t s))) ((==_iff v w).0 eq)
          (subst (Reach v (frames v)) (sym (view-put_self v t s)) of_t)
    | inr differ ↦ let other : v ≢ w = λ e. ground arith in beside t s other (same other) of_w
  ]

own_step :
    (frames : ℕ → ℕ) {v w : ℕ} (t : System) (s : Windows)
    → v < max_windows
    → w < max_windows
    → (st : Step v (frames v) (view v s) t) → IsOwn st
    → Reach v (frames v) (view v s)
    → Reach w (frames w) (view w s)
    → Reach w (frames w) (view w (put v t s))
own_step frames {v} t s hv hw st is_own of_v =
    let (done, read, inv) = Reach-Counted hv of_v in
    either frames hw t s (System.later of_v st)
      (λ other. own-SameWindow other hv hw (frames v) inv st is_own)

-- The reset of another window, or of this one, which is fresh then.
restart_step :
    (frames : ℕ → ℕ) {v w : ℕ} (s : Windows)
    → v < max_windows
    → w < max_windows
    → Reach v (frames v) (view v s)
    → Reach w (frames w) (view w s)
    → Reach w (frames w) (view w (put v (at_rest (reset_ring v s.ring) (s.t_frame v)) s))
restart_step frames {v} s hv hw of_v =
    let (done, read, inv) = Reach-Counted hv of_v in
    either frames hw (at_rest (reset_ring v s.ring) (s.t_frame v)) s
      (System.start (reset_ring-IsFresh v (frames v) (s.t_frame v) s.ring hv inv.frame))
      (λ other. reset_ring-SameWindow v _ s.ring hv hw other)

AllStep-Reach :
    {frames : ℕ → ℕ} {s t : Windows}
    → AllStep frames s t
    → ((v : ℕ) → v < max_windows → Reach v (frames v) (view v s))
    → (w : ℕ) → w < max_windows
    → Reach w (frames w) (view w t)
AllStep-Reach {frames} {s} (own {w = v} {t = t} hv st is_own) before w hw =
    own_step frames t s hv hw st is_own (before v hv) (before w hw)
AllStep-Reach {frames} {s} (write slot p) before w hw =
    System.later (before w hw) (System.elsewhere (write-SameWindow w slot p s.ring))
AllStep-Reach {frames} {s} (restart {w = v} hv) before w hw =
    restart_step frames s hv hw (before v hv) (before w hw)

-- All four windows share one lock mask, and the Lua thread restarts windows while others run. In
-- every state that the steps of all windows reach from a ring that is fresh for each window, the
-- part of each window is one that the steps of this window alone reach from a fresh ring.
pub AllReach-Reach :
    {frames : ℕ → ℕ} {s : Windows} {w : ℕ}
    → w < max_windows
    → AllReach frames s
    → Reach w (frames w) (view w s)
AllReach-Reach {w = w} hw (start fresh) = System.start (fresh w hw)
AllReach-Reach {w = w} hw (later r st) = AllStep-Reach st (λ v hv. AllReach-Reach hv r) w hw
