-- ===== src/Render/Round/Take.antt =====
-- A round takes one packet of each window that has one waiting.
use chess_rts.Base.{
  true, ℕ, zero, suc, ◌+◌, ◌≤◌, ◌<◌, ◌≡◌, refl, inl, inr, Option, some, List, [], ◌∷◌, ◌++◌, sym,
  ◌∙◌, ap, arith, update, at_or_after,
}
use mathlib.Core.Path.{subst}
use chess_rts.Base.Int.{ℤ}
use chess_rts.State.{RenderThreadInit, max_windows, Floats, Globals}
use chess_rts.Render.Frame.{FrameAnswers, is_defined, Rendered, render_window}
use chess_rts.Render.Rebuild.Stopped.{rebuild_windows-Stopped}
use chess_rts.Render.Fifo.Windows.{Windows, AllReach}
use chess_rts.Render.Round.{
  for_frame, for_rebuild, sleep_one, each, Rounded, RoundAnswers, AllDefined, render_windows,
  render_round, is_stopped,
}
use chess_rts.Render.Round.Window.{TakesOldest, Matches, window-Served}

-- What the loop over the windows from `wid` on leaves.
pub record AllServed {fl : Floats} (frames : ℕ → ℕ) (wid : ℕ) (s : Windows) (g : Globals fl)
    (run : Option (Rounded fl)) : Type 0 where
  pub left : Rounded fl
  pub after : Windows
  pub runs : run ≡ some left
  pub reach : AllReach frames after
  pub flags :
      (left.globals.mailbox.is_running ≡ g.mailbox.is_running)
      × (left.globals.render_thread_active ≡ g.render_thread_active)
  pub matching : Matches frames after left.t_frame left.globals
  pub takes :
      (v : ℕ) → wid ≤ v → v < max_windows → TakesOldest (s.committed v) (s.taken v) (after.taken v)
  pub before : (v : ℕ) → v < wid → after.taken v ≡ s.taken v
  pub committed : (v : ℕ) → after.committed v ≡ s.committed v
  pub holding : (v : ℕ) → after.holding v ≡ s.holding v

takes_at : {c c' t t' u : List ℤ} → c ≡ c' → t ≡ t' → TakesOldest c t u → TakesOldest c' t' u
takes_at {c} {c'} {t} {t'} {u} p q h =
    subst (λ x. TakesOldest x t' u) p (subst (λ x. TakesOldest c x u) q h)

-- The next window, and then the rest.
chain_runs :
    {fl : Floats} (left wid : ℕ) (a : ℕ → FrameAnswers) (t_frame : ℕ → ℕ) (g : Globals fl)
    (r : Rendered fl) (rest : Rounded fl)
    → render_window (a wid) wid (t_frame wid) g ≡ some r
    → render_windows left a (wid + 1) (update t_frame wid r.t_frame) r.globals ≡ some rest
    → render_windows (suc left) a wid t_frame g
      ≡ some (record rest { calls = each for_frame r.calls ++ rest.calls })
unfolding render_windows
chain_runs left wid a t_frame g r rest e q = rw (e, q)

windows-AllServed :
    {fl : Floats} {frames : ℕ → ℕ} (left wid : ℕ) (a : ℕ → FrameAnswers) {s : Windows}
    (t_frame : ℕ → ℕ) (g : Globals fl)
    → ((w : ℕ) → is_defined (a w).acquire ≡ true)
    → wid + left ≡ max_windows
    → AllReach frames s
    → Matches frames s t_frame g
    → AllServed frames wid s g (render_windows left a wid t_frame g)
unfolding render_windows
windows-AllServed zero wid a {s} t_frame g defined e reach mt = record {
  left = record { globals = g; t_frame = t_frame; calls = [] };
  after = s;
  runs = refl;
  reach = reach;
  flags = (refl, refl);
  matching = mt;
  takes = λ v lo hi. absurd (omega arith);
  before = λ v lt. refl;
  committed = λ v. refl;
  holding = λ v. refl;
}
windows-AllServed {fl} {frames} (suc left) wid a {s} t_frame g defined e reach mt =
    let one = window-Served wid (a wid) (defined wid) (omega arith) reach mt in
    let more =
      windows-AllServed left (wid + 1) a (update t_frame wid one.left.t_frame) one.left.globals
        defined (omega arith) one.reach one.matching in
    record {
      left = record (more.left) { calls = each for_frame one.left.calls ++ more.left.calls };
      after = more.after;
      runs = chain_runs left wid a t_frame g one.left more.left one.runs more.runs;
      reach = more.reach;
      flags = (more.flags.0 ∙ one.flags.0, more.flags.1 ∙ one.flags.1);
      matching = more.matching;
      takes = λ v lo hi. elim (at_or_after wid v lo) [
        | inl here ↦
            subst (λ k. TakesOldest (s.committed k) (s.taken k) (more.after.taken k)) here
              (subst (TakesOldest (s.committed wid) (s.taken wid))
                (sym (more.before wid (omega arith))) one.takes)
        | inr after ↦
            takes_at (one.committed v) (one.others v (omega arith)) (more.takes v after hi)
      ];
      before = λ v lt. more.before v (omega arith) ∙ one.others v (omega arith);
      committed = λ v. more.committed v ∙ one.committed v;
      holding = λ v. more.holding v ∙ one.holding v;
    }

still :
    {fl : Floats} {frames : ℕ → ℕ} {s : Windows} {t_frame : ℕ → ℕ} {g g' : Globals fl}
    → g'.ring ≡ g.ring
    → g'.window_wsi ≡ g.window_wsi
    → Matches frames s t_frame g
    → Matches frames s t_frame g'
still same handles mt = record {
  ring = same ∙ mt.ring;
  wsi = λ v. ap (λ (h : ℕ → RenderThreadInit). (h v).max_frames_in_flight) handles ∙ mt.wsi v;
  frame = mt.frame;
}

-- What a whole round leaves.
abbrev pub RoundOk : {fl : Floats} → (ℕ → ℕ) → Windows → Windows → Globals fl → Rounded fl → Type 0
RoundOk frames s after g r =
    AllReach frames after
    × Matches frames after r.t_frame r.globals
    × ((v : ℕ) → v < max_windows → TakesOldest (s.committed v) (s.taken v) (after.taken v))
    × ((v : ℕ) → after.committed v ≡ s.committed v)
    × ((v : ℕ) → after.holding v ≡ s.holding v)
    × (is_stopped r.globals ≡ is_stopped g)

-- From globals whose ring is one that the steps of the windows reach, a round of the render thread
-- over all windows has no undefined behaviour, whatever the waits see, if each acquisition answers
-- with an index within the arrays or with one of the three errors that the code tests. It leaves
-- such globals, the running flags, and what is committed and what the Lua thread holds. It takes
-- the oldest waiting packet of every window that has one, and nothing of the others.
pub render_round-RoundOk :
    {fl : Floats} {frames : ℕ → ℕ} {s : Windows} {t_frame : ℕ → ℕ} (a : RoundAnswers)
    (g : Globals fl)
    → AllDefined a
    → AllReach frames s
    → Matches frames s t_frame g
    → (r : Rounded fl) × (after : Windows) × (render_round a t_frame g ≡ some r)
      × RoundOk frames s after g r
unfolding render_round is_stopped
render_round-RoundOk {fl} {frames} {s} {t_frame} a g defined reach mt =
    let (g', rebuilds, e, stopped, _) = rebuild_windows-Stopped a.busy g in
    let all =
      windows-AllServed max_windows 0 a.frames t_frame g' defined refl reach
        (still stopped.ring stopped.handles mt) in
    (
      record (all.left) { calls = each for_rebuild rebuilds ++ (all.left.calls ++ sleep_one ∷ []) },
      all.after,
      rw (e, all.runs) refl,
      (
        all.reach,
        all.matching,
        λ v lt. all.takes v (omega arith) lt,
        all.committed,
        all.holding,
        rw (all.flags.0, all.flags.1, stopped.running, stopped.active),
      ),
    )
