-- ===== src/Render/Round/Drain.antt =====
-- The loop of the render thread while no other thread changes anything.
use chess_rts.Base.{
  ℕ, suc, ◌+◌, ◌≤◌, ◌<◌, ◌≡◌, refl, inl, inr, false, Option, some, List, [], ◌∷◌, ◌++◌, sym, ◌∙◌,
  ap, arith, length, length-append,
}
use mathlib.Core.List.{append-nil}
use chess_rts.Base.Int.{ℤ}
use chess_rts.State.{max_windows, Floats, Globals}
use chess_rts.Render.Fifo.Order.{taken-IsPrefix}
use chess_rts.Render.Fifo.Windows.{Windows, AllReach}
use chess_rts.Render.Fifo.Windows.Alone.{AllReach-Reach}
use chess_rts.Render.Round.{
  Rounded, RoundAnswers, AllDefined, render_round, is_stopped, render_thread_loop,
}
use chess_rts.Render.Round.Window.{TakesOldest, Matches}
use chess_rts.Render.Round.Take.{render_round-RoundOk}

-- Rounds in which the other threads leave the globals alone.
abbrev pub undisturbed :
    {fl : Floats} → List RoundAnswers → List ((Globals fl → Globals fl) × RoundAnswers)
undisturbed [] = []
undisturbed (a ∷ rounds) = (λ g. g, a) ∷ undisturbed rounds

abbrev pub EachDefined : List RoundAnswers → Type 0
EachDefined [] = Unit
EachDefined (a ∷ rounds) = AllDefined a × EachDefined rounds

-- At most `n` packets of each window are waiting.
abbrev AtMost : ℕ → Windows → Type 0
AtMost n s = (v : ℕ) → v < max_windows → length (s.committed v) ≤ length (s.taken v) + n

length-TakesOldest :
    (n : ℕ) {committed taken taken' : List ℤ}
    → TakesOldest committed taken taken'
    → length committed ≤ length taken + suc n
    → length committed ≤ length taken' + n
length-TakesOldest n {committed} {taken} {taken'} (inl (e, q)) le = rw (q, e) (omega arith)
length-TakesOldest n {committed} {taken} {taken'} (inr (i, rest, e, q)) le =
    rw q (omega (arith, length-append taken (i ∷ []), le))

prefix_full :
    (waiting : List ℤ) {committed taken : List ℤ}
    → committed ≡ taken ++ waiting
    → length committed ≤ length taken + 0
    → taken ≡ committed
prefix_full [] {taken = taken} e le = sym (append-nil taken) ∙ sym e
prefix_full (i ∷ rest) {committed} {taken} e le =
    absurd (omega (arith, ap length e, length-append taken (i ∷ rest), le))

-- The loop has ended, and every window's packets are taken.
abbrev pub Drained : {fl : Floats} → (ℕ → ℕ) → Windows → Option (Rounded fl) → Type 0
Drained {fl} frames s run =
    (r : Rounded fl) × (after : Windows) × (run ≡ some r)
    × AllReach frames after
    × Matches frames after r.t_frame r.globals
    × ((v : ℕ) → v < max_windows → after.committed v ≡ s.committed v)
    × ((v : ℕ) → after.holding v ≡ s.holding v)
    × ((v : ℕ) → v < max_windows → after.taken v ≡ s.committed v)

loop_next :
    {fl : Floats} (a : RoundAnswers) (rounds : List RoundAnswers) (t_frame : ℕ → ℕ) (g : Globals fl)
    (r rest : Rounded fl)
    → is_stopped g ≡ false
    → render_round a t_frame g ≡ some r
    → render_thread_loop (undisturbed rounds) r.t_frame r.globals ≡ some rest
    → render_thread_loop (undisturbed (a ∷ rounds)) t_frame g
      ≡ some (record rest { calls = r.calls ++ rest.calls })
unfolding render_thread_loop
loop_next a rounds t_frame g r rest run e q = rw (run, e, q)

after_round :
    (n : ℕ) (s after : Windows)
    → ((v : ℕ) → v < max_windows → TakesOldest (s.committed v) (s.taken v) (after.taken v))
    → ((v : ℕ) → after.committed v ≡ s.committed v)
    → AtMost (suc n) s
    → AtMost n after
after_round n s after takes same few v lt =
    rw (same v) (length-TakesOldest n (takes v lt) (few v lt))

drains :
    {fl : Floats} {frames : ℕ → ℕ} (rounds : List RoundAnswers) (s : Windows) (t_frame : ℕ → ℕ)
    (g : Globals fl)
    → EachDefined rounds
    → AtMost (length rounds) s
    → is_stopped g ≡ false
    → AllReach frames s
    → Matches frames s t_frame g
    → Drained frames s (render_thread_loop (undisturbed rounds) t_frame g)
unfolding render_thread_loop
drains [] s t_frame g defined few run reach mt = (
  _,
  s,
  refl,
  reach,
  mt,
  λ v lt. refl,
  λ v. refl,
  λ v lt.
      let (waiting, e, short) = taken-IsPrefix lt (AllReach-Reach lt reach) in
      prefix_full waiting e (few v lt),
)
drains (a ∷ rounds) s t_frame g defined few run reach mt =
    let (r, next, e, ok) = render_round-RoundOk a g defined.0 reach mt in
    let (reach', mt', takes, same, hold, flags) = ok in
    let (rest, after, q, reach'', mt'', kept, hold', taken) =
      drains rounds next r.t_frame r.globals defined.1
        (after_round (length rounds) s next takes same few) (flags ∙ run) reach' mt' in
    (
      record rest { calls = r.calls ++ rest.calls },
      after,
      loop_next a rounds t_frame g r rest run e q,
      reach'',
      mt'',
      λ v lt. kept v lt ∙ same v,
      λ v. hold' v ∙ hold v,
      λ v lt. taken v lt ∙ same v,
    )

-- While the running flags are set and no other thread changes any of the globals (no commit, no
-- acquire, no `vx_stream_init`, no command), four rounds of the render thread are enough: from globals
-- whose ring is one that the steps of the windows reach, any number of rounds from four on ends, if
-- each acquisition answers with an index within the arrays or with one of the three errors that the
-- code tests, and every packet that was committed to any window has been taken, while what the Lua
-- thread holds stays held.
pub render_thread_loop-Drained :
    {fl : Floats} {frames : ℕ → ℕ} {s : Windows} (rounds : List RoundAnswers) (t_frame : ℕ → ℕ)
    (g : Globals fl)
    → EachDefined rounds
    → 4 ≤ length rounds
    → is_stopped g ≡ false
    → AllReach frames s
    → Matches frames s t_frame g
    → Drained frames s (render_thread_loop (undisturbed rounds) t_frame g)
render_thread_loop-Drained {s = s} rounds t_frame g defined enough run reach mt =
    drains rounds s t_frame g defined few run reach mt
  where
    few : AtMost (length rounds) s
    few v lt =
        let (waiting, e, short) = taken-IsPrefix lt (AllReach-Reach lt reach) in
        omega (arith, ap length e, length-append (s.taken v) waiting, enough, short)
